-- ===== src/TransactionManager/Tests.antt =====
-- A transaction that has added 3 to a number.
use simple_duck_dbms.Base.{ℕ, ◌≡◌, [], ◌∷◌}
use simple_duck_dbms.Transaction.{Transaction, TransactionState, make, push_undo}
use simple_duck_dbms.TransactionManager.{Manager, commit}
use simple_duck_dbms.TransactionManager.Ends.{Ended, commit-Ended}

abbrev added : Transaction ℕ
added = push_undo (make 0) 3

abbrev busy : Manager ℕ ℕ
busy = record {
  locks = record { transactions = λ i. added; lock_table = λ rid. [] };
  next_tx_id = 1;
  active_txs = 0 ∷ [];
  database = 7;
}

commit-Ended_example :
    Ended (commit busy 0) 0 TransactionState.committed × ((commit busy 0).database ≡ busy.database)
commit-Ended_example = commit-Ended busy 0
