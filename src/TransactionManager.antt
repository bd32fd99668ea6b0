-- ===== src/TransactionManager.antt =====
-- transaction/manager.hpp and transaction/manager.cpp: the begin, the commit and the abort of a
-- transaction. `U` is the type of the undo records, and `S` of what they change.
pub mod Ends
mod Tests
use simple_duck_dbms.Base.{ℕ, ◌+◌, ◌%◌, ◌^◌, Bool, List, [], ◌∷◌, ◌==◌, if◌then◌else◌, Option, some}
use simple_duck_dbms.Transaction.{Transaction, TransactionState, make, set_state, undo}
use simple_duck_dbms.LockManager.{Locks, set_tx, unlock_all}

-- `active_txs` is the list of its keys: the transactions stand in `locks`.
pub record Manager (U S : Type 0) : Type 0 where
  pub locks : Locks U
  pub next_tx_id : ℕ
  pub active_txs : List ℕ
  pub database : S

unfoldable pub erase_id : List ℕ → ℕ → List ℕ
erase_id [] id = []
erase_id (i ∷ is) id = let rest = erase_id is id in if i == id then rest else i ∷ rest

unfoldable pub tx_of : {U S : Type 0} → Manager U S → ℕ → Transaction U
tx_of m id = m.locks.transactions id

-- `tx->set_state`
unfoldable pub state_to : {U S : Type 0} → Manager U S → ℕ → TransactionState → Manager U S
state_to m id state = record m { locks = set_tx m.locks id (set_state (tx_of m id) state) }

unfoldable pub begin : {U S : Type 0} → Manager U S → ℕ × Manager U S
begin m =
    let id = m.next_tx_id in
    (
      id,
      record m {
        locks = set_tx m.locks id (make id);
        next_tx_id = (id + 1) % 2 ^ 64;
        active_txs = id ∷ erase_id m.active_txs id;
      },
    )

unfoldable pub unlock : {U S : Type 0} → Manager U S → ℕ → Manager U S
unlock m id = record m { locks = unlock_all m.locks (some id) }

unfoldable pub finish : {U S : Type 0} → Manager U S → ℕ → Manager U S
finish m id = record m { active_txs = erase_id m.active_txs id }

unfoldable pub commit : {U S : Type 0} → Manager U S → ℕ → Manager U S
commit m id =
    let m₁ = state_to m id TransactionState.shrinking in
    let m₂ = unlock m₁ id in let m₃ = state_to m₂ id TransactionState.committed in finish m₃ id

unfoldable pub undo_changes : {U S : Type 0} → (U → S → S) → Manager U S → ℕ → Manager U S
undo_changes apply m id = record m { database = undo apply (tx_of m id) m.database }

unfoldable pub abort : {U S : Type 0} → (U → S → S) → Manager U S → ℕ → Manager U S
abort apply m id =
    let m₁ = state_to m id TransactionState.shrinking in
    let m₂ = undo_changes apply m₁ id in
    let m₃ = unlock m₂ id in let m₄ = state_to m₃ id TransactionState.aborted in finish m₄ id
