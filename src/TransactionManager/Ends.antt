-- ===== src/TransactionManager/Ends.antt =====
-- What the begin, the commit and the abort leave.
use simple_duck_dbms.Base.{
  ℕ, ◌≡◌, inl, inr, refl, ap, ◌∙◌, Bool, false, ◌||◌, List, [], ◌∷◌, ◌==◌, Bool-cases,
}
use simple_duck_dbms.Transaction.{
  Rid, Transaction, TransactionState, set_state, undo, undo_all, contains,
}
use simple_duck_dbms.LockManager.{LockMode, unlock_all}
use simple_duck_dbms.LockManager.Sets.{locked}
use simple_duck_dbms.LockManager.Waits.{tx_self}
use simple_duck_dbms.TransactionManager.{
  Manager, erase_id, tx_of, state_to, unlock, finish, commit, undo_changes, abort,
}

unfoldable pub is_active : List ℕ → ℕ → Bool
is_active [] id = false
is_active (i ∷ is) id = i == id || is_active is id

is_active-erase_id : (is : List ℕ) (id : ℕ) → is_active (erase_id is id) id ≡ false
unfolding is_active erase_id
is_active-erase_id [] id = refl
is_active-erase_id (i ∷ is) id = elim (Bool-cases (i == id)) [
  | inl e ↦ rw e (is_active-erase_id is id)
  | inr e ↦ rw (e, e) (is_active-erase_id is id)
]

module _ {U S : Type 0} (m : Manager U S) (id : ℕ) where
  state_to-tx' :
      (state : TransactionState)
      → tx_of (state_to (unlock m id) id state) id ≡ set_state (tx_of (unlock m id) id) state
  unfolding tx_of state_to
  state_to-tx' state =
      tx_self (unlock m id).locks id (set_state ((unlock m id).locks.transactions id) state)

  state_to-tx :
      (state : TransactionState) → tx_of (state_to m id state) id ≡ set_state (tx_of m id) state
  unfolding tx_of state_to
  state_to-tx state = tx_self m.locks id (set_state (m.locks.transactions id) state)

  unlock-tx :
      tx_of (unlock m id) id ≡ record (tx_of m id) { exclusive_locks = []; shared_locks = [] }
  unfolding tx_of unlock unlock_all
  unlock-tx = tx_self _ id _

  last_tx :
      (state : TransactionState)
      → tx_of (state_to (unlock m id) id state) id
        ≡ set_state (record (tx_of m id) { exclusive_locks = []; shared_locks = [] }) state
  last_tx state = state_to-tx' state ∙ ap (λ tx. set_state tx state) unlock-tx

-- What the end of a transaction leaves: its state, no lock, and no place among the active ones.
pub record Ended {U S : Type 0} (m : Manager U S) (id : ℕ) (state : TransactionState) : Type 0 where
  pub state_is : (tx_of m id).state ≡ state
  pub no_lock : (mode : LockMode) (rid : Rid) → locked (tx_of m id) mode rid ≡ false
  pub inactive : is_active m.active_txs id ≡ false

-- A transaction whose locks were dropped, in its last state.
dropped :
    {U : Type 0} (tx : Transaction U) (state : TransactionState) (mode : LockMode) (rid : Rid)
    → locked (set_state (record tx { exclusive_locks = []; shared_locks = [] }) state) mode rid
      ≡ false
unfolding locked set_state contains
dropped tx state LockMode.shared rid = refl
dropped tx state LockMode.exclusive rid = refl

Ended-tx :
    {U S : Type 0} (m : Manager U S) (id : ℕ) (state : TransactionState)
    → Ended (finish (state_to (unlock m id) id state) id) id state
unfolding finish tx_of set_state
Ended-tx m id state = record {
  state_is = ap (λ tx. tx.state) (last_tx m id state);
  no_lock = λ mode rid. rw (last_tx m id state) (dropped (tx_of m id) state mode rid);
  inactive = is_active-erase_id (state_to (unlock m id) id state).active_txs id;
}

-- A commit ends the transaction as COMMITTED and leaves the database as it is, in whatever state the
-- transaction was before, ABORTED included.
pub commit-Ended :
    {U S : Type 0} (m : Manager U S) (id : ℕ)
    → (Ended (commit m id) id TransactionState.committed) × ((commit m id).database ≡ m.database)
unfolding commit state_to unlock finish
commit-Ended m id =
    (Ended-tx (state_to m id TransactionState.shrinking) id TransactionState.committed, refl)

-- An abort ends the transaction as ABORTED and applies its undo log.
pub abort-undo_all :
    {U S : Type 0} (apply : U → S → S) (m : Manager U S) (id : ℕ)
    → (Ended (abort apply m id) id TransactionState.aborted)
      × ((abort apply m id).database ≡ undo_all apply (tx_of m id).undo_log m.database)
unfolding abort state_to unlock finish undo_changes tx_of undo set_state
abort-undo_all apply m id =
    let m₁ = state_to m id TransactionState.shrinking in
    (
      Ended-tx (undo_changes apply m₁ id) id TransactionState.aborted,
      ap (λ tx. undo_all apply tx.undo_log m.database)
          (state_to-tx m id TransactionState.shrinking),
    )
