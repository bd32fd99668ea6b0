-- ===== src/LockManager/Unlock.antt =====
-- What `unlock_all` leaves of the invariant.
use simple_duck_dbms.Base.{
  ℕ, false, List, [], ◌∷◌, Option, some, none, ◌≡◌, refl, sym, ap, ◌∙◌, subst,
}
use simple_duck_dbms.Transaction.{Rid, Transaction, contains}
use simple_duck_dbms.LockManager.{
  LockMode, Locks, set_tx, set_queue, remove_and_notify, remove_all, unlock_all,
}
use simple_duck_dbms.LockManager.Sets.{locked}
use simple_duck_dbms.LockManager.Invariant.{Consistent, same_locks}
use simple_duck_dbms.LockManager.Waits.{clash, erased-Consistent, tx_self}

remove_all-Consistent :
    {U : Type 0} (m : Locks U) (rids : List Rid) (id : ℕ)
    → Consistent m
    → ((mode : LockMode) (rid : Rid) → locked (m.transactions id) mode rid ≡ false)
    → Consistent (remove_all m rids id)
unfolding remove_all remove_and_notify set_queue
remove_all-Consistent m [] id c free = c
remove_all-Consistent m (rid ∷ rids) id c free =
    remove_all-Consistent (remove_and_notify m rid id) rids id
      (erased-Consistent m id rid c (λ mode. free mode rid)) free

-- The queues and the transactions are apart.
pub remove_all-set_tx :
    {U : Type 0} (m : Locks U) (rids : List Rid) (id : ℕ) (tx : Transaction U)
    → remove_all (set_tx m id tx) rids id ≡ set_tx (remove_all m rids id) id tx
unfolding remove_all remove_and_notify set_queue set_tx
remove_all-set_tx m [] id tx = refl
remove_all-set_tx m (rid ∷ rids) id tx = remove_all-set_tx (remove_and_notify m rid id) rids id tx

pub no_locks :
    {U : Type 0} (tx : Transaction U) (mode : LockMode) (rid : Rid)
    → locked (record tx { exclusive_locks = []; shared_locks = [] }) mode rid ≡ false
unfolding locked contains
no_locks tx LockMode.shared rid = refl
no_locks tx LockMode.exclusive rid = refl

pub remove_all-transactions :
    {U : Type 0} (m : Locks U) (rids : List Rid) (id : ℕ)
    → (remove_all m rids id).transactions ≡ m.transactions
unfolding remove_all remove_and_notify set_queue
remove_all-transactions m [] id = refl
remove_all-transactions m (rid ∷ rids) id =
    remove_all-transactions (remove_and_notify m rid id) rids id

pub unlock_all-Consistent :
    {U : Type 0} (m : Locks U) (tx : Option ℕ) → Consistent m → Consistent (unlock_all m tx)
unfolding unlock_all
unlock_all-Consistent m none c = c
unlock_all-Consistent m (some id) c =
    let tx = m.transactions id in
    let empty = record tx { exclusive_locks = []; shared_locks = [] } in
    let m₁ = set_tx m id empty in
    let none_held : (mode : LockMode) (rid : Rid) → locked (m₁.transactions id) mode rid ≡ false =
      λ mode rid. rw (tx_self m id empty) (no_locks tx mode rid) in
    let c₁ =
      same_locks m c id empty (λ mode rid l. absurd (clash (sym (no_locks tx mode rid) ∙ l))) in
    let c₂ = remove_all-Consistent m₁ tx.exclusive_locks id c₁ none_held in
    let held' : (mode : LockMode) (rid : Rid)
        → locked ((remove_all m₁ tx.exclusive_locks id).transactions id) mode rid ≡ false =
      λ mode rid. rw (remove_all-transactions m₁ tx.exclusive_locks id) (none_held mode rid) in
    let c₃ =
      remove_all-Consistent (remove_all m₁ tx.exclusive_locks id) tx.shared_locks id c₂ held' in
    subst Consistent
      (ap (λ l. remove_all l tx.shared_locks id) (remove_all-set_tx m tx.exclusive_locks id empty)
        ∙ remove_all-set_tx (remove_all m tx.exclusive_locks id) tx.shared_locks id empty)
      c₃
