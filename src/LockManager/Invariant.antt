-- ===== src/LockManager/Invariant.antt =====
-- The steps of the transactions, and the invariant of the states that they reach: the lock of a
-- transaction is a granted request, and the granted requests of a queue are compatible.
use simple_duck_dbms.Base.{
  ℕ, true, false, List, [], ◌==◌, Option, some, ◌≡◌, ◌≢◌, inl, inr, refl, sym, ◌∙◌, arith,
  Bool-cases, eq_or_ne, subst,
}
use simple_duck_dbms.Transaction.{
  Rid, rid_eq, TransactionState, Transaction, make, set_state, push_undo, contains,
}
use simple_duck_dbms.LockManager.{
  LockMode, LockRequest, Locks, set_tx, set_queue, enqueue, lock_shared, lock_exclusive, grant,
  time_out, unlock_all,
}
use simple_duck_dbms.LockManager.Sets.{locked, rid_eq→≡}
use simple_duck_dbms.LockManager.Queue.{holds, waits, holds-enqueue}

-- What a thread does to the locks under the latch. A call that waits is in the queue; nothing is
-- assumed of the order in which the waits of several threads end.
pub data Step {U : Type 0} : Locks U → Locks U → Type 0 where
  request_shared : (m : Locks U) (tx : Option ℕ) (rid : Rid) → Step m (lock_shared m tx rid).1
  request_exclusive : (m : Locks U) (tx : Option ℕ) (rid : Rid) → Step m (lock_exclusive m tx rid).1
  granted :
      (m m' : Locks U) (id : ℕ) (mode : LockMode) (rid : Rid)
      → waits (m.lock_table rid) id mode ≡ true
      → grant m id mode rid ≡ some m'
      → Step m m'
  timed_out :
      (m : Locks U) (id : ℕ) (mode : LockMode) (rid : Rid)
      → waits (m.lock_table rid) id mode ≡ true
      → Step m (time_out m id mode rid)
  unlocked : (m : Locks U) (tx : Option ℕ) → Step m (unlock_all m tx)
  state_set :
      (m : Locks U) (id : ℕ) (state : TransactionState)
      → Step m (set_tx m id (set_state (m.transactions id) state))
  logged : (m : Locks U) (id : ℕ) (r : U) → Step m (set_tx m id (push_undo (m.transactions id) r))

unfoldable pub start : {U : Type 0} → Locks U
start = record { transactions = make; lock_table = λ rid. [] }

pub data Reachable {U : Type 0} : Locks U → Type 0 where
  begin : Reachable start
  next : (m m' : Locks U) → Reachable m → Step m m' → Reachable m'

abbrev pub Compatible : List LockRequest → Type 0
Compatible q =
    (a b : ℕ) (mode mode' : LockMode)
    → a ≢ b
    → holds q a mode ≡ true
    → holds q b mode' ≡ true
    → (mode ≡ LockMode.shared) × (mode' ≡ LockMode.shared)

pub record Consistent {U : Type 0} (m : Locks U) : Type 0 where
  pub owned :
      (id : ℕ) (mode : LockMode) (rid : Rid)
      → locked (m.transactions id) mode rid ≡ true
      → holds (m.lock_table rid) id mode ≡ true
  pub compatible : (rid : Rid) → Compatible (m.lock_table rid)

start_unlocked :
    (U : Type 0) (id : ℕ) (mode : LockMode) (rid : Rid) → locked (make {U = U} id) mode rid ≡ false
unfolding make locked contains
start_unlocked U id LockMode.shared rid = refl
start_unlocked U id LockMode.exclusive rid = refl

pub start-Consistent : {U : Type 0} → Consistent {U = U} start
unfolding start holds
start-Consistent {U} = record {
  owned = λ id mode rid h. let none = start_unlocked U id mode rid in cc;
  compatible = λ rid a b mode mode' ne h h'. cc;
}

module _ {U : Type 0} (m : Locks U) (c : Consistent m) where
  pub set_queue-Consistent :
      (rid : Rid) (q : List LockRequest)
      → ((id : ℕ) (mode : LockMode)
          → locked (m.transactions id) mode rid ≡ true
          → holds q id mode ≡ true)
      → Compatible q
      → Consistent (set_queue m rid q)
  unfolding set_queue
  set_queue-Consistent rid q own comp = record {
    owned = λ id mode r h. elim (Bool-cases (rid_eq r rid)) [
      | inl e ↦
          rw e (
            own id mode
              (subst (λ x. locked (m.transactions id) mode x ≡ true) (rid_eq→≡ r rid e) h))
      | inr e ↦ rw e (c.owned id mode r h)
    ];
    compatible =
        λ r. elim (Bool-cases (rid_eq r rid)) [ inl e ↦ rw e comp | inr e ↦ rw e (c.compatible r) ];
  }

  pub set_tx-Consistent :
      (id : ℕ) (tx : Transaction U)
      → ((mode : LockMode) (rid : Rid)
          → locked tx mode rid ≡ true
          → holds (m.lock_table rid) id mode ≡ true)
      → Consistent (set_tx m id tx)
  unfolding set_tx
  set_tx-Consistent id tx own = record {
    owned = λ i mode r h. elim (eq_or_ne i id) [
      | inl e ↦ let t : (i == id) ≡ true = ground arith in rw e (own mode r (rw t at h))
      | inr ne ↦ let t : (i == id) ≡ false = ground arith in c.owned i mode r (rw t at h)
    ];
    compatible = c.compatible;
  }

  -- The locks of a transaction whose sets stay are granted as before.
  pub same_locks :
      (id : ℕ) (tx : Transaction U)
      → ((mode : LockMode) (rid : Rid)
          → locked tx mode rid ≡ true
          → locked (m.transactions id) mode rid ≡ true)
      → Consistent (set_tx m id tx)
  same_locks id tx h = set_tx-Consistent id tx (λ mode rid l. c.owned id mode rid (h mode rid l))

  pub enqueue-Consistent :
      (id : ℕ) (mode : LockMode) (rid : Rid) → Consistent (enqueue m id mode rid)
  unfolding enqueue
  enqueue-Consistent id mode rid =
      let same = holds-enqueue (m.lock_table rid) id mode in
      set_queue-Consistent rid _ (λ i mode' l. same i mode' ∙ c.owned i mode' rid l)
        (λ a b x y ne h h'. c.compatible rid a b x y ne (sym (same a x) ∙ h) (sym (same b y) ∙ h'))
