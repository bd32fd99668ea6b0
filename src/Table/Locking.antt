-- ===== src/Table/Locking.antt =====
-- The locks that the operations of a table take.
use simple_duck_dbms.Base.{
  ℕ, ◌≡◌, inl, inr, refl, sym, ap, ◌∙◌, arith, Bool, true, false, List, none, some, if◌then◌else◌,
  Bool-cases, Option-cases, some-injective,
}
use simple_duck_dbms.Transaction.{Rid, rid_eq, Transaction, is_growing, contains, insert, set_state}
use simple_duck_dbms.LockManager.{
  Locks, LockMode, waiting, set_tx, set_queue, lock_exclusive, give_up_shared, enqueue, grant,
  time_out, add_lock, mark_granted, can_grant,
}
use simple_duck_dbms.Table.{UndoRecord, await, acquire_exclusive}

-- What `lock_exclusive` of a transaction answers: true, and it has the lock; or false. Its undo log
-- is as before.
pub data Acquired (m : Locks UndoRecord) (id : ℕ) (rid : Rid)
    : Bool × Locks UndoRecord → Type 0 where
  held :
      (m' : Locks UndoRecord)
      → contains (m'.transactions id).exclusive_locks rid ≡ true
      → (m'.transactions id).undo_log ≡ (m.transactions id).undo_log
      → Acquired m id rid (true, m')
  not_held :
      (m' : Locks UndoRecord)
      → (m'.transactions id).undo_log ≡ (m.transactions id).undo_log
      → Acquired m id rid (false, m')

rid_eq_refl : (rid : Rid) → rid_eq rid rid ≡ true
unfolding rid_eq
rid_eq_refl rid = ground arith

contains-insert : (rids : List Rid) (rid : Rid) → contains (insert rids rid) rid ≡ true
unfolding insert contains
contains-insert rids rid = elim (Bool-cases (contains rids rid)) [
  | inl h ↦ rw (h, insert) h
  | inr h ↦ rw (h, insert, rid_eq_refl rid) refl
]

pub set_tx_self :
    (m : Locks UndoRecord) (id : ℕ) (tx : Transaction UndoRecord)
    → (set_tx m id tx).transactions id ≡ tx
unfolding set_tx
set_tx_self m id tx = ground arith

module _ (m : Locks UndoRecord) (id : ℕ) (rid : Rid) where
  granted_lock :
      (m₁ m₂ : Locks UndoRecord)
      → (m₁.transactions id).undo_log ≡ (m.transactions id).undo_log
      → grant m₁ id LockMode.exclusive rid ≡ some m₂
      → (contains (m₂.transactions id).exclusive_locks rid ≡ true)
        × ((m₂.transactions id).undo_log ≡ (m.transactions id).undo_log)
  unfolding grant add_lock
  granted_lock m₁ m₂ log e =
      elim (Bool-cases (can_grant (m₁.lock_table rid) id LockMode.exclusive)) [
        | inr refuses ↦ absurd (
            let z : grant m₁ id LockMode.exclusive rid ≡ none = rw (refuses, grant) refl in
            let w = sym e ∙ z in cc)
        | inl grants ↦
            let tx = add_lock (m₁.transactions id) LockMode.exclusive rid in
            let q = set_queue m₁ rid (mark_granted (m₁.lock_table rid) id LockMode.exclusive) in
            let made : grant m₁ id LockMode.exclusive rid ≡ some (set_tx q id tx) =
              rw (grants, grant) refl in
            let same : m₂ ≡ set_tx q id tx = some-injective m₂ (set_tx q id tx) (sym e ∙ made) in
            let now : m₂.transactions id ≡ tx =
              ap (λ x. x.transactions id) same ∙ set_tx_self q id tx in
            (
              ap (λ x. contains x.exclusive_locks rid) now
                  ∙ contains-insert (m₁.transactions id).exclusive_locks rid,
              ap (λ x. x.undo_log) now ∙ log,
            )
      ]

  waited :
      (m₁ : Locks UndoRecord)
      → (m₁.transactions id).undo_log ≡ (m.transactions id).undo_log
      → Acquired m id rid (await LockMode.exclusive (waiting, m₁) id rid)
  unfolding await time_out set_state
  waited m₁ log = elim (Option-cases (grant m₁ id LockMode.exclusive rid)) [
    | inl refuses ↦
        rw (refuses, await)
          (not_held (time_out m₁ id LockMode.exclusive rid)
            (ap (λ x. x.undo_log) (set_tx_self _ id _) ∙ log))
    | inr (m₂, grants) ↦
        let (here, log') = granted_lock m₁ m₂ log grants in rw (grants, await) (held m₂ here log')
  ]

  upgraded :
      (shared : Bool)
      → Acquired m id rid (
          await LockMode.exclusive
            (
              waiting,
              enqueue (if shared then give_up_shared m id rid else m) id LockMode.exclusive rid,
            )
            id
            rid)
  unfolding enqueue set_queue give_up_shared
  upgraded true =
      waited (enqueue (give_up_shared m id rid) id LockMode.exclusive rid)
        (ap (λ x. x.undo_log) (set_tx_self _ id _))
  upgraded false = waited (enqueue m id LockMode.exclusive rid) refl

  pub acquire_exclusive-Acquired : Acquired m id rid (acquire_exclusive m id rid)
  unfolding acquire_exclusive lock_exclusive await give_up_shared enqueue set_queue
  acquire_exclusive-Acquired = elim (Bool-cases (is_growing (m.transactions id).state)) [
    | inr refuses ↦ rw (refuses, acquire_exclusive, lock_exclusive, await) (not_held m refl)
    | inl grants ↦ elim (Bool-cases (contains (m.transactions id).exclusive_locks rid)) [
      | inl has ↦ rw (grants, has, acquire_exclusive, lock_exclusive, await) (held m has refl)
      | inr lacks ↦
          rw (grants, lacks, acquire_exclusive, lock_exclusive)
            (upgraded (contains (m.transactions id).shared_locks rid))
    ]
  ]
