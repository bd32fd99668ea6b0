-- ===== src/LockManager/Release.antt =====
-- `unlock_all` releases what the transaction holds and nothing else.
use simple_duck_dbms.Base.{
  ℕ, true, false, List, [], ◌∷◌, ◌==◌, some, ◌≡◌, ◌≢◌, ◌⊎◌, inl, inr, refl, sym, ap, ◌∙◌, arith,
  Bool-cases, subst,
}
use simple_duck_dbms.Transaction.{Rid, rid_eq, contains}
use simple_duck_dbms.LockManager.{
  LockMode, LockRequest, Locks, set_tx, set_queue, erase_requests, remove_and_notify, remove_all,
  unlock_all,
}
use simple_duck_dbms.LockManager.Sets.{locked, rid_eq→≡, rid_eq_self}
use simple_duck_dbms.LockManager.Queue.{holds, holds-erase_requests_ne, holds-erase_requests_self}
use simple_duck_dbms.LockManager.Waits.{clash}
use simple_duck_dbms.LockManager.Unlock.{no_locks, remove_all-transactions}

-- Another transaction's requests stay in every queue.
remove_all-holds_ne :
    {U : Type 0} (m : Locks U) (rids : List Rid) (id a : ℕ) (mode : LockMode) (r : Rid)
    → a ≢ id
    → holds ((remove_all m rids id).lock_table r) a mode ≡ holds (m.lock_table r) a mode
unfolding remove_all remove_and_notify set_queue
remove_all-holds_ne m [] id a mode r ne = refl
remove_all-holds_ne m (rid ∷ rids) id a mode r ne =
    remove_all-holds_ne (remove_and_notify m rid id) rids id a mode r ne
    ∙ elim (Bool-cases (rid_eq r rid)) [
      | inl e ↦ rw e (
          holds-erase_requests_ne (m.lock_table rid) id a mode ne
          ∙ ap (λ x. holds (m.lock_table x) a mode) (sym (rid_eq→≡ r rid e)))
      | inr e ↦ rw e refl
    ]

rid_eq-sym : (rid r : Rid) → rid_eq r rid ≡ false → rid_eq rid r ≡ false
rid_eq-sym rid r e = elim (Bool-cases (rid_eq rid r)) [
  | inr q ↦ q
  | inl q ↦
      let same : rid_eq r rid ≡ true =
        subst (λ x. rid_eq r x ≡ true) (sym (rid_eq→≡ rid r q)) (rid_eq_self r) in
      absurd (clash (sym e ∙ same))
]

erase_requests_idem :
    (q : List LockRequest) (id : ℕ) → erase_requests (erase_requests q id) id ≡ erase_requests q id
unfolding erase_requests
erase_requests_idem [] id = refl
erase_requests_idem (req ∷ q) id = elim (Bool-cases (req.tx_id == id)) [
  | inl e ↦ rw e (erase_requests_idem q id)
  | inr e ↦ rw (e, e) (ap (λ l. req ∷ l) (erase_requests_idem q id))
]

-- The queue of a row of the list is without the requests of the transaction.
remove_all-queue_in :
    {U : Type 0} (m : Locks U) (rids : List Rid) (id : ℕ) (r : Rid)
    → (contains rids r ≡ true) ⊎ (m.lock_table r ≡ erase_requests (m.lock_table r) id)
    → (remove_all m rids id).lock_table r ≡ erase_requests (m.lock_table r) id
unfolding remove_all remove_and_notify set_queue contains
remove_all-queue_in m [] id r (inl h) = cc
remove_all-queue_in m [] id r (inr h) = h
remove_all-queue_in m (rid ∷ rids) id r h = elim (Bool-cases (rid_eq r rid)) [
  | inl e ↦
      let same = rid_eq→≡ r rid e in
      let now : (remove_and_notify m rid id).lock_table r ≡ erase_requests (m.lock_table r) id =
        rw e (ap (λ x. erase_requests (m.lock_table x) id) (sym same)) in
      let idem = erase_requests_idem (m.lock_table r) id in
      remove_all-queue_in (remove_and_notify m rid id) rids id r
        (inr (now ∙ sym idem ∙ ap (λ q. erase_requests q id) (sym now)))
      ∙ ap (λ q. erase_requests q id) now
      ∙ idem
  | inr e ↦
      let now : (remove_and_notify m rid id).lock_table r ≡ m.lock_table r = rw e refl in
      remove_all-queue_in (remove_and_notify m rid id) rids id r (elim h [
        | inl k ↦ inl (rw (rid_eq-sym rid r e) at k)
        | inr k ↦ inr (now ∙ k ∙ ap (λ q. erase_requests q id) (sym now))
      ])
      ∙ ap (λ q. erase_requests q id) now
]

-- The queue of another row is as before.
remove_all-queue_out :
    {U : Type 0} (m : Locks U) (rids : List Rid) (id : ℕ) (r : Rid)
    → contains rids r ≡ false
    → (remove_all m rids id).lock_table r ≡ m.lock_table r
unfolding remove_all remove_and_notify set_queue contains
remove_all-queue_out m [] id r h = refl
remove_all-queue_out m (rid ∷ rids) id r h = elim (Bool-cases (rid_eq r rid)) [
  | inl e ↦
      let same : rid_eq rid r ≡ true =
        subst (λ x. rid_eq x r ≡ true) (rid_eq→≡ r rid e) (rid_eq_self r) in
      absurd (clash (sym (rw same at h)))
  | inr e ↦
      let now : (remove_and_notify m rid id).lock_table r ≡ m.lock_table r = rw e refl in
      remove_all-queue_out (remove_and_notify m rid id) rids id r (rw (rid_eq-sym rid r e) at h)
      ∙ now
]

-- The queue of a row after `unlock_all`: of one that the transaction had locked, in either mode, it
-- is without the requests of the transaction; of another it is as before.
pub data Released {U : Type 0} (m : Locks U) (id : ℕ) (mode : LockMode) (r : Rid)
    : List LockRequest → Type 0 where
  released :
      (held : LockMode) (q : List LockRequest)
      → locked (m.transactions id) held r ≡ true
      → q ≡ erase_requests (m.lock_table r) id
      → holds q id mode ≡ false
      → Released m id mode r q
  untouched :
      (q : List LockRequest)
      → locked (m.transactions id) LockMode.shared r ≡ false
      → locked (m.transactions id) LockMode.exclusive r ≡ false
      → q ≡ m.lock_table r
      → Released m id mode r q

without :
    {U : Type 0} (m : Locks U) (id : ℕ) (held mode : LockMode) (r : Rid) (q : List LockRequest)
    → locked (m.transactions id) held r ≡ true
    → q ≡ erase_requests (m.lock_table r) id
    → Released m id mode r q
without m id held mode r q h e =
    released held q h e
      (ap (λ x. holds x id mode) e ∙ holds-erase_requests_self (m.lock_table r) id mode)

both-Released :
    {U : Type 0} (m : Locks U) (id : ℕ) (mode : LockMode) (r : Rid)
    → Released m id mode r (
        (remove_all
            (remove_all m (m.transactions id).exclusive_locks id)
            (m.transactions id).shared_locks
            id).lock_table
          r)
unfolding locked
both-Released m id mode r =
    let tx = m.transactions id in
    let m₁ = remove_all m tx.exclusive_locks id in
    let q = (remove_all m₁ tx.shared_locks id).lock_table r in
    let idem = erase_requests_idem (m.lock_table r) id in
    elim (Bool-cases (contains tx.exclusive_locks r)) [
      | inl x ↦
          let now = remove_all-queue_in m tx.exclusive_locks id r (inl x) in
          without m id LockMode.exclusive mode r q x (
            remove_all-queue_in m₁ tx.shared_locks id r
              (inr (now ∙ sym idem ∙ ap (λ l. erase_requests l id) (sym now)))
            ∙ ap (λ l. erase_requests l id) now
            ∙ idem)
      | inr x ↦
          let now = remove_all-queue_out m tx.exclusive_locks id r x in
          elim (Bool-cases (contains tx.shared_locks r)) [
            | inl y ↦ without m id LockMode.shared mode r q y (
                remove_all-queue_in m₁ tx.shared_locks id r (inl y)
                ∙ ap (λ l. erase_requests l id) now)
            | inr y ↦ untouched q y x (remove_all-queue_out m₁ tx.shared_locks id r y ∙ now)
          ]
    ]

-- `unlock_all` of a transaction, for every row: where the transaction had locked it, in either mode,
-- its queue is without the requests of the transaction, of which none is granted any more; else its
-- queue is as before. The transaction has no lock; the granted requests of another transaction and
-- its locks are as before.
pub unlock_all_releases :
    {U : Type 0} (m : Locks U) (id a : ℕ) (mode : LockMode) (r : Rid)
    → a ≢ id
    → Released m id mode r ((unlock_all m (some id)).lock_table r)
      × (locked ((unlock_all m (some id)).transactions id) mode r ≡ false)
      × (holds ((unlock_all m (some id)).lock_table r) a mode ≡ holds (m.lock_table r) a mode)
      × (locked ((unlock_all m (some id)).transactions a) mode r ≡ locked (m.transactions a) mode r)
unfolding unlock_all set_tx
unlock_all_releases m id a mode r ne =
    let tx = m.transactions id in
    let m₁ = remove_all m tx.exclusive_locks id in
    let self : (id == id) ≡ true = ground arith in
    let other : (a == id) ≡ false = ground arith in
    (
      both-Released m id mode r,
      rw self (no_locks tx mode r),
      remove_all-holds_ne m₁ tx.shared_locks id a mode r ne
          ∙ remove_all-holds_ne m tx.exclusive_locks id a mode r ne,
      rw
          (
            other,
            remove_all-transactions m₁ tx.shared_locks id,
            remove_all-transactions m tx.exclusive_locks id,
          )
          refl,
    )
