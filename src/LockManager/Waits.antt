-- ===== src/LockManager/Waits.antt =====
-- What a call that waits, a grant and an upgrade leave of the invariant.
use simple_duck_dbms.Base.{
  ℕ, true, false, List, ◌==◌, if◌then◌else◌, some, ◌≡◌, ◌≢◌, inl, inr, refl, sym, ◌∙◌, arith,
  Bool-cases, eq_or_ne, subst,
}
use simple_duck_dbms.Transaction.{
  Rid, TransactionState, Transaction, set_state, push_undo, contains, erase,
}
use simple_duck_dbms.LockManager.{
  LockMode, LockRequest, Locks, set_tx, set_queue, can_grant, erase_requests, mark_granted,
  erase_waiting, give_up_shared, add_lock, grant, time_out, remove_and_notify,
}
use simple_duck_dbms.LockManager.Sets.{
  locked, rid_eq_self, contains-erase, contains-erase_self, locked-add_lock,
}
use simple_duck_dbms.LockManager.Queue.{
  holds, waits, holds-erase_requests_ne, holds-erase_requests_self, holds-erase_waiting,
  holds-mark_granted, mark_granted_keeps, mark_granted_self, can_grant_lem,
}
use simple_duck_dbms.LockManager.Invariant.{
  Compatible, Consistent, set_queue-Consistent, set_tx-Consistent, same_locks,
}

pub clash : false ≢ true
clash e = cc

erased_held :
    (q : List LockRequest) (id a : ℕ) (mode : LockMode)
    → holds (erase_requests q id) a mode ≡ true
    → holds q a mode ≡ true
erased_held q id a mode h = elim (eq_or_ne a id) [
  | inl e ↦ absurd (
      clash (
        sym (holds-erase_requests_self q id mode)
        ∙ subst (λ x. holds (erase_requests q id) x mode ≡ true) e h))
  | inr ne ↦ sym (holds-erase_requests_ne q id a mode ne) ∙ h
]

pub erased-Consistent :
    {U : Type 0} (m : Locks U) (id : ℕ) (rid : Rid)
    → Consistent m
    → ((mode : LockMode) → locked (m.transactions id) mode rid ≡ false)
    → Consistent (remove_and_notify m rid id)
unfolding remove_and_notify
erased-Consistent m id rid c free =
    let q = m.lock_table rid in
    set_queue-Consistent m c rid (erase_requests q id)
      (λ i mode l. elim (eq_or_ne i id) [
        | inl e ↦
            absurd
              (clash (sym (free mode) ∙ subst (λ x. locked (m.transactions x) mode rid ≡ true) e l))
        | inr ne ↦ holds-erase_requests_ne q id i mode ne ∙ c.owned i mode rid l
      ])
      (λ a b x y ne h h'.
        c.compatible rid a b x y ne (erased_held q id a x h) (erased_held q id b y h'))

fewer :
    {U : Type 0} (tx : Transaction U) (mode : LockMode) (r rid : Rid)
    → locked (record tx { shared_locks = erase tx.shared_locks rid }) mode r ≡ true
    → locked tx mode r ≡ true
unfolding locked
fewer tx LockMode.shared r rid l = contains-erase tx.shared_locks rid r l
fewer tx LockMode.exclusive r rid l = l

pub none_left :
    {U : Type 0} (tx : Transaction U) (mode : LockMode) (rid : Rid)
    → contains tx.exclusive_locks rid ≡ false
    → locked (record tx { shared_locks = erase tx.shared_locks rid }) mode rid ≡ false
unfolding locked
none_left tx LockMode.shared rid free = contains-erase_self tx.shared_locks rid
none_left tx LockMode.exclusive rid free = free

pub tx_self :
    {U : Type 0} (m : Locks U) (id : ℕ) (tx : Transaction U) → (set_tx m id tx).transactions id ≡ tx
unfolding set_tx
tx_self m id tx = let t : (id == id) ≡ true = ground arith in rw t refl

pub give_up-Consistent :
    {U : Type 0} (m : Locks U) (id : ℕ) (rid : Rid)
    → Consistent m
    → contains (m.transactions id).exclusive_locks rid ≡ false
    → Consistent (give_up_shared m id rid)
unfolding give_up_shared set_tx set_queue locked remove_and_notify
give_up-Consistent m id rid c free =
    let old = m.transactions id in
    let tx = record old { shared_locks = erase old.shared_locks rid } in
    let kept = same_locks m c id tx (λ mode r l. fewer old mode r rid l) in
    erased-Consistent (set_tx m id tx) id rid kept
      (λ mode. rw (tx_self m id tx) (none_left old mode rid free))

pub locked-set_state :
    {U : Type 0} (tx : Transaction U) (state : TransactionState) (mode : LockMode) (r : Rid)
    → locked (set_state tx state) mode r ≡ true
    → locked tx mode r ≡ true
unfolding locked set_state
locked-set_state tx state LockMode.shared r l = l
locked-set_state tx state LockMode.exclusive r l = l

pub locked-push_undo :
    {U : Type 0} (tx : Transaction U) (record_of : U) (mode : LockMode) (r : Rid)
    → locked (push_undo tx record_of) mode r ≡ true
    → locked tx mode r ≡ true
unfolding locked push_undo
locked-push_undo tx record_of LockMode.shared r l = l
locked-push_undo tx record_of LockMode.exclusive r l = l

some-injective : {A : Type 0} {a b : A} → some a ≡ some b → a ≡ b
some-injective e = cc

pub time_out-Consistent :
    {U : Type 0} (m : Locks U) (id : ℕ) (mode : LockMode) (rid : Rid)
    → Consistent m
    → Consistent (time_out m id mode rid)
unfolding time_out set_queue
time_out-Consistent m id mode rid c =
    let q = m.lock_table rid in
    let same = holds-erase_waiting q id mode in
    let c₁ =
      set_queue-Consistent m c rid (erase_waiting q id mode) (λ i x l. same i x ∙ c.owned i x rid l)
        (λ a b x y ne h h'.
          c.compatible rid a b x y ne (sym (same a x) ∙ h) (sym (same b y) ∙ h')) in
    same_locks (set_queue m rid (erase_waiting q id mode)) c₁ id _
      (λ x r l. locked-set_state (m.transactions id) TransactionState.aborted x r l)

-- Only the request of the transaction is new, and it is compatible with the others.
marked-Compatible :
    (q : List LockRequest) (id : ℕ) (mode : LockMode)
    → can_grant q id mode ≡ true
    → Compatible q
    → Compatible (mark_granted q id mode)
marked-Compatible q id mode can comp a b x y ne h h' = elim (holds-mark_granted q id mode a x h) [
  | inl ka ↦ elim (holds-mark_granted q id mode b y h') [
    | inl kb ↦ comp a b x y ne ka kb
    | inr (eb, ey) ↦
        let (p, r) = can_grant_lem q id mode a x can (λ e. ne (e ∙ sym eb)) ka in (r, ey ∙ p)
  ]
  | inr (ea, ex) ↦ elim (holds-mark_granted q id mode b y h') [
    | inl kb ↦ let (p, r) = can_grant_lem q id mode b y can (λ e. ne (ea ∙ sym e)) kb in (ex ∙ p, r)
    | inr (eb, ey) ↦ absurd (ne (ea ∙ sym eb))
  ]
]

pub grant-Consistent :
    {U : Type 0} (m m' : Locks U) (id : ℕ) (mode : LockMode) (rid : Rid)
    → Consistent m
    → waits (m.lock_table rid) id mode ≡ true
    → grant m id mode rid ≡ some m'
    → Consistent m'
unfolding grant set_queue
grant-Consistent m m' id mode rid c w e = elim (Bool-cases (can_grant (m.lock_table rid) id mode)) [
  | inr wait ↦ let n = rw wait at e in cc
  | inl can ↦
      let q = mark_granted (m.lock_table rid) id mode in
      let m₁ = set_queue m rid q in
      let c₁ =
        set_queue-Consistent m c rid q
          (λ i x l. mark_granted_keeps (m.lock_table rid) id mode i x (c.owned i x rid l))
          (marked-Compatible (m.lock_table rid) id mode can (c.compatible rid)) in
      let c₂ = set_tx-Consistent m₁ c₁ id (add_lock (m.transactions id) mode rid) (λ x r l.
        elim (locked-add_lock (m.transactions id) mode x rid r l) [
          | inl old ↦ c₁.owned id x r old
          | inr (ex, er) ↦
              rw (er, ex)
                (subst (λ b. holds (if b then q else m.lock_table rid) id mode ≡ true)
                  (sym (rid_eq_self rid)) (mark_granted_self (m.lock_table rid) id mode w))
        ]) in
      let back : some (set_tx m₁ id (add_lock (m.transactions id) mode rid)) ≡ some m' =
        rw can at e in
      subst Consistent (some-injective back) c₂
]
