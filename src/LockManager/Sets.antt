-- ===== src/LockManager/Sets.antt =====
-- The sets of locks of a transaction.
use simple_duck_dbms.Base.{
  Bool, true, false, ◌||◌, List, [], ◌∷◌, if◌then◌else◌, ◌≡◌, ◌⊎◌, inl, inr, refl, sym, arith,
  Bool-cases, subst,
}
use simple_duck_dbms.Transaction.{Rid, rid_eq, Transaction, contains, insert, erase}
use simple_duck_dbms.LockManager.{LockMode, add_lock}

-- The transaction holds `rid` in the mode.
unfoldable pub locked : {U : Type 0} → Transaction U → LockMode → Rid → Bool
locked tx LockMode.shared rid = contains tx.shared_locks rid
locked tx LockMode.exclusive rid = contains tx.exclusive_locks rid

pub rid_eq_self : (a : Rid) → rid_eq a a ≡ true
unfolding rid_eq
rid_eq_self a = ground arith

pub rid_eq→≡ : (a b : Rid) → rid_eq a b ≡ true → a ≡ b
unfolding rid_eq
rid_eq→≡ a b h =
    let p : a.page_id ≡ b.page_id = ground arith in
    let q : a.slot_num ≡ b.slot_num = ground arith in λ i. record { page_id = p i; slot_num = q i }

contains-insert :
    (rs : List Rid) (rid r : Rid)
    → contains (insert rs rid) r ≡ true
    → (contains rs r ≡ true) ⊎ (r ≡ rid)
unfolding insert contains
contains-insert rs rid r h = elim (Bool-cases (contains rs rid)) [
  | inl e ↦ inl (subst (λ b. contains (if b then rs else rid ∷ rs) r ≡ true) e h)
  | inr e ↦ elim (Bool-cases (rid_eq rid r)) [
    | inl q ↦ inr (sym (rid_eq→≡ rid r q))
    | inr q ↦ inl (
        subst (λ b. b || contains rs r ≡ true) q
          (subst (λ b. contains (if b then rs else rid ∷ rs) r ≡ true) e h))
  ]
]

pub contains-erase :
    (rs : List Rid) (rid r : Rid) → contains (erase rs rid) r ≡ true → contains rs r ≡ true
unfolding erase contains
contains-erase [] rid r h = h
contains-erase (x ∷ rs) rid r h = elim (Bool-cases (rid_eq x r)) [
  | inl e ↦ rw e refl
  | inr e ↦ elim (Bool-cases (rid_eq x rid)) [
    | inl q ↦ rw e (contains-erase rs rid r (rw q at h))
    | inr q ↦ rw e (contains-erase rs rid r (rw (q, e) at h))
  ]
]

pub contains-erase_self : (rs : List Rid) (rid : Rid) → contains (erase rs rid) rid ≡ false
unfolding erase contains
contains-erase_self [] rid = refl
contains-erase_self (x ∷ rs) rid = elim (Bool-cases (rid_eq x rid)) [
  | inl q ↦ rw q (contains-erase_self rs rid)
  | inr q ↦ rw (q, q) (contains-erase_self rs rid)
]

pub locked-add_lock :
    {U : Type 0} (tx : Transaction U) (mode mode' : LockMode) (rid r : Rid)
    → locked (add_lock tx mode rid) mode' r ≡ true
    → (locked tx mode' r ≡ true) ⊎ (mode' ≡ mode) × (r ≡ rid)
unfolding locked add_lock
locked-add_lock tx LockMode.shared LockMode.shared rid r h =
    elim (contains-insert tx.shared_locks rid r h) [ inl q ↦ inl q | inr e ↦ inr (refl, e) ]
locked-add_lock tx LockMode.shared LockMode.exclusive rid r h = inl h
locked-add_lock tx LockMode.exclusive LockMode.shared rid r h = inl h
locked-add_lock tx LockMode.exclusive LockMode.exclusive rid r h =
    elim (contains-insert tx.exclusive_locks rid r h) [ inl q ↦ inl q | inr e ↦ inr (refl, e) ]
