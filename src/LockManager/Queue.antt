-- ===== src/LockManager/Queue.antt =====
-- What the operations on a queue do to the requests that it grants.
use simple_duck_dbms.Base.{
  ℕ, Bool, true, false, ◌&&◌, ◌||◌, not, List, [], ◌∷◌, ◌++◌, ◌==◌, if◌then◌else◌, ◌≡◌, ◌≢◌, ◌⊎◌,
  inl, inr, refl, sym, ap, ◌∙◌, arith, Bool-cases,
}
use simple_duck_dbms.LockManager.{
  LockMode, mode_eq, LockRequest, can_grant, erase_requests, is_waiting, mark_granted,
  erase_waiting,
}

-- A granted request of the transaction in the mode.
unfoldable pub is_granted : LockRequest → ℕ → LockMode → Bool
is_granted req id mode = req.tx_id == id && (mode_eq req.lock_mode mode && req.granted)

unfoldable pub holds : List LockRequest → ℕ → LockMode → Bool
holds [] id mode = false
holds (req ∷ queue) id mode = is_granted req id mode || holds queue id mode

unfoldable pub waits : List LockRequest → ℕ → LockMode → Bool
waits [] id mode = false
waits (req ∷ queue) id mode = is_waiting req id mode || waits queue id mode

pub mode_eq→≡ : (a b : LockMode) → mode_eq a b ≡ true → a ≡ b
unfolding mode_eq
mode_eq→≡ LockMode.shared LockMode.shared h = refl
mode_eq→≡ LockMode.exclusive LockMode.exclusive h = refl
mode_eq→≡ LockMode.shared LockMode.exclusive h = cc
mode_eq→≡ LockMode.exclusive LockMode.shared h = cc

mode_eq_self : (a : LockMode) → mode_eq a a ≡ true
unfolding mode_eq
mode_eq_self LockMode.shared = refl
mode_eq_self LockMode.exclusive = refl

pub holds-enqueue :
    (q : List LockRequest) (id' : ℕ) (mode' : LockMode) (id : ℕ) (mode : LockMode)
    → holds (q ++ (record { tx_id = id'; lock_mode = mode'; granted = false } ∷ [])) id mode
      ≡ holds q id mode
unfolding holds is_granted
holds-enqueue [] id' mode' id mode = ground arith
holds-enqueue (req ∷ q) id' mode' id mode =
    ap (λ b. is_granted req id mode || b) (holds-enqueue q id' mode' id mode)

pub holds-erase_requests_ne :
    (q : List LockRequest) (id' id : ℕ) (mode : LockMode)
    → id ≢ id'
    → holds (erase_requests q id') id mode ≡ holds q id mode
unfolding holds is_granted erase_requests
holds-erase_requests_ne [] id' id mode ne = refl
holds-erase_requests_ne (req ∷ q) id' id mode ne =
    let ih = holds-erase_requests_ne q id' id mode ne in
    elim (Bool-cases (req.tx_id == id')) [
      | inl e ↦ let other : (req.tx_id == id) ≡ false = ground arith in rw (e, other) ih
      | inr e ↦ rw e (ap (λ b. is_granted req id mode || b) ih)
    ]

pub holds-erase_requests_self :
    (q : List LockRequest) (id : ℕ) (mode : LockMode) → holds (erase_requests q id) id mode ≡ false
unfolding holds is_granted erase_requests
holds-erase_requests_self [] id mode = refl
holds-erase_requests_self (req ∷ q) id mode =
    let ih = holds-erase_requests_self q id mode in
    elim (Bool-cases (req.tx_id == id)) [ inl e ↦ rw e ih | inr e ↦ rw (e, e) ih ]

waiting_not_granted :
    (req : LockRequest) (id' : ℕ) (mode' : LockMode)
    → is_waiting req id' mode' ≡ true
    → req.granted ≡ false
unfolding is_waiting
waiting_not_granted req id' mode' h = ground arith

waiting_is_of :
    (req : LockRequest) (id' : ℕ) (mode' : LockMode)
    → is_waiting req id' mode' ≡ true
    → (req.tx_id ≡ id') × (req.lock_mode ≡ mode')
unfolding is_waiting
waiting_is_of req id' mode' h = (ground arith, mode_eq→≡ req.lock_mode mode' (ground arith))

not_granted :
    (req : LockRequest) (id : ℕ) (mode : LockMode)
    → req.granted ≡ false
    → is_granted req id mode ≡ false
unfolding is_granted
not_granted req id mode h = ground arith

pub holds-erase_waiting :
    (q : List LockRequest) (id' : ℕ) (mode' : LockMode) (id : ℕ) (mode : LockMode)
    → holds (erase_waiting q id' mode') id mode ≡ holds q id mode
unfolding holds erase_waiting
holds-erase_waiting [] id' mode' id mode = refl
holds-erase_waiting (req ∷ q) id' mode' id mode =
    let ih = holds-erase_waiting q id' mode' id mode in
    elim (Bool-cases (is_waiting req id' mode')) [
      | inl e ↦ rw (e, not_granted req id mode (waiting_not_granted req id' mode' e)) refl
      | inr e ↦ rw e (ap (λ b. is_granted req id mode || b) ih)
    ]

marked_is_of :
    (req : LockRequest) (id' : ℕ) (mode' : LockMode) (id : ℕ) (mode : LockMode)
    → is_waiting req id' mode' ≡ true
    → is_granted (record req { granted = true }) id mode ≡ true
    → (id ≡ id') × (mode ≡ mode')
unfolding is_granted
marked_is_of req id' mode' id mode e g =
    let (p, q) = waiting_is_of req id' mode' e in
    let r : req.tx_id ≡ id = ground arith in
    let s : req.lock_mode ≡ mode = mode_eq→≡ req.lock_mode mode (ground arith) in
    (sym r ∙ p, sym s ∙ q)

marked_is_granted :
    (req : LockRequest) (id : ℕ) (mode : LockMode)
    → is_waiting req id mode ≡ true
    → is_granted (record req { granted = true }) id mode ≡ true
unfolding is_granted is_waiting
marked_is_granted req id mode e = ground arith

-- The transaction whose request is granted is the only one that gains.
pub holds-mark_granted :
    (q : List LockRequest) (id' : ℕ) (mode' : LockMode) (id : ℕ) (mode : LockMode)
    → holds (mark_granted q id' mode') id mode ≡ true
    → (holds q id mode ≡ true) ⊎ (id ≡ id') × (mode ≡ mode')
unfolding holds mark_granted
holds-mark_granted [] id' mode' id mode h = inl h
holds-mark_granted (req ∷ q) id' mode' id mode h = elim (Bool-cases (is_waiting req id' mode')) [
  | inl e ↦
      let h' = rw e at h in
      elim (Bool-cases (is_granted (record req { granted = true }) id mode)) [
        | inl g ↦ inr (marked_is_of req id' mode' id mode e g)
        | inr g ↦ inl (behind (is_granted req id mode) _ (rw g at h'))
      ]
  | inr e ↦ elim (Bool-cases (is_granted req id mode)) [
    | inl g ↦ inl (rw g refl)
    | inr g ↦ elim (holds-mark_granted q id' mode' id mode (rw (e, g) at h)) [
      | inl k ↦ inl (rw g k)
      | inr k ↦ inr k
    ]
  ]
]
  where
    behind : (a b : Bool) → b ≡ true → (a || b) ≡ true
    behind true b h = refl
    behind false b h = h

pub mark_granted_keeps :
    (q : List LockRequest) (id' : ℕ) (mode' : LockMode) (id : ℕ) (mode : LockMode)
    → holds q id mode ≡ true
    → holds (mark_granted q id' mode') id mode ≡ true
unfolding holds mark_granted
mark_granted_keeps [] id' mode' id mode h = h
mark_granted_keeps (req ∷ q) id' mode' id mode h = elim (Bool-cases (is_waiting req id' mode')) [
  | inl e ↦
      let none = not_granted req id mode (waiting_not_granted req id' mode' e) in
      rw e (ground (arith, rw none at h))
  | inr e ↦ elim (Bool-cases (is_granted req id mode)) [
    | inl g ↦ rw (e, g) refl
    | inr g ↦ rw (e, g) (mark_granted_keeps q id' mode' id mode (rw g at h))
  ]
]

pub mark_granted_self :
    (q : List LockRequest) (id : ℕ) (mode : LockMode)
    → waits q id mode ≡ true
    → holds (mark_granted q id mode) id mode ≡ true
unfolding holds waits mark_granted
mark_granted_self [] id mode h = h
mark_granted_self (req ∷ q) id mode h = elim (Bool-cases (is_waiting req id mode)) [
  | inl e ↦ rw (e, marked_is_granted req id mode e) refl
  | inr e ↦ let ih = mark_granted_self q id mode (rw e at h) in rw (e, ih) (ground arith)
]

not_exclusive : (a : LockMode) → mode_eq a LockMode.exclusive ≡ false → a ≡ LockMode.shared
unfolding mode_eq
not_exclusive LockMode.shared h = refl
not_exclusive LockMode.exclusive h = cc

granted_tests :
    (a b : LockMode) (rest : Bool)
    → (if mode_eq a LockMode.exclusive
        then false
        else if mode_eq b LockMode.exclusive
        then false
        else rest)
      ≡ true
    → (a ≡ LockMode.shared) × (b ≡ LockMode.shared)
granted_tests a b rest h = (not_exclusive a (ground arith), not_exclusive b (ground arith))

can_grant_rest :
    (req : LockRequest) (q : List LockRequest) (id : ℕ) (mode : LockMode)
    → can_grant (req ∷ q) id mode ≡ true
    → can_grant q id mode ≡ true
unfolding can_grant
can_grant_rest req q id mode h = ground arith

-- `can_grant` holds when each granted request of another transaction is compatible: both shared.
pub can_grant_lem :
    (q : List LockRequest) (id : ℕ) (mode : LockMode) (id' : ℕ) (mode' : LockMode)
    → can_grant q id mode ≡ true
    → id' ≢ id
    → holds q id' mode' ≡ true
    → (mode ≡ LockMode.shared) × (mode' ≡ LockMode.shared)
unfolding can_grant holds is_granted
can_grant_lem [] id mode id' mode' c ne h = cc
can_grant_lem (req ∷ q) id mode id' mode' c ne h = elim (Bool-cases (is_granted req id' mode')) [
  | inl g ↦
      let same : req.lock_mode ≡ mode' = mode_eq→≡ req.lock_mode mode' (ground arith) in
      let skip : (not req.granted || req.tx_id == id) ≡ false = ground arith in
      let (a, b) = granted_tests mode req.lock_mode _ (rw skip at c) in (a, sym same ∙ b)
  | inr g ↦ can_grant_lem q id mode id' mode' (can_grant_rest req q id mode c) ne (rw g at h)
]
