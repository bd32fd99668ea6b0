-- ===== src/LockManager/Exclusion.antt =====
-- No two transactions hold a lock on a row, unless both locks are shared.
use simple_duck_dbms.Base.{
  ℕ, Bool, true, false, not, ◌||◌, if◌then◌else◌, Option, some, none, ◌≡◌, ◌≢◌, inl, inr,
  Bool-cases,
}
use simple_duck_dbms.Transaction.{Rid, is_growing, contains}
use simple_duck_dbms.LockManager.{LockMode, Locks, lock_shared, lock_exclusive, give_up_shared}
use simple_duck_dbms.LockManager.Sets.{locked}
use simple_duck_dbms.LockManager.Invariant.{
  Step, Reachable, Consistent, start-Consistent, same_locks, enqueue-Consistent,
}
use simple_duck_dbms.LockManager.Waits.{
  give_up-Consistent, time_out-Consistent, grant-Consistent, locked-set_state, locked-push_undo,
}
use simple_duck_dbms.LockManager.Unlock.{unlock_all-Consistent}

lock_shared-Consistent :
    {U : Type 0} (m : Locks U) (tx : Option ℕ) (rid : Rid)
    → Consistent m
    → Consistent (lock_shared m tx rid).1
unfolding lock_shared
lock_shared-Consistent m none rid c = c
lock_shared-Consistent m (some id) rid c =
    let tx = m.transactions id in
    elim (Bool-cases (not (is_growing tx.state))) [
      | inl e ↦ rw e c
      | inr e ↦
          elim (Bool-cases (contains tx.shared_locks rid || contains tx.exclusive_locks rid)) [
            | inl k ↦ rw (e, k) c
            | inr k ↦ rw (e, k) (enqueue-Consistent m c id LockMode.shared rid)
          ]
    ]

upgraded-Consistent :
    {U : Type 0} (m : Locks U) (id : ℕ) (rid : Rid) (upgrade : Bool)
    → Consistent m
    → contains (m.transactions id).exclusive_locks rid ≡ false
    → Consistent (if upgrade then give_up_shared m id rid else m)
upgraded-Consistent m id rid true c k = give_up-Consistent m id rid c k
upgraded-Consistent m id rid false c k = c

lock_exclusive-Consistent :
    {U : Type 0} (m : Locks U) (tx : Option ℕ) (rid : Rid)
    → Consistent m
    → Consistent (lock_exclusive m tx rid).1
unfolding lock_exclusive
lock_exclusive-Consistent m none rid c = c
lock_exclusive-Consistent m (some id) rid c =
    let tx = m.transactions id in
    elim (Bool-cases (not (is_growing tx.state))) [
      | inl e ↦ rw e c
      | inr e ↦ elim (Bool-cases (contains tx.exclusive_locks rid)) [
        | inl k ↦ rw (e, k) c
        | inr k ↦
            let m₁ = if contains tx.shared_locks rid then give_up_shared m id rid else m in
            let c₁ : Consistent m₁ =
              upgraded-Consistent m id rid (contains tx.shared_locks rid) c k in
            rw (e, k) (enqueue-Consistent m₁ c₁ id LockMode.exclusive rid)
      ]
    ]

Step-Consistent : {U : Type 0} (m m' : Locks U) → Step m m' → Consistent m → Consistent m'
Step-Consistent _ _ (Step.request_shared m tx rid) c = lock_shared-Consistent m tx rid c
Step-Consistent _ _ (Step.request_exclusive m tx rid) c = lock_exclusive-Consistent m tx rid c
Step-Consistent _ _ (Step.granted m m' id mode rid w e) c = grant-Consistent m m' id mode rid c w e
Step-Consistent _ _ (Step.timed_out m id mode rid w) c = time_out-Consistent m id mode rid c
Step-Consistent _ _ (Step.unlocked m tx) c = unlock_all-Consistent m tx c
Step-Consistent _ _ (Step.state_set m id state) c =
    same_locks m c id _ (λ mode r l. locked-set_state (m.transactions id) state mode r l)
Step-Consistent _ _ (Step.logged m id r) c =
    same_locks m c id _ (λ mode rid l. locked-push_undo (m.transactions id) r mode rid l)

Reachable-Consistent : {U : Type 0} (m : Locks U) → Reachable m → Consistent m
Reachable-Consistent _ Reachable.begin = start-Consistent
Reachable-Consistent _ (Reachable.next m m' r step) =
    Step-Consistent m m' step (Reachable-Consistent m r)

-- In each state that steps of the transactions reach from the start, whatever their order, a row
-- that two different transactions have locked is locked shared by both.
pub locks_exclude :
    {U : Type 0} (m : Locks U) (a b : ℕ) (mode mode' : LockMode) (rid : Rid)
    → Reachable m
    → a ≢ b
    → locked (m.transactions a) mode rid ≡ true
    → locked (m.transactions b) mode' rid ≡ true
    → (mode ≡ LockMode.shared) × (mode' ≡ LockMode.shared)
locks_exclude m a b mode mode' rid r ne la lb =
    let c = Reachable-Consistent m r in
    c.compatible rid a b mode mode' ne (c.owned a mode rid la) (c.owned b mode' rid lb)
