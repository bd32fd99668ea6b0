-- ===== src/LockManager/Upgrade.antt =====
-- An upgrade of a shared lock to an exclusive one.
use simple_duck_dbms.Base.{ℕ, true, false, List, [], ◌∷◌, ◌++◌, some, ◌≡◌, refl, ◌∙◌}
use simple_duck_dbms.Transaction.{Rid, contains, is_growing}
use simple_duck_dbms.LockManager.{
  LockMode, LockRequest, Locks, can_grant, set_tx, set_queue, erase_requests, enqueue,
  lock_exclusive, give_up_shared, Progress,
}
use simple_duck_dbms.LockManager.Sets.{locked, rid_eq_self}
use simple_duck_dbms.LockManager.Waits.{tx_self, none_left}
use simple_duck_dbms.LockManager.Queue.{holds, holds-enqueue, holds-erase_requests_self}

upgrade_eq :
    {U : Type 0} (m : Locks U) (id : ℕ) (rid : Rid)
    → is_growing (m.transactions id).state ≡ true
    → locked (m.transactions id) LockMode.shared rid ≡ true
    → locked (m.transactions id) LockMode.exclusive rid ≡ false
    → lock_exclusive m (some id) rid
      ≡ (Progress.waiting, enqueue (give_up_shared m id rid) id LockMode.exclusive rid)
unfolding lock_exclusive locked
upgrade_eq m id rid g s x = rw (g, x, s) refl

given_up :
    {U : Type 0} (m : Locks U) (id : ℕ) (rid : Rid) (mode : LockMode)
    → contains (m.transactions id).exclusive_locks rid ≡ false
    → locked ((give_up_shared m id rid).transactions id) mode rid ≡ false
unfolding give_up_shared set_queue
given_up m id rid mode x =
    rw (tx_self (set_queue m rid (erase_requests (m.lock_table rid) id)) id _)
      (none_left (m.transactions id) mode rid x)

-- The queue of the row after the request.
queue_after :
    {U : Type 0} (m : Locks U) (id : ℕ) (rid : Rid) (mode : LockMode)
    → holds ((enqueue (give_up_shared m id rid) id LockMode.exclusive rid).lock_table rid) id mode
      ≡ false
unfolding give_up_shared enqueue set_queue set_tx
queue_after m id rid mode = rw (rid_eq_self rid) (
    holds-enqueue (erase_requests (m.lock_table rid) id) id LockMode.exclusive id mode
    ∙ holds-erase_requests_self (m.lock_table rid) id mode)

-- A request that waits refuses nobody.
can_grant-enqueue :
    (q : List LockRequest) (id' : ℕ) (mode' : LockMode) (id : ℕ) (mode : LockMode)
    → can_grant (q ++ (record { tx_id = id'; lock_mode = mode'; granted = false } ∷ [])) id mode
      ≡ can_grant q id mode
unfolding can_grant
can_grant-enqueue [] id' mode' id mode = refl
can_grant-enqueue (req ∷ q) id' mode' id mode = rw (can_grant-enqueue q id' mode' id mode) refl

grants_after :
    {U : Type 0} (m : Locks U) (id : ℕ) (rid : Rid) (a : ℕ) (wanted : LockMode)
    → can_grant
        ((enqueue (give_up_shared m id rid) id LockMode.exclusive rid).lock_table rid)
        a
        wanted
      ≡ can_grant (erase_requests (m.lock_table rid) id) a wanted
unfolding give_up_shared enqueue set_queue set_tx
grants_after m id rid a wanted =
    rw (rid_eq_self rid)
      (can_grant-enqueue (erase_requests (m.lock_table rid) id) id LockMode.exclusive a wanted)

-- A growing transaction that asks for the exclusive lock on a row of which it has the shared one and
-- not the exclusive one has to wait, and directly behind its request it has no lock on the row, and the queue of the row holds
-- no request granted to it; a request of any transaction, in either mode, is granted there as if the
-- queue were without the requests of the one that upgrades.
pub upgrade_gives_up :
    {U : Type 0} (m : Locks U) (id : ℕ) (rid : Rid) (mode : LockMode) (a : ℕ) (wanted : LockMode)
    → is_growing (m.transactions id).state ≡ true
    → locked (m.transactions id) LockMode.shared rid ≡ true
    → locked (m.transactions id) LockMode.exclusive rid ≡ false
    → ((lock_exclusive m (some id) rid).0 ≡ Progress.waiting)
      × (locked ((lock_exclusive m (some id) rid).1.transactions id) mode rid ≡ false)
      × (holds ((lock_exclusive m (some id) rid).1.lock_table rid) id mode ≡ false)
      × (can_grant ((lock_exclusive m (some id) rid).1.lock_table rid) a wanted
          ≡ can_grant (erase_requests (m.lock_table rid) id) a wanted)
unfolding locked enqueue set_queue
upgrade_gives_up m id rid mode a wanted g s x =
    rw (upgrade_eq m id rid g s x)
      (refl, given_up m id rid mode x, queue_after m id rid mode, grants_after m id rid a wanted)
