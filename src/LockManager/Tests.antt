-- ===== src/LockManager/Tests.antt =====
-- Two transactions and one row.
use simple_duck_dbms.Base.{ℕ, ◌≡◌, refl, arith, true, false, List, [], ◌∷◌, Option, some, none}
use simple_duck_dbms.Transaction.{Rid, Transaction, contains, is_growing}
use simple_duck_dbms.LockManager.{
  LockMode, LockRequest, Locks, Progress, set_tx, set_queue, erase_requests, can_grant, lock_shared,
  lock_exclusive, grant, unlock_all,
}
use simple_duck_dbms.LockManager.Sets.{locked}
use simple_duck_dbms.LockManager.Queue.{holds, waits}
use simple_duck_dbms.LockManager.Invariant.{start, Step, Reachable}
use simple_duck_dbms.LockManager.Exclusion.{locks_exclude}
use simple_duck_dbms.LockManager.Release.{Released, unlock_all_releases}
use simple_duck_dbms.LockManager.Upgrade.{upgrade_gives_up}

abbrev a_row : Rid
a_row = record { page_id = 1; slot_num = 2 }

-- The state behind a granted request, or the state before.
abbrev after : Option (Locks ℕ) → Locks ℕ → Locks ℕ
after none m = m
after (some m') m = m'

abbrev asked : Locks ℕ
asked = (lock_shared start (some 0) a_row).1

abbrev one_shared : Locks ℕ
one_shared = after (grant asked 0 LockMode.shared a_row) asked

abbrev asked_again : Locks ℕ
asked_again = (lock_shared one_shared (some 1) a_row).1

abbrev both_shared : Locks ℕ
both_shared = after (grant asked_again 1 LockMode.shared a_row) asked_again

one_shared-Reachable : Reachable one_shared
unfolding waits lock_shared is_growing start simple_duck_dbms.Transaction.make contains
    simple_duck_dbms.LockManager.enqueue set_queue simple_duck_dbms.Transaction.rid_eq
    simple_duck_dbms.LockManager.is_waiting simple_duck_dbms.LockManager.mode_eq grant can_grant
one_shared-Reachable =
    Reachable.next asked one_shared
      (Reachable.next start asked Reachable.begin (Step.request_shared start (some 0) a_row))
      (Step.granted asked one_shared 0 LockMode.shared a_row refl refl)

both_shared-Reachable : Reachable both_shared
unfolding waits lock_shared is_growing grant can_grant start simple_duck_dbms.Transaction.make
    contains simple_duck_dbms.LockManager.enqueue set_queue simple_duck_dbms.Transaction.rid_eq
    set_tx simple_duck_dbms.LockManager.mark_granted simple_duck_dbms.LockManager.is_waiting
    simple_duck_dbms.LockManager.mode_eq
both_shared-Reachable =
    Reachable.next asked_again both_shared
      (Reachable.next one_shared asked_again one_shared-Reachable
        (Step.request_shared one_shared (some 1) a_row))
      (Step.granted asked_again both_shared 1 LockMode.shared a_row refl refl)

held_by_0 : locked (both_shared.transactions 0) LockMode.shared a_row ≡ true
unfolding locked contains grant can_grant lock_shared is_growing start
    simple_duck_dbms.Transaction.make simple_duck_dbms.LockManager.enqueue set_queue
    simple_duck_dbms.Transaction.rid_eq set_tx simple_duck_dbms.LockManager.mark_granted
    simple_duck_dbms.LockManager.is_waiting simple_duck_dbms.LockManager.mode_eq
    simple_duck_dbms.LockManager.add_lock simple_duck_dbms.Transaction.insert
held_by_0 = refl

held_by_1 : locked (both_shared.transactions 1) LockMode.shared a_row ≡ true
unfolding locked contains grant can_grant lock_shared is_growing start
    simple_duck_dbms.Transaction.make simple_duck_dbms.LockManager.enqueue set_queue
    simple_duck_dbms.Transaction.rid_eq set_tx simple_duck_dbms.LockManager.mark_granted
    simple_duck_dbms.LockManager.is_waiting simple_duck_dbms.LockManager.mode_eq
    simple_duck_dbms.LockManager.add_lock simple_duck_dbms.Transaction.insert
held_by_1 = refl

not_exclusive_0 : locked (both_shared.transactions 0) LockMode.exclusive a_row ≡ false
unfolding locked contains grant can_grant lock_shared is_growing start
    simple_duck_dbms.Transaction.make simple_duck_dbms.LockManager.enqueue set_queue
    simple_duck_dbms.Transaction.rid_eq set_tx simple_duck_dbms.LockManager.mark_granted
    simple_duck_dbms.LockManager.is_waiting simple_duck_dbms.LockManager.mode_eq
    simple_duck_dbms.LockManager.add_lock simple_duck_dbms.Transaction.insert
not_exclusive_0 = refl

growing_0 : is_growing (both_shared.transactions 0).state ≡ true
unfolding locked contains grant can_grant lock_shared is_growing start
    simple_duck_dbms.Transaction.make simple_duck_dbms.LockManager.enqueue set_queue
    simple_duck_dbms.Transaction.rid_eq set_tx simple_duck_dbms.LockManager.mark_granted
    simple_duck_dbms.LockManager.is_waiting simple_duck_dbms.LockManager.mode_eq
    simple_duck_dbms.LockManager.add_lock simple_duck_dbms.Transaction.insert
growing_0 = refl

locks_exclude_example : (LockMode.shared ≡ LockMode.shared) × (LockMode.shared ≡ LockMode.shared)
locks_exclude_example =
    locks_exclude both_shared 0 1 LockMode.shared LockMode.shared a_row both_shared-Reachable
      (λ e. omega arith) held_by_0 held_by_1

unlock_all_releases_example :
    Released both_shared 0 LockMode.shared a_row
      ((unlock_all both_shared (some 0)).lock_table a_row)
    × (locked ((unlock_all both_shared (some 0)).transactions 0) LockMode.shared a_row ≡ false)
    × (holds ((unlock_all both_shared (some 0)).lock_table a_row) 1 LockMode.shared
        ≡ holds (both_shared.lock_table a_row) 1 LockMode.shared)
    × (locked ((unlock_all both_shared (some 0)).transactions 1) LockMode.shared a_row
        ≡ locked (both_shared.transactions 1) LockMode.shared a_row)
unlock_all_releases_example =
    unlock_all_releases both_shared 0 1 LockMode.shared a_row (λ e. omega arith)

upgrade_gives_up_example :
    ((lock_exclusive both_shared (some 0) a_row).0 ≡ Progress.waiting)
    × (locked ((lock_exclusive both_shared (some 0) a_row).1.transactions 0) LockMode.shared a_row
        ≡ false)
    × (holds ((lock_exclusive both_shared (some 0) a_row).1.lock_table a_row) 0 LockMode.shared
        ≡ false)
    × (can_grant
          ((lock_exclusive both_shared (some 0) a_row).1.lock_table a_row)
          1
          LockMode.exclusive
        ≡ can_grant (erase_requests (both_shared.lock_table a_row) 0) 1 LockMode.exclusive)
upgrade_gives_up_example =
    upgrade_gives_up both_shared 0 a_row LockMode.shared 1 LockMode.exclusive growing_0 held_by_0
      not_exclusive_0

abbrev shared_queue : List LockRequest
shared_queue = record { tx_id = 4; lock_mode = LockMode.shared; granted = true } ∷ []
