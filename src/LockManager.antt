-- ===== src/LockManager.antt =====
-- transaction/lock_manager.hpp and transaction/lock_manager.cpp: the locks of the transactions. The
-- calls run under the latch; `cv.wait_for` gives the latch up, so a call that waits is several
-- steps: the request, and the end of the wait, by a grant or by the time that ran out.
pub mod Sets
pub mod Queue
pub mod Invariant
pub mod Waits
pub mod Unlock
pub mod Exclusion
pub mod Release
pub mod Upgrade
mod Tests
use simple_duck_dbms.Base.{
  ℕ, Bool, true, false, ◌&&◌, ◌||◌, not, List, [], ◌∷◌, ◌++◌, ◌==◌, if◌then◌else◌, Option, some,
  none,
}
use simple_duck_dbms.Transaction.{
  Rid, rid_eq, TransactionState, Transaction, set_state, is_growing, contains, insert, erase,
}

pub data LockMode : Type 0 where
  shared exclusive : LockMode

unfoldable pub mode_eq : LockMode → LockMode → Bool
mode_eq LockMode.shared LockMode.shared = true
mode_eq LockMode.exclusive LockMode.exclusive = true
mode_eq a b = false

pub record LockRequest : Type 0 where
  pub tx_id : ℕ
  pub lock_mode : LockMode
  pub granted : Bool

-- The transactions by their ids, and the queue of each RID: `lock_table_[rid]` makes an empty queue
-- where there is none.
pub record Locks (U : Type 0) : Type 0 where
  pub transactions : ℕ → Transaction U
  pub lock_table : Rid → List LockRequest

unfoldable pub set_tx : {U : Type 0} → Locks U → ℕ → Transaction U → Locks U
set_tx m id tx = record m { transactions = λ i. if i == id then tx else m.transactions i }

unfoldable pub set_queue : {U : Type 0} → Locks U → Rid → List LockRequest → Locks U
set_queue m rid queue = record m {
  lock_table = λ r. if rid_eq r rid then queue else m.lock_table r;
}

-- `can_grant` for a request of `tx_id` in `lock_mode`.
unfoldable pub can_grant : List LockRequest → ℕ → LockMode → Bool
can_grant [] tx_id lock_mode = true
can_grant (it ∷ queue) tx_id lock_mode =
    let rest = can_grant queue tx_id lock_mode in
    if not it.granted || it.tx_id == tx_id
    then rest
    else if mode_eq lock_mode LockMode.exclusive
    then false
    else if mode_eq it.lock_mode LockMode.exclusive
    then false
    else rest

-- The `std::erase_if` of the requests of a transaction.
unfoldable pub erase_requests : List LockRequest → ℕ → List LockRequest
erase_requests [] tx_id = []
erase_requests (req ∷ queue) tx_id =
    let rest = erase_requests queue tx_id in if req.tx_id == tx_id then rest else req ∷ rest

-- The request that the iterator `it` of a waiting call points to.
unfoldable pub is_waiting : LockRequest → ℕ → LockMode → Bool
is_waiting req tx_id lock_mode =
    req.tx_id == tx_id && (mode_eq req.lock_mode lock_mode && not req.granted)

-- `it->granted = true`
unfoldable pub mark_granted : List LockRequest → ℕ → LockMode → List LockRequest
mark_granted [] tx_id lock_mode = []
mark_granted (req ∷ queue) tx_id lock_mode =
    let rest = mark_granted queue tx_id lock_mode in
    if is_waiting req tx_id lock_mode then record req { granted = true } ∷ queue else req ∷ rest

-- `queue.requests.erase(it)`
unfoldable pub erase_waiting : List LockRequest → ℕ → LockMode → List LockRequest
erase_waiting [] tx_id lock_mode = []
erase_waiting (req ∷ queue) tx_id lock_mode =
    let rest = erase_waiting queue tx_id lock_mode in
    if is_waiting req tx_id lock_mode then queue else req ∷ rest

-- A call returned, or it waits.
pub data Progress : Type 0 where
  returned : Bool → Progress
  waiting : Progress

unfoldable pub enqueue : {U : Type 0} → Locks U → ℕ → LockMode → Rid → Locks U
enqueue m id lock_mode rid =
    let request : LockRequest = record { tx_id = id; lock_mode = lock_mode; granted = false } in
    set_queue m rid (m.lock_table rid ++ (request ∷ []))

-- `lock_shared` up to the wait, for a transaction given by its id, `none` for nullptr.
unfoldable pub lock_shared : {U : Type 0} → Locks U → Option ℕ → Rid → Progress × Locks U
lock_shared m none rid = (returned false, m)
lock_shared m (some id) rid =
    let tx = m.transactions id in
    if not (is_growing tx.state)
    then (returned false, m)
    else if contains tx.shared_locks rid || contains tx.exclusive_locks rid
    then (returned true, m)
    else (waiting, enqueue m id LockMode.shared rid)

-- The requests and the shared lock that an upgrade gives up.
unfoldable pub give_up_shared : {U : Type 0} → Locks U → ℕ → Rid → Locks U
give_up_shared m id rid =
    let tx = m.transactions id in
    set_tx (set_queue m rid (erase_requests (m.lock_table rid) id)) id
      (record tx { shared_locks = erase tx.shared_locks rid })

-- `lock_exclusive` up to the wait.
unfoldable pub lock_exclusive : {U : Type 0} → Locks U → Option ℕ → Rid → Progress × Locks U
lock_exclusive m none rid = (returned false, m)
lock_exclusive m (some id) rid =
    let tx = m.transactions id in
    if not (is_growing tx.state)
    then (returned false, m)
    else if contains tx.exclusive_locks rid
    then (returned true, m)
    else let m₁ = if contains tx.shared_locks rid then give_up_shared m id rid else m in
      (waiting, enqueue m₁ id LockMode.exclusive rid)

unfoldable pub add_lock : {U : Type 0} → Transaction U → LockMode → Rid → Transaction U
add_lock tx LockMode.shared rid = record tx { shared_locks = insert tx.shared_locks rid }
add_lock tx LockMode.exclusive rid = record tx { exclusive_locks = insert tx.exclusive_locks rid }

-- The test of the wait, and what follows when it holds: the call returns true.
unfoldable pub grant : {U : Type 0} → Locks U → ℕ → LockMode → Rid → Option (Locks U)
grant m id lock_mode rid =
    if can_grant (m.lock_table rid) id lock_mode
    then some (
        set_tx (set_queue m rid (mark_granted (m.lock_table rid) id lock_mode)) id
          (add_lock (m.transactions id) lock_mode rid))
    else none

-- The wait ran out: the call returns false.
unfoldable pub time_out : {U : Type 0} → Locks U → ℕ → LockMode → Rid → Locks U
time_out m id lock_mode rid =
    set_tx (set_queue m rid (erase_waiting (m.lock_table rid) id lock_mode)) id
      (set_state (m.transactions id) TransactionState.aborted)

unfoldable pub remove_and_notify : {U : Type 0} → Locks U → Rid → ℕ → Locks U
remove_and_notify m rid tx_id = set_queue m rid (erase_requests (m.lock_table rid) tx_id)

unfoldable pub remove_all : {U : Type 0} → Locks U → List Rid → ℕ → Locks U
remove_all m [] tx_id = m
remove_all m (rid ∷ rids) tx_id = remove_all (remove_and_notify m rid tx_id) rids tx_id

unfoldable pub unlock_all : {U : Type 0} → Locks U → Option ℕ → Locks U
unlock_all m none = m
unlock_all m (some id) =
    let tx = m.transactions id in
    let m₁ = remove_all (remove_all m tx.exclusive_locks id) tx.shared_locks id in
    set_tx m₁ id (record tx { exclusive_locks = []; shared_locks = [] })
