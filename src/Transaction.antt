-- ===== src/Transaction.antt =====
-- common/rid.hpp, transaction/transaction.hpp, transaction/transaction.cpp: a transaction's state,
-- its locks and its undo log.
use simple_duck_dbms.Base.{
  ℕ, Bool, true, false, ◌&&◌, ◌||◌, List, [], ◌∷◌, ◌++◌, ◌==◌, if◌then◌else◌,
}

pub record Rid : Type 0 where
  pub page_id : ℕ
  pub slot_num : ℕ

-- The defaulted `operator==` of RID.
unfoldable pub rid_eq : Rid → Rid → Bool
rid_eq a b = a.page_id == b.page_id && a.slot_num == b.slot_num

pub data TransactionState : Type 0 where
  growing shrinking committed aborted : TransactionState

-- An undo record is of a type `U`, which stands for the classes that override `undo`.
pub record Transaction (U : Type 0) : Type 0 where
  pub id : ℕ
  pub state : TransactionState
  pub shared_locks : List Rid
  pub exclusive_locks : List Rid
  pub undo_log : List U

unfoldable pub make : {U : Type 0} → ℕ → Transaction U
make id = record {
  id = id;
  state = TransactionState.growing;
  shared_locks = [];
  exclusive_locks = [];
  undo_log = [];
}

unfoldable pub set_state : {U : Type 0} → Transaction U → TransactionState → Transaction U
set_state tx state = record tx { state = state }

unfoldable pub push_undo : {U : Type 0} → Transaction U → U → Transaction U
push_undo tx r = record tx { undo_log = tx.undo_log ++ (r ∷ []) }

unfoldable pub is_growing : TransactionState → Bool
is_growing TransactionState.growing = true
is_growing state = false

-- The sets of locks are lists: `contains`, `insert` and `erase` of unordered_set.
unfoldable pub contains : List Rid → Rid → Bool
contains [] rid = false
contains (r ∷ rs) rid = rid_eq r rid || contains rs rid

unfoldable pub insert : List Rid → Rid → List Rid
insert rs rid = if contains rs rid then rs else rid ∷ rs

unfoldable pub erase : List Rid → Rid → List Rid
erase [] rid = []
erase (r ∷ rs) rid = let rest = erase rs rid in if rid_eq r rid then rest else r ∷ rest

-- The records of the log from the last to the first: `apply` is the virtual `undo`, on a state `S`
-- of the database.
unfoldable pub undo_all : {U S : Type 0} → (U → S → S) → List U → S → S
undo_all apply [] s = s
undo_all apply (r ∷ rs) s = apply r (undo_all apply rs s)

unfoldable pub undo : {U S : Type 0} → (U → S → S) → Transaction U → S → S
undo apply tx s = undo_all apply tx.undo_log s
