-- ===== src/SafeList.antt =====
-- include/mzx/data_structure/list_safe_node.h: nodes with a count of references, on one intrusive
-- list. The events and the entities keep their nodes this way.
--
-- A node is named by a number that is never given twice, and the list is the list of its nodes'
-- names, which list.h keeps. A node that is not on the list is freed, and to touch it is a fault.
pub mod Laws
pub mod Detach
pub mod View
pub mod Detaches
pub mod Walk
pub mod Split
use mzx.Base.{
  ℕ, zero, suc, ◌+◌, ◌-◌, Bool, true, false, Option, none, some, List, [], ◌∷◌, ◌++◌, ◌==◌, ltb,
  if◌then◌else◌,
}
use mzx.Run.{Run, ok, abort, fault, ◌>>=◌, ◌>>◌, check}

module _ {ℓ} (D : Type ℓ) where
  pub record SafeList : Type ℓ where
    pub nodes : List ℕ
    pub raw_data : ℕ → Option D
    pub ref_count : ℕ → ℕ
    pub next_name : ℕ

abbrev pub has : ℕ → List ℕ → Bool
has n [] = false
has n (x ∷ l) = let rest = has n l in if n == x then true else rest

-- ListNode::Erase
abbrev pub remove : ℕ → List ℕ → List ℕ
remove n [] = []
remove n (x ∷ l) = let rest = remove n l in if n == x then rest else x ∷ rest

-- the node after `n`, and `none` for the end of the list
abbrev pub next_in : ℕ → List ℕ → Option ℕ
next_in n [] = none
next_in n (x ∷ []) = none
next_in n (x ∷ y ∷ l) = let rest = next_in n (y ∷ l) in if n == x then some y else rest

abbrev pub first : List ℕ → Option ℕ
first [] = none
first (x ∷ l) = some x

module _ {ℓ} {D : Type ℓ} where
  abbrev pub empty : SafeList D
  empty = record { nodes = []; raw_data = λ n. none; ref_count = λ n. 0; next_name = 0 }

  unfoldable pub set_ref : ℕ → ℕ → SafeList D → SafeList D
  set_ref n c s = record s { ref_count = λ k. if k == n then c else s.ref_count k }

  unfoldable pub set_data : ℕ → Option D → SafeList D → SafeList D
  set_data n d s = record s { raw_data = λ k. if k == n then d else s.raw_data k }

  -- a new node at the end of the list
  unfoldable pub push_node : D → SafeList D → SafeList D
  unfolding set_ref set_data
  push_node d s =
      let t = set_ref s.next_name 1 (set_data s.next_name (some d) s) in
      record t { nodes = s.nodes ++ s.next_name ∷ []; next_name = s.next_name + 1 }

  -- the access through a pointer to a node
  abbrev pub alive : ℕ → SafeList D → Run (Unit {0})
  alive n s = if has n s.nodes then ok tt else fault

  unfoldable pub incr_ref : ℕ → SafeList D → Run (SafeList D)
  unfolding set_ref
  incr_ref n s = alive n s >> ok (set_ref n (s.ref_count n + 1) s)

  -- `delete this`: the destructor's check, and the one of the list's node
  unfoldable pub delete_node : ℕ → SafeList D → Run (SafeList D)
  delete_node n s = elim (s.raw_data n) [
    | none ↦ ok (record s { nodes = remove n s.nodes })
    | some d ↦ abort
  ]

  unfoldable pub decr_ref : ℕ → SafeList D → Run (SafeList D)
  unfolding set_ref delete_node
  decr_ref n s =
      let t = set_ref n (s.ref_count n - 1) s in
      let freed = delete_node n t in
      alive n s
      >> (check (ltb 0 (s.ref_count n)) >> (if s.ref_count n - 1 == 0 then freed else ok t))

  unfoldable pub detach : ℕ → SafeList D → Run (SafeList D × Option D)
  unfolding set_data decr_ref
  detach n s = alive n s >> elim (s.raw_data n) [
    | none ↦ ok (s, none)
    | some d ↦ decr_ref n (set_data n none s) >>= λ t. ok (t, some d)
  ]

  -- `node->Next()`
  unfoldable pub next_node : ℕ → SafeList D → Run (Option ℕ)
  next_node n s = alive n s >> ok (next_in n s.nodes)

  -- the end of a round of a loop that holds its node: `node = node->Next(); safe_node->DecrRef()`
  unfoldable pub leave : ℕ → SafeList D → Run (SafeList D × Option ℕ)
  unfolding decr_ref next_node
  leave n s = next_node n s >>= λ m. decr_ref n s >>= λ t. ok (t, m)
