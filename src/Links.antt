-- ===== src/Links.antt =====
-- include/mzx/data_structure/list.h and src/data_structure/list.cpp: ListNode and List, on a store of
-- links. A node is named by a number, and a List by the number of its `head_`.
pub mod Chain
pub mod Laws
pub mod Frame
mod Tests
use mzx.Base.{ℕ, zero, suc, Option, none, some, ◌==◌, if◌then◌else◌}
use mzx.Run.{Run, ok, abort, out_of_fuel}

-- prev_ and next_ of every node
pub record Links : Type 0 where
  pub prev : ℕ → ℕ
  pub next : ℕ → ℕ

unfoldable pub write : (ℕ → ℕ) → ℕ → ℕ → ℕ → ℕ
write f i v j = if j == i then v else f j

-- ListNode::ListNode
unfoldable pub new_node : ℕ → Links → Links
new_node n s = record { prev = write s.prev n n; next = write s.next n n }

-- ListNode::Insert, between nodes that are not nullptr
unfoldable pub insert : ℕ → ℕ → ℕ → Links → Links
unfolding write
insert n prev next s = record {
  prev = write (write s.prev n prev) next n;
  next = write (write s.next n next) prev n;
}

-- ListNode::Erase, with the node that it returns
unfoldable pub erase : ℕ → Links → ℕ × Links
unfolding write
erase n s =
    let prev = write s.prev (s.next n) (s.prev n) in
    let next = write s.next (prev n) (s.next n) in
    (s.next n, record { prev = write prev n n; next = write next n n })

-- the functions of the List at `head`, with `none` for nullptr
unfoldable pub push_front : ℕ → Option ℕ → Links → Run Links
push_front head node s = elim node [ none ↦ abort | some n ↦ ok (insert n head (s.next head) s) ]

unfoldable pub push_back : ℕ → Option ℕ → Links → Run Links
push_back head node s = elim node [ none ↦ abort | some n ↦ ok (insert n (s.prev head) head s) ]

unfoldable pub pop_front : ℕ → Links → Option ℕ × Links
pop_front head s =
    if s.next head == head then (none, s) else (some (s.next head), (erase (s.next head) s).1)

unfoldable pub pop_back : ℕ → Links → Option ℕ × Links
pop_back head s =
    if s.prev head == head then (none, s) else (some (s.prev head), (erase (s.prev head) s).1)

-- Clear, on fuel
unfoldable pub clear : ℕ → ℕ → Links → Run Links
clear zero head s = out_of_fuel
clear (suc fuel) head s =
    let rest = clear fuel head (erase (s.next head) s).1 in
    if s.next head == head then ok s else rest
