-- ===== src/Links/Laws.antt =====
-- List as a sequence of nodes.
use mathlib.Core.List.{append-nil}
use mzx.Base.{
  ℕ, zero, suc, ◌<◌, ◌≡◌, refl, true, false, List, [], ◌∷◌, ◌++◌, ◌==◌, arith, Option, none, some,
}
use mzx.Array.{length}
use mzx.Run.{Returns, returns}
use mzx.Links.{
  Links, write, insert, erase, push_front, push_back, pop_front, pop_back, clear, new_node,
}
use mzx.Links.Chain.{
  contains, distinct, Chain, contains-append, Chain-cong, prev_in, Chain-split, Chain-join,
  insert-Chain, erase-Chain,
}

-- the links of the nodes of `l`, in this order, and of the `head` form a ring
pub record IsList (s : Links) (head : ℕ) (l : List ℕ) : Type 0 where
  pub nodes : distinct (head ∷ l) ≡ true
  pub chain : Chain s head l head

distinct-append_last :
    (n : ℕ) (l : List ℕ) → distinct l ≡ true → contains n l ≡ false → distinct (l ++ n ∷ []) ≡ true
unfolding distinct contains
distinct-append_last n [] d f = refl
distinct-append_last n (x ∷ l) d f =
    ground (arith, distinct-append_last n l, contains-append x l (n ∷ []))

distinct-remove :
    (l : List ℕ) (n : ℕ) (r : List ℕ) → distinct (l ++ n ∷ r) ≡ true → distinct (l ++ r) ≡ true
unfolding distinct contains
distinct-remove [] n r d = ground arith
distinct-remove (x ∷ l) n r d =
    ground (arith, distinct-remove l n r, contains-append x l (n ∷ r), contains-append x l r)

-- the head of a new List is an empty one
pub new_node-IsList : (n : ℕ) (s : Links) → IsList (new_node n s) n []
unfolding new_node write distinct contains
new_node-IsList n s = record { nodes = refl; chain = (ground arith, ground arith) }

-- PushBack of a node that is not in the list returns, and puts it at the end.
pub push_back-IsList :
    (s : Links) (head n : ℕ) (l : List ℕ)
    → IsList s head l
    → contains n (head ∷ l) ≡ false
    → Returns (λ t. IsList t head (l ++ n ∷ [])) (push_back head (some n) s)
unfolding push_back insert distinct contains
push_back-IsList s head n l v new = returns record {
  nodes = ground (arith, v.nodes, distinct-append_last n l, contains-append head l (n ∷ []));
  chain =
      Chain-join (insert n (s.prev head) head s) head l n [] head
        (insert-Chain s n head l head v.nodes (ground (arith, v.nodes)) new (ground arith) v.chain)
        (ground (arith, prev_in s head l head v.chain), ground arith);
}

-- PushFront of a node that is not in the list returns, and puts it in front.
pub push_front-IsList :
    (s : Links) (head n : ℕ) (l : List ℕ)
    → IsList s head l
    → contains n (head ∷ l) ≡ false
    → Returns (λ t. IsList t head (n ∷ l)) (push_front head (some n) s)
unfolding push_front insert distinct contains
push_front-IsList s head n [] v new = returns record {
  nodes = ground (arith, v.nodes);
  chain = (
    ground (arith, v.chain),
    ground (arith, v.chain),
    (ground (arith, v.chain), ground (arith, v.chain)),
  );
}
push_front-IsList s head n (m ∷ l) v new =
    let (p, q, c) = v.chain in
    let d = v.nodes in
    returns record {
      nodes = ground arith;
      chain = (
        ground arith,
        ground arith,
        (
          ground arith,
          ground arith,
          Chain-cong s (insert n head (s.next head) s) m l head (λ k h. ground arith)
              (λ k h. ground arith) c,
        ),
      );
    }

-- what follows a node: the first of the nodes after it, or the head
abbrev pub first_or : List ℕ → ℕ → ℕ
first_or [] head = head
first_or (m ∷ r) head = m

next-first_or : (s : Links) (x : ℕ) (l : List ℕ) (y : ℕ) → Chain s x l y → s.next x ≡ first_or l y
next-first_or s x [] y (p, q) = p
next-first_or s x (m ∷ l) y (p, q, c) = p

-- Erase of a node of the list takes it out, and returns the one after it, or the head.
pub erase-IsList :
    (s : Links) (head n : ℕ) (l r : List ℕ)
    → IsList s head (l ++ n ∷ r)
    → ((erase n s).0 ≡ first_or r head) × IsList (erase n s).1 head (l ++ r)
unfolding erase distinct
erase-IsList s head n l r v =
    let (a, b) = Chain-split s head l n r head v.chain in
    (
      next-first_or s n r head b,
      record {
        nodes = distinct-remove (head ∷ l) n r v.nodes;
        chain = erase-Chain s n head l r head v.nodes (ground (arith, v.nodes)) v.chain;
      },
    )

-- PopFront of an empty list returns nullptr and changes nothing.
pop_front-empty : (s : Links) (head : ℕ) → IsList s head [] → pop_front head s ≡ (none, s)
unfolding pop_front
pop_front-empty s head v = let (p, q) = v.chain in ground arith

-- what a list of nodes begins with
abbrev pub first : List ℕ → Option ℕ
first [] = none
first (n ∷ r) = some n

abbrev pub rest : List ℕ → List ℕ
rest [] = []
rest (n ∷ r) = r

-- PopFront returns the first node, or nullptr for an empty list, and leaves the others.
pub pop_front-IsList :
    (s : Links) (head : ℕ) (l : List ℕ)
    → IsList s head l
    → ((pop_front head s).0 ≡ first l) × IsList (pop_front head s).1 head (rest l)
unfolding pop_front distinct contains
pop_front-IsList s head [] v = rw (pop_front-empty s head v) (refl, v)
pop_front-IsList s head (n ∷ r) v =
    let (p, q, c) = v.chain in
    let differ : (n == head) ≡ false = ground (arith, v.nodes) in
    rw (pop_front, p, differ) (refl, (erase-IsList s head n [] r v).1)

-- PopBack of a list that is not empty returns the last node, and leaves the others.
pub pop_back-IsList :
    (s : Links) (head n : ℕ) (l : List ℕ)
    → IsList s head (l ++ n ∷ [])
    → ((pop_back head s).0 ≡ some n) × IsList (pop_back head s).1 head l
unfolding pop_back distinct contains
pop_back-IsList s head n l v =
    let (a, (p, q)) = Chain-split s head l n [] head v.chain in
    let differ : (n == head) ≡ false = ground (arith, v.nodes, contains-append head l (n ∷ [])) in
    let left = (erase-IsList s head n l [] v).1 in
    rw (pop_back, q, differ) (refl, rw append-nil at left)

-- Clear returns and leaves an empty list.
pub clear-IsList :
    (fuel : ℕ) (s : Links) (head : ℕ) (l : List ℕ)
    → length l < fuel
    → IsList s head l
    → Returns (λ t. IsList t head []) (clear fuel head s)
unfolding clear distinct contains
clear-IsList zero s head l f v = absurd (omega arith)
clear-IsList (suc fuel) s head [] f v =
    let (p, q) = v.chain in
    let same : (s.next head == head) ≡ true = ground arith in rw (clear, same) (returns v)
clear-IsList (suc fuel) s head (n ∷ r) f v =
    let (p, q, c) = v.chain in
    let differ : (n == head) ≡ false = ground (arith, v.nodes) in
    rw (clear, p, differ)
      (clear-IsList fuel (erase n s).1 head r (omega arith) (erase-IsList s head n [] r v).1)
