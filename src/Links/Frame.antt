-- ===== src/Links/Frame.antt =====
-- Lists that share no node do not touch each other.
use mzx.Base.{
  ℕ, ◌≡◌, true, false, List, ◌∷◌, ◌++◌, ◌==◌, arith, some, Bool-cases, inl, inr, ==_iff, ◌∙◌,
}
use mzx.Run.{Returns, returns}
use mzx.Links.{Links, write, insert, erase, push_front, push_back}
use mzx.Links.Chain.{contains, Chain-cong, Chain-split, contains-append, next_in, prev_in}
use mzx.Links.Laws.{IsList}

abbrev pub AreApart : List ℕ → List ℕ → Type 0
AreApart a b = (x : ℕ) → contains x a ≡ true → contains x b ≡ false

-- links that agree on the head and the nodes of a list leave it as it is
IsList-cong :
    (s t : Links) (head : ℕ) (l : List ℕ)
    → ((x : ℕ) → contains x (head ∷ l) ≡ true → t.next x ≡ s.next x)
    → ((x : ℕ) → contains x (head ∷ l) ≡ true → t.prev x ≡ s.prev x)
    → IsList s head l
    → IsList t head l
IsList-cong s t head l next prev v = record {
  nodes = v.nodes;
  chain = Chain-cong s t head l head next prev v.chain;
}

-- a write at a name that a list does not hold
write-apart :
    (f : ℕ → ℕ) (i v x : ℕ) (l : List ℕ)
    → contains i l ≡ false
    → contains x l ≡ true
    → write f i v x ≡ f x
unfolding write
write-apart f i v x l out has = elim (Bool-cases (x == i)) [
  | inl e ↦ let same : x ≡ i = (==_iff x i).0 e in absurd (bad (rw same at has))
  | inr e ↦ rw e
]
  where
    bad : contains i l ≡ true → ⊥
    bad h = cc

-- a write of the value that stands elsewhere
write-value : (f : ℕ → ℕ) (i n : ℕ) → write f i (f n) n ≡ f n
unfolding write
write-value f i n = ground arith

outside : (p q : ℕ) (l : List ℕ) → p ≡ q → contains q l ≡ false → contains p l ≡ false
outside p q l e h = rw e h

-- Erase of a node of one list leaves every list that shares no node with it as it is.
pub erase-IsList_other :
    (s : Links) (head n : ℕ) (l r : List ℕ) (other : ℕ) (k : List ℕ)
    → IsList s head (l ++ n ∷ r)
    → IsList s other k
    → AreApart (head ∷ l ++ n ∷ r) (other ∷ k)
    → IsList (erase n s).1 other k
unfolding erase contains
erase-IsList_other s head n l r other k v w apart =
    let (a, b) = Chain-split s head l n r head v.chain in
    let before : contains (s.prev n) (other ∷ k) ≡ false =
      apart (s.prev n)
        (ground (arith, prev_in s head l n a, contains-append (s.prev n) l (n ∷ r))) in
    let after : contains (s.next n) (other ∷ k) ≡ false =
      apart (s.next n)
        (ground (arith, next_in s n r head b, contains-append (s.next n) l (n ∷ r))) in
    let self : contains n (other ∷ k) ≡ false =
      apart n (ground (arith, contains-append n l (n ∷ r))) in
    let p : ℕ = write s.prev (s.next n) (s.prev n) n in
    let same : p ≡ s.prev n = write-value s.prev (s.next n) n in
    IsList-cong s (erase n s).1 other k
      (λ x has.
        write-apart (write s.next p (s.next n)) n n x (other ∷ k) self has
        ∙ write-apart s.next p (s.next n) x (other ∷ k)
            (outside p (s.prev n) (other ∷ k) same before) has)
      (λ x has.
        write-apart (write s.prev (s.next n) (s.prev n)) n n x (other ∷ k) self has
        ∙ write-apart s.prev (s.next n) (s.prev n) x (other ∷ k) after has)
      w

-- Insert between two nodes that a list does not hold, of a third that it does not hold
insert-IsList_other :
    (s : Links) (n p q : ℕ) (other : ℕ) (k : List ℕ)
    → contains n (other ∷ k) ≡ false
    → contains p (other ∷ k) ≡ false
    → contains q (other ∷ k) ≡ false
    → IsList s other k
    → IsList (insert n p q s) other k
unfolding insert
insert-IsList_other s n p q other k self before after w =
    IsList-cong s (insert n p q s) other k
      (λ x has.
        write-apart (write s.next n q) p n x (other ∷ k) before has
        ∙ write-apart s.next n q x (other ∷ k) self has)
      (λ x has.
        write-apart (write s.prev n p) q n x (other ∷ k) after has
        ∙ write-apart s.prev n p x (other ∷ k) self has)
      w

-- PushBack and PushFront on one list of a node that another one does not hold leave the other list
-- as it is, where the two share no node.
pub push-IsList_other :
    (s : Links) (head n : ℕ) (l : List ℕ) (other : ℕ) (k : List ℕ)
    → IsList s head l
    → IsList s other k
    → AreApart (n ∷ head ∷ l) (other ∷ k)
    → Returns (λ t. IsList t other k) (push_back head (some n) s)
      × Returns (λ t. IsList t other k) (push_front head (some n) s)
unfolding push_back push_front contains
push-IsList_other s head n l other k v w apart =
    let self : contains n (other ∷ k) ≡ false = apart n (ground arith) in
    let ring : contains head (other ∷ k) ≡ false = apart head (ground arith) in
    let last : contains (s.prev head) (other ∷ k) ≡ false =
      apart (s.prev head) (ground (arith, prev_in s head l head v.chain)) in
    let first : contains (s.next head) (other ∷ k) ≡ false =
      apart (s.next head) (ground (arith, next_in s head l head v.chain)) in
    (
      returns (insert-IsList_other s n (s.prev head) head other k self last ring w),
      returns (insert-IsList_other s n head (s.next head) other k self ring first w),
    )
