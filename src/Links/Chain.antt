-- ===== src/Links/Chain.antt =====
-- Chains of links, and how a write changes them.
use mzx.Base.{
  ℕ, ◌≡◌, ◌≢◌, refl, Bool, true, false, ◌||◌, ◌&&◌, List, [], ◌∷◌, ◌++◌, ◌==◌, if◌then◌else◌, arith,
  ◌∙◌,
}
use mzx.Links.{Links, insert, erase}

unfoldable pub contains : ℕ → List ℕ → Bool
contains n [] = false
contains n (x ∷ l) = (n == x) || contains n l

-- no name stands twice
unfoldable pub distinct : List ℕ → Bool
distinct [] = true
distinct (x ∷ l) = (if contains x l then false else true) && distinct l

-- from `x` over the nodes of the list to `y`, in both directions
abbrev pub Chain : Links → ℕ → List ℕ → ℕ → Type 0
Chain s x [] y = (s.next x ≡ y) × (s.prev y ≡ x)
Chain s x (n ∷ l) y = (s.next x ≡ n) × (s.prev n ≡ x) × Chain s n l y

pub contains-append : (k : ℕ) (a b : List ℕ) → contains k (a ++ b) ≡ (contains k a || contains k b)
unfolding contains
contains-append k [] b = refl
contains-append k (x ∷ a) b = ground (arith, contains-append k a b)

-- a chain on links that agree where it runs
pub Chain-cong :
    (s t : Links) (x : ℕ) (l : List ℕ) (y : ℕ)
    → ((k : ℕ) → contains k (x ∷ l) ≡ true → t.next k ≡ s.next k)
    → ((k : ℕ) → contains k (y ∷ l) ≡ true → t.prev k ≡ s.prev k)
    → Chain s x l y
    → Chain t x l y
unfolding contains
Chain-cong s t x [] y next prev (p, q) = (next x (ground arith) ∙ p, prev y (ground arith) ∙ q)
Chain-cong s t x (n ∷ l) y next prev (p, q, c) = (
  next x (ground arith) ∙ p,
  prev n (ground arith) ∙ q,
  Chain-cong s t n l y (λ k h. next k (ground arith)) (λ k h. prev k (ground arith)) c,
)

-- the ends of a chain
pub next_in :
    (s : Links) (x : ℕ) (l : List ℕ) (y : ℕ) → Chain s x l y → contains (s.next x) (y ∷ l) ≡ true
unfolding contains
next_in s x [] y (p, q) = ground arith
next_in s x (n ∷ l) y (p, q, c) = ground arith

pub prev_in :
    (s : Links) (x : ℕ) (l : List ℕ) (y : ℕ) → Chain s x l y → contains (s.prev y) (x ∷ l) ≡ true
unfolding contains
prev_in s x [] y (p, q) = ground arith
prev_in s x (n ∷ l) y (p, q, c) = ground (arith, prev_in s n l y c)

pub Chain-split :
    (s : Links) (x : ℕ) (l : List ℕ) (n : ℕ) (r : List ℕ) (y : ℕ)
    → Chain s x (l ++ n ∷ r) y
    → Chain s x l n × Chain s n r y
Chain-split s x [] n r y (p, q, c) = ((p, q), c)
Chain-split s x (m ∷ l) n r y (p, q, c) = let (a, b) = Chain-split s m l n r y c in ((p, q, a), b)

pub Chain-join :
    (s : Links) (x : ℕ) (l : List ℕ) (n : ℕ) (r : List ℕ) (y : ℕ)
    → Chain s x l n
    → Chain s n r y
    → Chain s x (l ++ n ∷ r) y
Chain-join s x [] n r y (p, q) c = (p, q, c)
Chain-join s x (m ∷ l) n r y (p, q, a) c = (p, q, Chain-join s m l n r y a c)

-- Insert before `y` redirects the chain to the new node
pub insert-Chain :
    (s : Links) (n x : ℕ) (l : List ℕ) (y : ℕ)
    → distinct (x ∷ l) ≡ true
    → contains y l ≡ false
    → contains n (x ∷ l) ≡ false
    → n ≢ y
    → Chain s x l y
    → Chain (insert n (s.prev y) y s) x l n
unfolding insert contains distinct
insert-Chain s n x [] y d o f ne (p, q) = (ground arith, ground arith)
insert-Chain s n x (m ∷ l) y d o f ne (p, q, c) = (
  ground (arith, prev_in s m l y c),
  ground arith,
  insert-Chain s n m l y (ground arith) (ground arith) (ground arith) ne c,
)

-- Erase joins what stands before and after the node
pub erase-Chain :
    (s : Links) (n x : ℕ) (l r : List ℕ) (y : ℕ)
    → distinct (x ∷ l ++ n ∷ r) ≡ true
    → contains y (l ++ n ∷ r) ≡ false
    → Chain s x (l ++ n ∷ r) y
    → Chain (erase n s).1 x (l ++ r) y
unfolding erase contains distinct
erase-Chain s n x [] [] y d o (p, q, c) = (ground arith, ground arith)
erase-Chain s n x [] (m ∷ r) y d o (p, q, (e, f, c)) = (
  ground arith,
  ground arith,
  Chain-cong s (erase n s).1 m r y (λ k h. ground arith) (λ k h. ground arith) c,
)
erase-Chain s n x (m ∷ l) r y d o (p, q, c) =
    let (a, b) = Chain-split s m l n r y c in
    (
      ground (
        arith,
        prev_in s m l n a,
        contains-append (s.prev n) l (n ∷ r),
        contains-append x l (n ∷ r),
      ),
      ground (
        arith,
        next_in s n r y b,
        contains-append m l (n ∷ r),
        contains-append (s.next n) l (n ∷ r),
      ),
      erase-Chain s n m l r y (ground arith) (ground arith) c,
    )
