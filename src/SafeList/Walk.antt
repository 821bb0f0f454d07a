-- ===== src/SafeList/Walk.antt =====
-- The loops that hold the node they are at: whatever is detached meanwhile, the next node is on the
-- list when the loop comes to it.
use mathlib.Core.Path.{subst}
use mzx.Array.{length}
use mzx.Base.{
  ℕ, ◌≤◌, ◌<◌, ◌≡◌, refl, sym, ap, ◌∙◌, true, Option, none, some, List, [], ◌∷◌, ◌==◌,
  if◌then◌else◌, arith, inl, inr,
}
use mzx.Run.{Returns, returns, and_then}
use mzx.SafeList.{SafeList, first, next_in, leave, next_node}
use mzx.SafeList.Laws.{
  count_in, count_in-remove, count_in-next_in, next_in_other, KeepsOthers, owned, IsCounted,
  alive-IsCounted, decr_ref-IsCounted, ref_of_held,
}
use mzx.SafeList.Detaches.{steps, steps-next_in, KeepsOthers-IsLater}

-- the end of the list, or a node of it
abbrev pub IsListed : Option ℕ → List ℕ → Type 0
IsListed none l = Unit {0}
IsListed (some n) l = 0 < count_in n l

abbrev pub steps_of : Option ℕ → List ℕ → ℕ
steps_of none l = 0
steps_of (some n) l = steps n l

pub first-IsListed : (l : List ℕ) → IsListed (first l) l
first-IsListed [] = tt
first-IsListed (x ∷ l) = ground arith

pub steps_of-first : (l : List ℕ) → steps_of (first l) l ≤ length l
steps_of-first [] = omega arith
steps_of-first (x ∷ l) = ground arith

pub steps_listed : (n : ℕ) (l : List ℕ) → 0 < count_in n l → 0 < steps n l
steps_listed n [] h = absurd (omega (arith, h))
steps_listed n (x ∷ l) h = let q = steps_listed n l in ground (arith, q, h)

-- the cursor behind `n`, after `n` may have been freed
next-IsListed :
    (n : ℕ) (l t : List ℕ) (o : Option ℕ)
    → ((k : ℕ) → count_in k l ≤ 1)
    → 0 < count_in n l
    → next_in n l ≡ o
    → KeepsOthers n l t
    → IsListed o t × (steps_of o t < steps n l)
next-IsListed n l t none one there e keeps = (tt, steps_listed n l there)
next-IsListed n l t (some m) one there e keeps = (
  listed keeps,
  (let q = steps-next_in n m l (one m) e in
      let r = (KeepsOthers-IsLater n l t keeps m (listed keeps)).1 in omega (arith, q, r)),
)
  where
    listed : KeepsOthers n l t → 0 < count_in m t
    listed (inl h) = subst (λ x. 0 < count_in m x) (sym h) (count_in-next_in n m l e)
    listed (inr h) =
        subst (λ x. 0 < count_in m x) (sym h)
          (let c = count_in-next_in n m l e in
            let o = next_in_other n m l (one n) e in
            let r = count_in-remove m n l in ground (arith, c, o, r))

module _ {ℓ} {D : Type ℓ} where
  pub next_node_lem :
      (s : SafeList D) (held : List ℕ) (n : ℕ)
      → IsCounted s held
      → 0 < s.ref_count n
      → Returns (λ m. m ≡ next_in n s.nodes) (next_node n s)
  unfolding next_node
  next_node_lem s held n w r = rw (alive-IsCounted s held n w r) (returns refl)

  pub leave-IsCounted :
      (s : SafeList D) (held : List ℕ) (n : ℕ)
      → IsCounted s (n ∷ held)
      → Returns
          (λ (t, m).
            IsCounted t held
            × (t.raw_data ≡ s.raw_data)
            × IsListed m t.nodes
            × (steps_of m t.nodes < steps n s.nodes)
            × KeepsOthers n s.nodes t.nodes
            × (m ≡ next_in n s.nodes))
          (leave n s)
  unfolding leave
  leave-IsCounted s held n w =
      let hit : (n == n) ≡ true = ground arith in
      let r = ref_of_held s (n ∷ held) n w (rw hit (omega arith)) in
      let there : 0 < count_in n s.nodes = let l = w.listed n in ground (arith, l, r) in
      let one = λ (k : ℕ). once k in
      and_then (next_node_lem s (n ∷ held) n w r) λ m q.
        and_then (decr_ref-IsCounted s held n w) λ t (v, keeps, e).
          let (i, j) = next-IsListed n s.nodes t.nodes m one there (sym q) keeps in
          returns (v, e, i, j, keeps, q)
    where
      once : (k : ℕ) → count_in k s.nodes ≤ 1
      once k = let l = w.listed k in ground (arith, l)

  -- a round of such a loop that leaves the list alone
  pub leave_lem :
      (s t : SafeList D) (held : List ℕ) (n : ℕ)
      → IsCounted s held
      → 0 < s.ref_count n
      → IsCounted t (n ∷ held)
      → t.nodes ≡ s.nodes
      → t.raw_data ≡ s.raw_data
      → Returns
          (λ (u, m).
            IsCounted u held
            × (u.raw_data ≡ s.raw_data)
            × (u.nodes ≡ s.nodes)
            × (m ≡ next_in n s.nodes))
          (leave n t)
  unfolding leave
  leave_lem s t held n w r v nodes values =
      let hit : (n == n) ≡ true = ground arith in
      let r' = ref_of_held t (n ∷ held) n v (rw hit (omega arith)) in
      and_then (next_node_lem t (n ∷ held) n v r') λ m q.
        and_then (decr_ref-IsCounted t held n v) λ u (x, keeps, e).
          let c = w.counted n in
          let d = x.counted n in
          let o = ap (λ (f : ℕ → Option D). owned (f n)) (e ∙ values) in
          let kept : 0 < u.ref_count n = omega (arith, c, d, o, r) in
          returns
            (x, e ∙ values, unfreed t u n keeps (x.listed n) kept ∙ nodes, q ∙ ap (next_in n) nodes)
    where
      unfreed :
          (t u : SafeList D) (n : ℕ)
          → KeepsOthers n t.nodes u.nodes
          → count_in n u.nodes ≡ (if u.ref_count n == 0 then 0 else 1)
          → 0 < u.ref_count n
          → u.nodes ≡ t.nodes
      unfreed t u n (inl h) l k = h
      unfreed t u n (inr h) l k =
          let c = ap (count_in n) h ∙ count_in-remove n n t.nodes in
          absurd (ground (arith, c, l, k))
