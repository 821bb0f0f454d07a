-- ===== src/SafeList/Detaches.antt =====
-- Detach of some of a list's nodes: what is left, and in which order.
use mathlib.Core.Path.{subst}
use mzx.Array.{length}
use mzx.Base.{
  ℕ, suc, ◌≤◌, ◌<◌, ◌≡◌, ◌≢◌, refl, sym, ◌∙◌, true, Option, none, some, List, [], ◌∷◌, ◌==◌,
  if◌then◌else◌, arith, Bool-cases, inl, inr,
}
use mzx.Run.{Returns, weaken}
use mzx.SafeList.{SafeList, remove, next_in, detach}
use mzx.SafeList.Laws.{count_in, count_in-remove, count_in-next_in, KeepsOthers, IsCounted}
use mzx.SafeList.Detach.{without, detach-IsCounted}
use mzx.SafeList.View.{collect, collect-KeepsOthers}

-- the number of nodes from `n` on
abbrev pub steps : ℕ → List ℕ → ℕ
steps n [] = 0
steps n (x ∷ l) = if n == x then suc (length l) else steps n l

length-remove : (k : ℕ) (l : List ℕ) → length (remove k l) ≤ length l
length-remove k [] = omega arith
length-remove k (x ∷ l) = let h = length-remove k l in ground (arith, h)

steps-remove : (n k : ℕ) (l : List ℕ) → n ≢ k → steps n (remove k l) ≤ steps n l
steps-remove n k [] e = omega arith
steps-remove n k (x ∷ l) e =
    let h = steps-remove n k l e in let q = length-remove k l in ground (arith, h, q)

pub steps-next_in :
    (n m : ℕ) (l : List ℕ) → count_in m l ≤ 1 → next_in n l ≡ some m → steps m l < steps n l
steps-next_in n m [] one e = absurd (ground arith)
steps-next_in n m (x ∷ []) one e = absurd (ground arith)
steps-next_in n m (x ∷ y ∷ l) one e = elim (Bool-cases (n == x)) [
  | inl h ↦ ground arith
  | inr h ↦
      let f : next_in n (y ∷ l) ≡ some m = ground arith in
      let c = count_in-next_in n m (y ∷ l) f in
      let q = steps-next_in n m (y ∷ l) (ground arith) f in ground (arith, c, q)
]

-- the nodes that are left are in their order, and none of them is further from the end
abbrev pub IsLater : List ℕ → List ℕ → Type 0
IsLater a b = (n : ℕ) → 0 < count_in n b → (0 < count_in n a) × (steps n b ≤ steps n a)

pub IsLater-trans : (a b c : List ℕ) → IsLater a b → IsLater b c → IsLater a c
IsLater-trans a b c f g n p =
    let (q, le) = g n p in let (r, le') = f n q in (r, omega (arith, le, le'))

pub KeepsOthers-IsLater : (n : ℕ) (a b : List ℕ) → KeepsOthers n a b → IsLater a b
KeepsOthers-IsLater n a b (inl e) = subst (IsLater a) (sym e) λ k p. (p, omega arith)
KeepsOthers-IsLater n a b (inr e) = subst (IsLater a) (sym e) λ k p.
    let c = count_in-remove k n a in
    let other : k ≢ n = λ h. absurd (ground (arith, c, p, h)) in
    (ground (arith, c, p), steps-remove k n a other)

module _ {ℓ} {D : Type ℓ} where
  -- `t` is `s` after some nodes have lost their data
  pub record Detaches (s : SafeList D) (held : List ℕ) (t : SafeList D) : Type ℓ where
    pub counted : IsCounted t held
    pub fades : (n : ℕ) → s.raw_data n ≡ none → t.raw_data n ≡ none
    pub same :
        (f : ℕ → Option D)
        → ((n : ℕ) → t.raw_data n ≡ none → f n ≡ none)
        → collect f t.nodes ≡ collect f s.nodes
    pub later : IsLater s.nodes t.nodes

  pub Detaches-refl : (s : SafeList D) (held : List ℕ) → IsCounted s held → Detaches s held s
  Detaches-refl s held w = record {
    counted = w;
    fades = λ n e. e;
    same = λ f e. refl;
    later = λ n p. (p, omega arith);
  }

  pub Detaches-trans :
      {s t u : SafeList D} {held : List ℕ}
      → Detaches s held t
      → Detaches t held u
      → Detaches s held u
  Detaches-trans d e = record {
    counted = e.counted;
    fades = λ n h. e.fades n (d.fades n h);
    same = λ f h. e.same f h ∙ d.same f λ n q. h n (e.fades n q);
    later = IsLater-trans _ _ _ d.later e.later;
  }

  pub detach-Detaches :
      (s : SafeList D) (held : List ℕ) (n : ℕ)
      → IsCounted s held
      → 0 < s.ref_count n
      → Returns
          (λ (t, d).
            Detaches s held t
            × ((k : ℕ) → t.raw_data k ≡ without n s.raw_data k)
            × KeepsOthers n s.nodes t.nodes
            × (d ≡ s.raw_data n))
          (detach n s)
  detach-Detaches s held n w p = weaken (detach-IsCounted s held n w p) λ (t, d) (v, l, e, q). (
    record {
      counted = v;
      fades = λ k q. e k ∙ faded k q;
      same = λ f h. collect-KeepsOthers f n s.nodes t.nodes (h n (e n ∙ gone)) l;
      later = KeepsOthers-IsLater n s.nodes t.nodes l;
    },
    e,
    l,
    q,
  )
    where
      gone : without n s.raw_data n ≡ none
      gone = let hit : (n == n) ≡ true = ground arith in rw hit refl

      faded : (k : ℕ) → s.raw_data k ≡ none → without n s.raw_data k ≡ none
      faded k q = elim (Bool-cases (k == n)) [ inl h ↦ rw h refl | inr h ↦ rw h q ]
