-- ===== src/SafeList/Laws.antt =====
-- The counts of references are right, so no node is freed too early and none is touched afterwards.
use mathlib.Core.Path.{subst}
use mzx.Base.{
  ℕ, ◌+◌, ◌-◌, ◌≤◌, ◌<◌, ◌≡◌, ◌≢◌, refl, sym, ap, true, Option, none, some, List, [], ◌∷◌, ◌++◌,
  ◌==◌, ltb, if◌then◌else◌, arith, Bool-cases, Option-cases, inl, inr, ◌⊎◌,
}
use mzx.Run.{Returns, returns}
use mzx.SafeList.{SafeList, has, remove, next_in, set_ref, incr_ref, delete_node, decr_ref}

abbrev pub count_in : ℕ → List ℕ → ℕ
count_in k [] = 0
count_in k (x ∷ l) = (if k == x then 1 else 0) + count_in k l

pub has-count_in : (k : ℕ) (l : List ℕ) → has k l ≡ ltb 0 (count_in k l)
has-count_in k [] = ground arith
has-count_in k (x ∷ l) = let h = has-count_in k l in ground (arith, h)

pub count_in-remove :
    (k n : ℕ) (l : List ℕ) → count_in k (remove n l) ≡ (if k == n then 0 else count_in k l)
count_in-remove k n [] = ground arith
count_in-remove k n (x ∷ l) = let h = count_in-remove k n l in ground (arith, h)

pub count_in-append : (k : ℕ) (a b : List ℕ) → count_in k (a ++ b) ≡ count_in k a + count_in k b
count_in-append k [] b = ground arith
count_in-append k (x ∷ a) b = let h = count_in-append k a b in ground (arith, h)

pub count_in-next_in : (n m : ℕ) (l : List ℕ) → next_in n l ≡ some m → 0 < count_in m l
count_in-next_in n m [] e = absurd (ground arith)
count_in-next_in n m (x ∷ []) e = absurd (ground arith)
count_in-next_in n m (x ∷ y ∷ l) e = elim (Bool-cases (n == x)) [
  | inl h ↦ ground arith
  | inr h ↦ let q = count_in-next_in n m (y ∷ l) in ground (arith, q)
]

-- in a list without repetitions nothing follows itself
pub next_in_other : (n m : ℕ) (l : List ℕ) → count_in n l ≤ 1 → next_in n l ≡ some m → m ≢ n
next_in_other n m [] one e q = absurd (ground arith)
next_in_other n m (x ∷ []) one e q = absurd (ground arith)
next_in_other n m (x ∷ y ∷ l) one e q = elim (Bool-cases (n == x)) [
  | inl h ↦ absurd (ground arith)
  | inr h ↦ let r = next_in_other n m (y ∷ l) in absurd (ground (arith, r))
]

-- what a call that may free the node `n` leaves of the list
abbrev pub KeepsOthers : ℕ → List ℕ → List ℕ → Type 0
KeepsOthers n before after = (after ≡ before) ⊎ (after ≡ remove n before)

module _ {ℓ} {D : Type ℓ} where
  -- the reference that the data's owner holds
  abbrev pub owned : Option D → ℕ
  owned none = 0
  owned (some d) = 1

  pub unowned_none : (o : Option D) → owned o ≡ 0 → o ≡ none
  unowned_none none h = refl
  unowned_none (some d) h = absurd (omega (arith, h))

  -- the references are the owner's and those of `held`, and the nodes with references are listed
  pub record IsCounted (s : SafeList D) (held : List ℕ) : Type ℓ where
    pub listed : (n : ℕ) → count_in n s.nodes ≡ (if s.ref_count n == 0 then 0 else 1)
    pub counted : (n : ℕ) → s.ref_count n ≡ owned (s.raw_data n) + count_in n held
    pub unnamed : (n : ℕ) → s.next_name ≤ n → s.ref_count n ≡ 0

  pub alive-IsCounted :
      (s : SafeList D) (held : List ℕ) (n : ℕ)
      → IsCounted s held
      → 0 < s.ref_count n
      → has n s.nodes ≡ true
  alive-IsCounted s held n w p =
      let h = has-count_in n s.nodes in let l = w.listed n in ground (arith, h, l)

  pub ref_of_held :
      (s : SafeList D) (held : List ℕ) (n : ℕ)
      → IsCounted s held
      → 0 < count_in n held
      → 0 < s.ref_count n
  ref_of_held s held n w p = let c = w.counted n in omega (arith, c)

  pub ref_of_data :
      (s : SafeList D) (held : List ℕ) (n : ℕ) (d : D)
      → IsCounted s held
      → s.raw_data n ≡ some d
      → 0 < s.ref_count n
  ref_of_data s held n d w e = let c = w.counted n in let o = ap owned e in omega (arith, c, o)

  pub ref_of_node :
      (s : SafeList D) (held : List ℕ) (n : ℕ)
      → IsCounted s held
      → 0 < count_in n s.nodes
      → 0 < s.ref_count n
  ref_of_node s held n w p = let l = w.listed n in ground (arith, l)

  pub incr_ref-IsCounted :
      (s : SafeList D) (held : List ℕ) (n : ℕ)
      → IsCounted s held
      → 0 < s.ref_count n
      → Returns
          (λ t. IsCounted t (n ∷ held) × (t.nodes ≡ s.nodes) × (t.raw_data ≡ s.raw_data))
          (incr_ref n s)
  unfolding incr_ref set_ref
  incr_ref-IsCounted s held n w p = rw (alive-IsCounted s held n w p) (
      returns (
        record {
          listed = λ k. let l = w.listed k in ground (arith, l);
          counted = λ k. let c = w.counted k in ground (arith, c);
          unnamed = λ k h. let u = w.unnamed k h in ground (arith, u);
        },
        refl,
        refl,
      ))

  decr_counts :
      (s : SafeList D) (held : List ℕ) (n : ℕ)
      → IsCounted s (n ∷ held)
      → (k : ℕ)
      → (if k == n then s.ref_count n - 1 else s.ref_count k)
        ≡ owned (s.raw_data k) + count_in k held
  decr_counts s held n w k = elim (Bool-cases (k == n)) [
    | inl h ↦
        let same : k ≡ n = ground arith in
        rw h (
          subst (λ i. s.ref_count n - 1 ≡ owned (s.raw_data i) + count_in i held) (sym same)
            (let c = w.counted n in
              let hit : (n == n) ≡ true = ground arith in ground (arith, c, hit)))
    | inr h ↦ rw h (let c = w.counted k in ground (arith, c, h))
  ]

  pub decr_ref-IsCounted :
      (s : SafeList D) (held : List ℕ) (n : ℕ)
      → IsCounted s (n ∷ held)
      → Returns
          (λ t. IsCounted t held × KeepsOthers n s.nodes t.nodes × (t.raw_data ≡ s.raw_data))
          (decr_ref n s)
  unfolding decr_ref set_ref delete_node
  decr_ref-IsCounted s held n w =
      let hit : (n == n) ≡ true = ground arith in
      let c = w.counted n in
      let some_ref : 0 < s.ref_count n = ground arith in
      let pass : ltb 0 (s.ref_count n) ≡ true = ground arith in
      rw (alive-IsCounted s (n ∷ held) n w some_ref, pass)
        (elim (Bool-cases (s.ref_count n - 1 == 0)) [
          | inl h ↦ elim (Option-cases (s.raw_data n)) [
            | inl q ↦
                rw (delete_node, h, q)
                  (returns (
                    record {
                      listed = λ k.
                          let l = w.listed k in
                          let r = count_in-remove k n s.nodes in ground (arith, l, r, h);
                      counted = decr_counts s held n w;
                      unnamed = λ k u. let z = w.unnamed k u in ground (arith, z);
                    },
                    inr refl,
                    refl,
                  ))
            | inr (d, q) ↦ let o = ap owned q in absurd (ground (arith, o))
          ]
          | inr h ↦ rw h (
              returns (
                record {
                  listed = λ k. let l = w.listed k in ground (arith, l, h, some_ref);
                  counted = decr_counts s held n w;
                  unnamed = λ k u. let z = w.unnamed k u in ground (arith, z);
                },
                inl refl,
                refl,
              ))
        ])
