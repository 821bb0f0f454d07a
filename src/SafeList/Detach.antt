-- ===== src/SafeList/Detach.antt =====
-- Detach, and new nodes, keep the counts of references right.
use mathlib.Core.Path.{subst}
use mzx.Base.{
  ℕ, ◌+◌, ◌<◌, ◌≡◌, refl, sym, ap, ◌∙◌, Option, none, some, List, [], ◌∷◌, ◌==◌, if◌then◌else◌,
  arith, Bool-cases, Option-cases, inl, inr,
}
use mzx.Run.{Returns, returns, and_then}
use mzx.SafeList.{SafeList, empty, set_ref, set_data, push_node, detach}
use mzx.SafeList.Laws.{
  count_in, count_in-append, KeepsOthers, owned, IsCounted, alive-IsCounted, decr_ref-IsCounted,
}

module _ {ℓ} {D : Type ℓ} where
  abbrev pub without : ℕ → (ℕ → Option D) → ℕ → Option D
  without n f k = if k == n then none else f k

  without-none : (n : ℕ) (f : ℕ → Option D) → f n ≡ none → (k : ℕ) → f k ≡ without n f k
  without-none n f e k = elim (Bool-cases (k == n)) [
    | inl h ↦ let same : k ≡ n = ground arith in rw h (ap f same ∙ e)
    | inr h ↦ rw h refl
  ]

  -- the owner gives its reference to the caller
  detached :
      (s : SafeList D) (held : List ℕ) (n : ℕ) (d : D)
      → IsCounted s held
      → s.raw_data n ≡ some d
      → IsCounted (set_data n none s) (n ∷ held)
  unfolding set_data
  detached s held n d w q = record {
    listed = w.listed;
    counted = λ k. elim (Bool-cases (k == n)) [
      | inl h ↦
          let same : k ≡ n = ground arith in
          let c = w.counted n in
          let o = ap owned q in
          rw h (
            subst (λ i. s.ref_count i ≡ 0 + (1 + count_in i held)) (sym same) (omega (arith, c, o)))
      | inr h ↦ rw h (let c = w.counted k in omega (arith, c))
    ];
    unnamed = w.unnamed;
  }

  -- Detach of a node that has not been freed
  pub detach-IsCounted :
      (s : SafeList D) (held : List ℕ) (n : ℕ)
      → IsCounted s held
      → 0 < s.ref_count n
      → Returns
          (λ (t, d).
            IsCounted t held
            × KeepsOthers n s.nodes t.nodes
            × ((k : ℕ) → t.raw_data k ≡ without n s.raw_data k)
            × (d ≡ s.raw_data n))
          (detach n s)
  unfolding detach set_data
  detach-IsCounted s held n w p =
      rw (alive-IsCounted s held n w p) (elim (Option-cases (s.raw_data n)) [
        | inl q ↦ rw q (returns (w, inl refl, without-none n s.raw_data q, refl))
        | inr (d, q) ↦ rw q (
            and_then (decr_ref-IsCounted (set_data n none s) held n (detached s held n d w q))
              λ t (v, l, e). returns (v, l, (λ k. ap (λ (f : ℕ → Option D). f k) e), refl))
      ])

  pub push_node-IsCounted :
      (s : SafeList D) (held : List ℕ) (d : D) → IsCounted s held → IsCounted (push_node d s) held
  unfolding push_node set_ref set_data
  push_node-IsCounted s held d w =
      let z = w.unnamed s.next_name (omega arith) in
      record {
        listed = λ k.
            let l = w.listed k in
            let a = count_in-append k s.nodes (s.next_name ∷ []) in ground (arith, l, a, z);
        counted = λ k. elim (Bool-cases (k == s.next_name)) [
          | inl h ↦
              let same : k ≡ s.next_name = ground arith in
              let c = w.counted s.next_name in
              rw h (subst (λ i. 1 ≡ 1 + count_in i held) (sym same) (omega (arith, c, z)))
          | inr h ↦ rw h (w.counted k)
        ];
        unnamed = λ k u. let r = w.unnamed k (omega arith) in ground (arith, r, u);
      }

  pub empty-IsCounted : IsCounted {D = D} empty []
  empty-IsCounted = record { listed = λ n. refl; counted = λ n. refl; unnamed = λ n h. refl }
