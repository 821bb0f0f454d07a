-- ===== src/Sort/Select/Laws.antt =====
-- SelectSort sorts.
use mathlib.Core.List.Perm
use mzx.Base.{
  ℕ, zero, suc, ◌+◌, ◌-◌, ◌≤◌, ◌<◌, ◌≡◌, Bool, false, List, [], ◌∷◌, Perm, arith, lt→ltb,
  Bool-cases, inl, inr, if◌then◌else◌,
}
use mzx.Array.{
  length, get_or, load-ok, iter_swap-ok, swapped, get_or-swapped, length-swapped, swapped-perm,
  length-perm,
}
use mzx.Order.{IsWeakOrder, IsSorted, SortedTo, IsSorted-SortedTo}
use mzx.Run.{Returns, returns, and_then, weaken}
use mzx.Sort.Select.{select_scan, select_rounds, select_sort}

module _ {ℓ} {A : Type ℓ} (comp : A → A → Bool) (order : IsWeakOrder comp) (d : A) where
  -- `sel` is the place of a first element among those from `i` up to `j`
  record IsPicked (a : List A) (i j sel : ℕ) : Type 0 where
    from : i ≤ sel
    upto : sel < j
    first : (c : ℕ) → i ≤ c → c < j → comp (get_or a c d) (get_or a sel d) ≡ false

  irrefl : (x : A) → comp x x ≡ false
  irrefl x = ground (arith, order.asymm x x)

  IsPicked-step :
      (a : List A) (i j sel : ℕ)
      → IsPicked a i j sel
      → IsPicked a i (suc j) (if comp (get_or a j d) (get_or a sel d) then j else sel)
  IsPicked-step a i j sel v = elim (Bool-cases (comp (get_or a j d) (get_or a sel d))) [
    | inl e ↦ rw e (record {
      from = omega (arith, v.from, v.upto);
      upto = omega arith;
      first = λ c p q. ground (
        arith,
        v.first c p,
        irrefl (get_or a j d),
        order.asymm (get_or a j d) (get_or a sel d),
        order.trans (get_or a j d) (get_or a sel d) (get_or a c d),
      );
    })
    | inr e ↦ rw e (record {
      from = v.from;
      upto = omega (arith, v.upto);
      first = λ c p q. ground (arith, v.first c p);
    })
  ]

  select_scan-IsPicked :
      (rounds i j sel : ℕ) (a : List A)
      → j + rounds ≡ length a
      → IsPicked a i j sel
      → Returns (IsPicked a i (length a)) (select_scan comp rounds j sel a)
  unfolding select_scan
  select_scan-IsPicked zero i j sel a e v =
      let end : j ≡ length a = omega arith in returns (rw (← end) v)
  select_scan-IsPicked (suc rounds) i j sel a e v =
      rw (load-ok d a j (omega arith), load-ok d a sel (omega (arith, v.upto)))
        (select_scan-IsPicked rounds i (suc j) _ a (omega arith) (IsPicked-step a i j sel v))

  -- the first `i` elements are sorted and go before all others
  abbrev IsDone : ℕ → List A → Type 0
  IsDone i a = (p q : ℕ) → p < q → p < i → q < length a → comp (get_or a q d) (get_or a p d) ≡ false

  IsDone-step :
      (i sel : ℕ) (a : List A)
      → i < length a
      → IsDone i a
      → IsPicked a i (length a) sel
      → IsDone (suc i) (swapped d a i sel)
  IsDone-step i sel a h done v p q lt pi ql =
      let size = length-swapped d a i sel in
      let at = get_or-swapped d a i sel h v.upto in
      ground (
        arith,
        size,
        at p,
        at q,
        done p q lt,
        done p i,
        done p sel,
        v.first q,
        v.first i,
        v.from,
        v.upto,
      )

  select_rounds-IsDone :
      (rounds i : ℕ) (a : List A)
      → i + suc rounds ≡ length a
      → IsDone i a
      → Returns (λ b. SortedTo comp d (length a) b × Perm b a) (select_rounds comp rounds i a)
  unfolding select_rounds
  select_rounds-IsDone zero i a e done = returns (λ p q r s. done p q r (omega arith) s, Perm.rfl)
  select_rounds-IsDone (suc rounds) i a e done =
      and_then
        (select_scan-IsPicked (suc rounds) i (suc i) i a (omega arith) (record {
          from = omega arith;
          upto = omega arith;
          first = λ c p q. ground (arith, irrefl (get_or a i d));
        }))
        λ sel v.
          let h : i < length a = omega arith in
          let perm = swapped-perm d a i sel h v.upto in
          let size = length-swapped d a i sel in
          rw (iter_swap-ok d a i sel h v.upto) (
            weaken
              (select_rounds-IsDone rounds (suc i) (swapped d a i sel) (omega arith)
                (IsDone-step i sel a h done v))
              λ b (s, perm'). (rw (← size) s, Perm.trans perm' perm))

module _ {ℓ} {A : Type ℓ} (comp : A → A → Bool) (order : IsWeakOrder comp) where
  -- With a comparison that is a strict weak order, SelectSort returns on every range that is not empty,
  -- and leaves the same elements in an order in which no later element goes before an earlier one.
  pub select_sort_correct :
      (a : List A) → 0 < length a → Returns (λ b. IsSorted comp b × Perm b a) (select_sort comp a)
  unfolding select_sort
  select_sort_correct [] h = absurd (omega arith)
  select_sort_correct (x ∷ xs) h = rw (lt→ltb 0 _ h) (
      weaken
        (select_rounds-IsDone comp order x (length (x ∷ xs) - 1) 0 (x ∷ xs) (omega arith)
          λ p q r s. absurd (omega arith))
        λ b (s, perm). (IsSorted-SortedTo comp x (length (x ∷ xs)) b (length-perm perm) s, perm))
