-- ===== src/Sort/Buddle/Laws.antt =====
-- BuddleSort sorts.
use mathlib.Core.List.Perm
use mzx.Base.{
  refl, ℕ, zero, suc, ◌+◌, ◌-◌, ◌≤◌, ◌<◌, ◌≡◌, Bool, false, List, [], ◌∷◌, Perm, arith, lt→ltb,
  Bool-cases, inl, inr, if◌then◌else◌, ◌==◌, ◌⊎◌, true,
}
use mzx.Array.{
  length, get_or, load-ok, iter_swap-ok, swapped, get_or-swapped, length-swapped, swapped-perm,
  length-perm,
}
use mzx.Order.{IsWeakOrder, IsSorted, IsSorted-SortedTo}
use mzx.Run.{Returns, returns, and_then, weaken, on_test}
use mzx.Sort.Buddle.{buddle_pass, buddle_rounds, buddle_sort}

module _ {ℓ} {A : Type ℓ} (comp : A → A → Bool) (order : IsWeakOrder comp) (d : A) where
  -- what stands past `t` goes after all that stands before it
  abbrev SettledFrom : ℕ → List A → Type 0
  SettledFrom t a =
      (i j : ℕ) → i < j → t < j → j < length a → comp (get_or a j d) (get_or a i d) ≡ false

  -- before the first swap of a pass all that it has seen is sorted; after it, what lies past `t` is
  abbrev low : ℕ → ℕ → ℕ
  low flag t = if t == flag then 0 else t

  record IsPassing (flag q t : ℕ) (a : List A) : Type 0 where
    place : t ≤ flag
    inside : flag < length a
    settled : SettledFrom flag a
    front : (i j : ℕ) → i < j → j ≤ q → low flag t < j → comp (get_or a j d) (get_or a i d) ≡ false
    top : (i : ℕ) → i < q → comp (get_or a q d) (get_or a i d) ≡ false

  IsPassing-swap :
      (flag q t : ℕ) (a : List A)
      → q < flag
      → comp (get_or a (suc q) d) (get_or a q d) ≡ true
      → IsPassing flag q t a
      → IsPassing flag (suc q) q (swapped d a (suc q) q)
  IsPassing-swap flag q t a h less v =
      let size = length-swapped d a (suc q) q in
      let at = get_or-swapped d a (suc q) q (omega (arith, v.inside)) (omega (arith, v.inside)) in
      let flip = order.asymm (get_or a (suc q) d) (get_or a q d) less in
      record {
        place = omega arith;
        inside = omega (arith, v.inside);
        settled = λ i j p r s.
            ground (arith, size, at i, at j, v.settled i j p r, v.settled q j, v.settled (suc q) j);
        front = λ i j p r s. ground (arith, at i, at j, v.top i);
        top = λ i p. ground (arith, at i, at (suc q), v.top i);
      }

  IsPassing-keep :
      (flag q t : ℕ) (a : List A)
      → q < flag
      → comp (get_or a (suc q) d) (get_or a q d) ≡ false
      → IsPassing flag q t a
      → IsPassing flag (suc q) t a
  IsPassing-keep flag q t a h more v =
      let new : (i : ℕ) → i < suc q → comp (get_or a (suc q) d) (get_or a i d) ≡ false = λ i p.
        ground (arith, v.top i, order.trans (get_or a i d) (get_or a q d) (get_or a (suc q) d)) in
      record {
        place = v.place;
        inside = v.inside;
        settled = v.settled;
        front = λ i j p r s. ground (arith, v.front i j p, new i);
        top = new;
      }

  -- what a pass that begins with `a` leaves, `Q` being kept if no swap can break it
  abbrev Passed : ℕ → List A → ℕ × List A → Type ℓ
  Passed flag a r = IsPassing flag flag r.0 r.1 × Perm r.1 a × (SettledFrom 0 a → SettledFrom 0 r.1)

  buddle_pass-Passed :
      (rounds flag q t : ℕ) (a : List A)
      → q + rounds ≡ flag
      → IsPassing flag q t a
      → Returns (Passed flag a) (buddle_pass comp rounds q t a)
  unfolding buddle_pass
  buddle_pass-Passed zero flag q t a e v =
      let end : q ≡ flag = omega arith in returns (rw end at v, Perm.rfl, λ s. s)
  buddle_pass-Passed (suc rounds) flag q t a e v =
      let hi : suc q < length a = omega (arith, v.inside) in
      let lo : q < length a = omega (arith, v.inside) in
      rw (load-ok d a (suc q) hi, load-ok d a q lo)
        (elim (Bool-cases (comp (get_or a (suc q) d) (get_or a q d))) [
          | inl less ↦
              rw (less, iter_swap-ok d a (suc q) q hi lo)
                (weaken
                  (buddle_pass-Passed rounds flag (suc q) q (swapped d a (suc q) q) (omega arith)
                    (IsPassing-swap flag q t a (omega arith) less v))
                  λ r (passing, perm, keep). (
                    passing,
                    Perm.trans perm (swapped-perm d a (suc q) q hi lo),
                    λ s. absurd (ground (arith, s q (suc q))),
                  ))
          | inr more ↦ rw more (
              buddle_pass-Passed rounds flag (suc q) t a (omega arith)
                (IsPassing-keep flag q t a (omega arith) more v))
        ])

  IsPassing-SettledFrom :
      (flag t : ℕ) (a : List A) → IsPassing flag flag t a → SettledFrom (low flag t) a
  IsPassing-SettledFrom flag t a v i j p r s = ground (arith, v.front i j p, v.settled i j p)

  -- either all is sorted, or each round that is left has one place to settle
  record IsRound (rounds t : ℕ) (a : List A) : Type 0 where
    inside : t < length a
    settled : SettledFrom t a
    left : SettledFrom 0 a ⊎ (t ≤ rounds)

  IsRound-next :
      (rounds t : ℕ) (a : List A) (t' : ℕ) (b : List A)
      → IsRound (suc rounds) t a
      → IsPassing t t t' b
      → length b ≡ length a
      → (SettledFrom 0 a → SettledFrom 0 b)
      → IsRound rounds t' b
  IsRound-next rounds t a t' b v w size keep =
      let past = IsPassing-SettledFrom t t' b w in
      record {
        inside = omega (arith, w.place, v.inside);
        settled = λ i j p q s. ground (arith, past i j p);
        left = elim (Bool-cases (t' == t)) [
          | inl e ↦ inl (λ i j p q s. ground (arith, past i j p))
          | inr e ↦ elim v.left [ inl s ↦ inl (keep s) | inr p ↦ inr (ground (arith, w.place)) ]
        ];
      }

  buddle_rounds-SettledFrom :
      (rounds t : ℕ) (a : List A)
      → IsRound rounds t a
      → Returns (λ b. SettledFrom 0 b × Perm b a) (buddle_rounds comp rounds t a)
  unfolding buddle_rounds
  buddle_rounds-SettledFrom zero t a v =
      returns
        (elim v.left [ inl s ↦ s | inr p ↦ λ i j q r s. v.settled i j q (omega arith) s ], Perm.rfl)
  buddle_rounds-SettledFrom (suc rounds) t a v =
      and_then
        (buddle_pass-Passed t t 0 t a (omega arith) (record {
          place = omega arith;
          inside = v.inside;
          settled = v.settled;
          front = λ i j p q r. absurd (omega arith);
          top = λ i p. absurd (omega arith);
        }))
        λ r (passing, perm, keep).
          on_test (r.0 == 0)
            (λ e.
              returns
                (λ i j p q s. ground (arith, IsPassing-SettledFrom t r.0 r.1 passing i j p), perm))
            (λ e.
              weaken
                (buddle_rounds-SettledFrom rounds r.0 r.1
                  (IsRound-next rounds t a r.0 r.1 v passing (length-perm perm) keep))
                λ b (s, perm'). (s, Perm.trans perm' perm))

module _ {ℓ} {A : Type ℓ} (comp : A → A → Bool) (order : IsWeakOrder comp) where
  -- With a comparison that is a strict weak order, BuddleSort returns on every range that is not empty,
  -- and leaves the same elements in an order in which no later element goes before an earlier one.
  pub buddle_sort_correct :
      (a : List A) → 0 < length a → Returns (λ b. IsSorted comp b × Perm b a) (buddle_sort comp a)
  unfolding buddle_sort
  buddle_sort_correct [] h = absurd (omega arith)
  buddle_sort_correct (x ∷ xs) h = rw (lt→ltb 0 _ h) (
      weaken
        (buddle_rounds-SettledFrom comp order x (length (x ∷ xs) - 1) (length (x ∷ xs) - 1) (x ∷ xs)
          (record {
            inside = omega arith;
            settled = λ i j p q r. absurd (omega arith);
            left = inr (omega arith);
          }))
        λ b (s, perm).
          (IsSorted-SortedTo comp x (length b) b refl (λ i j p q. s i j p (omega arith) q), perm))
