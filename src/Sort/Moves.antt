-- ===== src/Sort/Moves.antt =====
-- A list rearranged by swaps within the positions [lo, hi).
use mathlib.Core.List.Perm
use mzx.Base.{Bool, true, false, if◌then◌else◌, ℕ, ◌≤◌, ◌<◌, ◌≡◌, refl, ◌⊎◌, List, Perm, arith}
use mzx.Array.{length, get_or, swapped, get_or-swapped, length-swapped, swapped-perm}

module _ {ℓ} {A : Type ℓ} (d : A) where
  pub data Moves (lo hi : ℕ) (a : List A) : List A → Type ℓ where
    same : Moves lo hi a a
    swap :
        {b : List A} (i j : ℕ)
        → lo ≤ i
        → i < hi
        → lo ≤ j
        → j < hi
        → Moves lo hi a b
        → Moves lo hi a (swapped d b i j)

  -- every element of [lo, hi) satisfies `P`
  abbrev pub AllIn : ℕ → ℕ → (A → Type 0) → List A → Type 0
  AllIn lo hi P a = (i : ℕ) → lo ≤ i → i < hi → P (get_or a i d)

  pub Moves-append :
      {lo hi : ℕ} {a b c : List A} → Moves lo hi a b → Moves lo hi b c → Moves lo hi a c
  Moves-append m same = m
  Moves-append m (swap i j p q r s n) = swap i j p q r s (Moves-append m n)

  pub Moves-widen :
      {lo hi lo' hi' : ℕ} {a b : List A} → lo' ≤ lo → hi ≤ hi' → Moves lo hi a b → Moves lo' hi' a b
  Moves-widen h k same = same
  Moves-widen h k (swap i j p q r s n) =
      swap i j (omega arith) (omega arith) (omega arith) (omega arith) (Moves-widen h k n)

  pub Moves-length : {lo hi : ℕ} {a b : List A} → Moves lo hi a b → length b ≡ length a
  Moves-length same = refl
  Moves-length (swap {b} i j p q r s n) = omega (arith, length-swapped d b i j, Moves-length n)

  pub Moves-perm : {lo hi : ℕ} {a b : List A} → hi ≤ length a → Moves lo hi a b → Perm b a
  Moves-perm h same = Perm.rfl
  Moves-perm h (swap {b} i j p q r s n) =
      let size = Moves-length n in
      Perm.trans (swapped-perm d b i j (omega arith) (omega arith)) (Moves-perm h n)

  pub Moves-outside :
      {lo hi : ℕ} {a b : List A}
      → hi ≤ length a
      → Moves lo hi a b
      → (c : ℕ) → (c < lo) ⊎ (hi ≤ c)
      → get_or b c d ≡ get_or a c d
  Moves-outside h same c out = refl
  Moves-outside h (swap {b} i j p q r s n) c out =
      let size = Moves-length n in
      ground (arith, get_or-swapped d b i j (omega arith) (omega arith) c, Moves-outside h n c out)

  either : (P : A → Type 0) (b : Bool) {x y : A} → P x → P y → P (if b then x else y)
  either P true p q = p
  either P false p q = q

  pub Moves-AllIn :
      {lo hi : ℕ} {a b : List A} (P : A → Type 0)
      → hi ≤ length a
      → Moves lo hi a b
      → AllIn lo hi P a
      → AllIn lo hi P b
  Moves-AllIn P h same all = all
  Moves-AllIn P h (swap {b} i j p q r s n) all =
      let size = Moves-length n in
      let before = Moves-AllIn P h n all in
      λ c lc hc.
        rw (get_or-swapped d b i j (omega arith) (omega arith) c)
          (either P _ (before i p q) (either P _ (before j r s) (before c lc hc)))
