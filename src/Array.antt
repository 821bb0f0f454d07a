-- ===== src/Array.antt =====
-- Lists as the ranges [begin, end) of the C++ code, under native indices.
use mathlib.Core.Logic.{∥∥₁_elim}
use native.Mathlib.Nat.{ℕ_set}
use mathlib.Core.List.{Permᴰ}
use mathlib.Core.List.Perm
use mzx.Base.{
  ℕ, zero, suc, ◌+◌, ◌≤◌, ◌<◌, ◌≡◌, ◌≢◌, refl, ap, ◌∙◌, List, [], ◌∷◌, ◌++◌, Perm, Option, none,
  some, arith, ◌==◌, if◌then◌else◌,
}
use mzx.Run.{Run, ok, fault, ◌>>=◌}

module _ {ℓ} {A : Type ℓ} where
  abbrev pub length : List A → ℕ
  length [] = 0
  length (x ∷ xs) = suc (length xs)

  abbrev pub get_elem? : List A → ℕ → Option A
  get_elem? [] i = none
  get_elem? (x ∷ xs) zero = some x
  get_elem? (x ∷ xs) (suc i) = get_elem? xs i

  unfoldable pub get_or : List A → ℕ → A → A
  get_or [] i d = d
  get_or (x ∷ xs) zero d = x
  get_or (x ∷ xs) (suc i) d = get_or xs i d

  unfoldable pub set : List A → ℕ → A → List A
  set [] i v = []
  set (x ∷ xs) zero v = v ∷ xs
  set (x ∷ xs) (suc i) v = x ∷ set xs i v

  -- `*(begin + i)`
  unfoldable pub load : List A → ℕ → Run A
  load [] i = fault
  load (x ∷ xs) zero = ok x
  load (x ∷ xs) (suc i) = load xs i

  -- `*(begin + i) = v`
  unfoldable pub store : List A → ℕ → A → Run (List A)
  unfolding set
  store a i v = elim (get_elem? a i) [ none ↦ fault | some _ ↦ ok (set a i v) ]

  pub length-append : (xs ys : List A) → length (xs ++ ys) ≡ length xs + length ys
  length-append [] ys = omega arith
  length-append (x ∷ xs) ys = omega (arith, length-append xs ys)

  pub length-set : (xs : List A) (i : ℕ) (v : A) → length (set xs i v) ≡ length xs
  unfolding set
  length-set [] i v = refl
  length-set (x ∷ xs) zero v = refl
  length-set (x ∷ xs) (suc i) v = ap suc (length-set xs i v)

  pub load-ok : (d : A) (a : List A) (i : ℕ) → i < length a → load a i ≡ ok (get_or a i d)
  unfolding load get_or
  load-ok d [] i h = absurd (omega arith)
  load-ok d (x ∷ xs) zero h = refl
  load-ok d (x ∷ xs) (suc i) h = load-ok d xs i (omega arith)

  pub get_elem?-get_or :
      (d : A) (a : List A) (i : ℕ) → i < length a → get_elem? a i ≡ some (get_or a i d)
  unfolding get_or
  get_elem?-get_or d [] i h = absurd (omega arith)
  get_elem?-get_or d (x ∷ xs) zero h = refl
  get_elem?-get_or d (x ∷ xs) (suc i) h = get_elem?-get_or d xs i (omega arith)

  pub lt_of_get_elem? : (a : List A) (i : ℕ) {x : A} → get_elem? a i ≡ some x → i < length a
  lt_of_get_elem? [] i e = cc
  lt_of_get_elem? (x ∷ xs) zero e = omega arith
  lt_of_get_elem? (x ∷ xs) (suc i) e = omega (arith, lt_of_get_elem? xs i e)

  pub get_or_of_get_elem? :
      (d : A) (a : List A) (i : ℕ) {x : A} → get_elem? a i ≡ some x → get_or a i d ≡ x
  unfolding get_or
  get_or_of_get_elem? d [] i e = cc
  get_or_of_get_elem? d (x ∷ xs) zero e = cc
  get_or_of_get_elem? d (x ∷ xs) (suc i) e = get_or_of_get_elem? d xs i e

  pub store-ok : (a : List A) (i : ℕ) (v : A) → i < length a → store a i v ≡ ok (set a i v)
  unfolding store
  store-ok a i v h = rw (get_elem?-get_or v a i h, store)

  size_of_perm : {a b : List A} → Permᴰ a b → length a ≡ length b
  size_of_perm (Permᴰ.trans s t) = size_of_perm s ∙ size_of_perm t
  size_of_perm (Permᴰ.cons x s) = ap suc (size_of_perm s)
  size_of_perm (Permᴰ.swap x y) = refl
  size_of_perm Permᴰ.nil = refl

  pub length-perm : {a b : List A} → Perm a b → length a ≡ length b
  length-perm p = ∥∥₁_elim p (ℕ_set _ _) size_of_perm

  pub get_or-set :
      (d : A) (a : List A) (i j : ℕ) (v : A)
      → i < length a
      → get_or (set a i v) j d ≡ (if i == j then v else get_or a j d)
  unfolding get_or set
  get_or-set d [] i j v h = absurd (omega arith)
  get_or-set d (x ∷ xs) zero zero v h = refl
  get_or-set d (x ∷ xs) (suc i) (suc j) v h = ground (arith, get_or-set d xs i j v)
  get_or-set d (x ∷ xs) i j v h = ground arith

  pub get_or-set_ne :
      (d : A) (a : List A) (i j : ℕ) (v : A) → i ≢ j → get_or (set a i v) j d ≡ get_or a j d
  unfolding get_or set
  get_or-set_ne d [] i j v ne = refl
  get_or-set_ne d (x ∷ xs) zero zero v ne = absurd (ne refl)
  get_or-set_ne d (x ∷ xs) zero (suc j) v ne = refl
  get_or-set_ne d (x ∷ xs) (suc i) zero v ne = refl
  get_or-set_ne d (x ∷ xs) (suc i) (suc j) v ne = get_or-set_ne d xs i j v (λ e. ne (ap suc e))

  pub get_or-append :
      (d : A) (a b : List A) (i : ℕ) → i < length a → get_or (a ++ b) i d ≡ get_or a i d
  unfolding get_or
  get_or-append d [] b i h = absurd (omega arith)
  get_or-append d (x ∷ xs) b zero h = refl
  get_or-append d (x ∷ xs) b (suc i) h = get_or-append d xs b i (omega arith)

  pub get_or-append_last : (d : A) (a : List A) (x : A) → get_or (a ++ x ∷ []) (length a) d ≡ x
  unfolding get_or
  get_or-append_last d [] x = refl
  get_or-append_last d (y ∷ a) x = get_or-append_last d a x

  pub get_or-beyond : (d : A) (a : List A) (i : ℕ) → length a ≤ i → get_or a i d ≡ d
  unfolding get_or
  get_or-beyond d [] i h = refl
  get_or-beyond d (x ∷ xs) zero h = absurd (omega arith)
  get_or-beyond d (x ∷ xs) (suc i) h = get_or-beyond d xs i (omega arith)

  pub set-set : (a : List A) (i : ℕ) (v w : A) → set (set a i v) i w ≡ set a i w
  unfolding set
  set-set [] i v w = refl
  set-set (x ∷ xs) zero v w = refl
  set-set (x ∷ xs) (suc i) v w = ap (◌∷◌ x) (set-set xs i v w)

  pub set-get_or : (d : A) (a : List A) (i : ℕ) → set a i (get_or a i d) ≡ a
  unfolding set get_or
  set-get_or d [] i = refl
  set-get_or d (x ∷ xs) zero = refl
  set-get_or d (x ∷ xs) (suc i) = ap (◌∷◌ x) (set-get_or d xs i)

  -- a write trades the old entry for the new one
  pub set-perm :
      (d : A) (a : List A) (i : ℕ) (v : A) → i < length a → Perm (get_or a i d ∷ set a i v) (v ∷ a)
  unfolding set get_or
  set-perm d [] i v h = absurd (omega arith)
  set-perm d (x ∷ xs) zero v h = Perm.swap v x xs
  set-perm d (x ∷ xs) (suc i) v h =
      Perm.trans (Perm.swap x _ _)
        (Perm.trans (Perm.cons x (set-perm d xs i v (omega arith))) (Perm.swap v x xs))

  -- std::iter_swap(begin + i, begin + j)
  unfoldable pub iter_swap : List A → ℕ → ℕ → Run (List A)
  iter_swap a i j = do x ← load a i; y ← load a j; b ← store a i y; store b j x

  -- the list that it leaves
  unfoldable pub swapped : A → List A → ℕ → ℕ → List A
  swapped d a i j = set (set a i (get_or a j d)) j (get_or a i d)

  pub length-swapped : (d : A) (a : List A) (i j : ℕ) → length (swapped d a i j) ≡ length a
  unfolding swapped
  length-swapped d a i j = simp length-set

  module _ (d : A) (a : List A) (i j : ℕ) (hi : i < length a) (hj : j < length a) where
    pub iter_swap-ok : iter_swap a i j ≡ ok (swapped d a i j)
    unfolding iter_swap swapped
    iter_swap-ok =
        rw (load-ok d a i hi, load-ok d a j hj, store-ok a i (get_or a j d) hi)
          (store-ok _ j (get_or a i d) (rw length-set hj))

    pub get_or-swapped :
        (c : ℕ)
        → get_or (swapped d a i j) c d
          ≡ (if j == c then get_or a i d else if i == c then get_or a j d else get_or a c d)
    unfolding swapped
    get_or-swapped c = rw (
      get_or-set d (set a i (get_or a j d)) j c (get_or a i d) (rw length-set hj),
      get_or-set d a i c (get_or a j d) hi,
    )

    pub swapped-perm : Perm (swapped d a i j) a
    unfolding swapped
    swapped-perm =
        let b = set a i (get_or a j d) in
        let kept : get_or b j d ≡ get_or a j d =
          ground (arith, get_or-set d a i j (get_or a j d)) in
        let second = rw kept at (set-perm d b j (get_or a i d) (rw length-set hj)) in
        Perm.cons_inv (Perm.trans second (set-perm d a i (get_or a j d) hi))
    -- moving `a[j]` into a hole at `i` carries the hole, and what belongs in it, to `j`

module _ {ℓ} {A : Type ℓ} where
  pub move-swapped :
      (d : A) (a : List A) (i j : ℕ) (v : A)
      → i < length a
      → j < length a
      → i ≢ j
      → swapped d (set a i v) i j ≡ set (set a i (get_or a j d)) j v
  unfolding swapped
  move-swapped d a i j v hi hj ne =
      let b = set a i v in
      let at_i : get_or b i d ≡ v = ground (arith, get_or-set d a i i v hi) in
      let at_j : get_or b j d ≡ get_or a j d = ground (arith, get_or-set d a i j v hi) in
      rw (at_i, at_j, set-set)

  pub move-perm :
      (d : A) (a : List A) (i j : ℕ) (v : A)
      → i < length a
      → j < length a
      → i ≢ j
      → Perm (set (set a i (get_or a j d)) j v) (set a i v)
  move-perm d a i j v hi hj ne =
      rw (← move-swapped d a i j v hi hj ne)
        (swapped-perm d (set a i v) i j (rw length-set hi) (rw length-set hj))
