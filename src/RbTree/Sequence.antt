-- ===== src/RbTree/Sequence.antt =====
-- What the tree stands for: the nodes in the order of their keys.
use mzx.Base.{
  ℕ, ◌≡◌, refl, Bool, true, false, not, ◌&&◌, ◌||◌, Option, none, some, List, [], ◌∷◌, ◌++◌,
  if◌then◌else◌, arith, Bool-cases, inl, inr,
}
use mzx.Order.{IsWeakOrder}

module _ (less : ℕ → ℕ → Bool) where
  -- no node of the list goes before `x`
  abbrev pub IsAfter : ℕ → List ℕ → Type 0
  IsAfter x [] = Unit
  IsAfter x (y ∷ l) = (less y x ≡ false) × IsAfter x l

  abbrev pub IsOrdered : List ℕ → Type 0
  IsOrdered [] = Unit
  IsOrdered (x ∷ l) = IsAfter x l × IsOrdered l

  -- `x` in front of the first node that goes after it
  unfoldable pub insert_ordered : ℕ → List ℕ → List ℕ
  insert_ordered x [] = x ∷ []
  insert_ordered x (y ∷ l) =
      let rest = insert_ordered x l in if less x y then x ∷ y ∷ l else y ∷ rest

  -- the last node in front of that place
  unfoldable pub floor : ℕ → Option ℕ → List ℕ → Option ℕ
  floor x c [] = c
  floor x c (y ∷ l) = let rest = floor x (some y) l in if less x y then c else rest

  -- some node has a key that is equal to the key of `x`
  unfoldable pub has_equal : ℕ → List ℕ → Bool
  has_equal x [] = false
  has_equal x (y ∷ l) = (not (less x y) && not (less y x)) || has_equal x l

  pub insert_ordered-front :
      (x : ℕ) (a : List ℕ) (y : ℕ) (b : List ℕ)
      → less x y ≡ true
      → insert_ordered x (a ++ y ∷ b) ≡ insert_ordered x a ++ y ∷ b
  unfolding insert_ordered
  insert_ordered-front x [] y b h = rw h refl
  insert_ordered-front x (z ∷ a) y b h = elim (Bool-cases (less x z)) [
    | inl e ↦ rw e refl
    | inr e ↦ rw (e, insert_ordered-front x a y b h) refl
  ]

  pub floor-front :
      (x : ℕ) (c : Option ℕ) (a : List ℕ) (y : ℕ) (b : List ℕ)
      → less x y ≡ true
      → floor x c (a ++ y ∷ b) ≡ floor x c a
  unfolding floor
  floor-front x c [] y b h = rw h refl
  floor-front x c (z ∷ a) y b h = rw (floor-front x (some z) a y b h) refl

  after_of : (z : ℕ) (a : List ℕ) (y : ℕ) (b : List ℕ) → IsAfter z (a ++ y ∷ b) → less y z ≡ false
  after_of z [] y b (h, _) = h
  after_of z (w ∷ a) y b (_, h) = after_of z a y b h

  IsAfter-append : (z : ℕ) (a b : List ℕ) → IsAfter z (a ++ b) → IsAfter z a × IsAfter z b
  IsAfter-append z [] b h = (tt, h)
  IsAfter-append z (w ∷ a) b (h, rest) = let (p, q) = IsAfter-append z a b rest in ((h, p), q)

  pub IsOrdered-append :
      (a : List ℕ) (y : ℕ) (b : List ℕ) → IsOrdered (a ++ y ∷ b) → IsOrdered a × IsOrdered b
  IsOrdered-append [] y b (_, h) = (tt, h)
  IsOrdered-append (z ∷ a) y b (h, rest) =
      let (p, q) = IsOrdered-append a y b rest in (((IsAfter-append z a (y ∷ b) h).0, p), q)

  module _ (weak : IsWeakOrder less) where
    pub insert_ordered-back :
        (x : ℕ) (a : List ℕ) (y : ℕ) (b : List ℕ)
        → IsOrdered (a ++ y ∷ b)
        → less x y ≡ false
        → insert_ordered x (a ++ y ∷ b) ≡ a ++ y ∷ insert_ordered x b
    unfolding insert_ordered
    insert_ordered-back x [] y b s h = rw h refl
    insert_ordered-back x (z ∷ a) y b (after, s) h =
        let e = weak.trans z y x (after_of z a y b after) h in
        rw (e, insert_ordered-back x a y b s h) refl

    pub floor-back :
        (x : ℕ) (c : Option ℕ) (a : List ℕ) (y : ℕ) (b : List ℕ)
        → IsOrdered (a ++ y ∷ b)
        → less x y ≡ false
        → floor x c (a ++ y ∷ b) ≡ floor x (some y) b
    unfolding floor
    floor-back x c [] y b s h = rw h refl
    floor-back x c (z ∷ a) y b (after, s) h =
        let e = weak.trans z y x (after_of z a y b after) h in
        rw (e, floor-back x (some z) a y b s h) refl

    IsAfter-trans : (x y : ℕ) (l : List ℕ) → less y x ≡ false → IsAfter y l → IsAfter x l
    IsAfter-trans x y [] h s = tt
    IsAfter-trans x y (z ∷ l) h (e, s) = (weak.trans x y z h e, IsAfter-trans x y l h s)

    IsAfter-insert :
        (z x : ℕ) (l : List ℕ) → less x z ≡ false → IsAfter z l → IsAfter z (insert_ordered x l)
    unfolding insert_ordered
    IsAfter-insert z x [] h s = (h, tt)
    IsAfter-insert z x (y ∷ l) h (e, s) = elim (Bool-cases (less x y)) [
      | inl q ↦ rw q (h, (e, s))
      | inr q ↦ rw q (e, IsAfter-insert z x l h s)
    ]

    pub insert_ordered-IsOrdered :
        (x : ℕ) (l : List ℕ) → IsOrdered l → IsOrdered (insert_ordered x l)
    unfolding insert_ordered
    insert_ordered-IsOrdered x [] s = (tt, tt)
    insert_ordered-IsOrdered x (y ∷ l) (after, s) = elim (Bool-cases (less x y)) [
      | inl q ↦ rw q ((weak.asymm x y q, IsAfter-trans x y l (weak.asymm x y q) after), (after, s))
      | inr q ↦ rw q (IsAfter-insert y x l q after, insert_ordered-IsOrdered x l s)
    ]

    none_equal : (x y : ℕ) (l : List ℕ) → less x y ≡ true → IsAfter y l → has_equal x l ≡ false
    unfolding has_equal
    none_equal x y [] h s = refl
    none_equal x y (z ∷ l) h (e, s) = ground (arith, none_equal x y l h s, weak.trans y z x e, h)

    -- the node in front of the place tells whether a key is equal
    abbrev pub is_equal : ℕ → Option ℕ → Bool
    is_equal x none = false
    is_equal x (some c) = not (less c x)

    floor-some :
        (x c : ℕ) (l : List ℕ)
        → IsAfter c l
        → IsOrdered l
        → less x c ≡ false
        → is_equal x (floor x (some c) l) ≡ (not (less c x) || has_equal x l)
    unfolding floor has_equal
    floor-some x c [] after s h = ground arith
    floor-some x c (y ∷ l) (e, after) (rest, s) h = elim (Bool-cases (less x y)) [
      | inl q ↦ rw (q, none_equal x y l q rest) (ground arith)
      | inr q ↦ rw (q, floor-some x y l rest s q) (let t = weak.trans x c y in ground (arith, t, e))
    ]

    pub is_equal-floor :
        (x : ℕ) (l : List ℕ) → IsOrdered l → is_equal x (floor x none l) ≡ has_equal x l
    unfolding floor has_equal
    is_equal-floor x [] s = refl
    is_equal-floor x (y ∷ l) (after, s) = elim (Bool-cases (less x y)) [
      | inl q ↦ rw (q, none_equal x y l q after) refl
      | inr q ↦ rw (q, floor-some x y l after s q) refl
    ]
