-- ===== src/Order.antt =====
-- The Compare argument of the sorts and of the tree: a strict weak order, as the standard library
-- asks of it.
use mzx.Base.{ℕ, ◌<◌, ◌≡◌, Bool, true, false, List, some, arith, ltb}
use mzx.Array.{length, get_elem?, get_or, lt_of_get_elem?, get_or_of_get_elem?}

module _ {ℓ} {A : Type ℓ} where
  pub record IsWeakOrder (comp : A → A → Bool) : Type ℓ where
    pub asymm : (x y : A) → comp x y ≡ true → comp y x ≡ false
    pub trans : (x y z : A) → comp y x ≡ false → comp z y ≡ false → comp z x ≡ false

  -- no later element goes before an earlier one
  abbrev pub IsSorted : (A → A → Bool) → List A → Type ℓ
  IsSorted comp a =
      (i j : ℕ) (x y : A)
      → i < j
      → get_elem? a i ≡ some x
      → get_elem? a j ≡ some y
      → comp y x ≡ false

  -- the same of the first `n` elements, through `get_or`
  abbrev pub SortedTo : (A → A → Bool) → A → ℕ → List A → Type 0
  SortedTo comp d n a = (i j : ℕ) → i < j → j < n → comp (get_or a j d) (get_or a i d) ≡ false

  pub IsSorted-SortedTo :
      (comp : A → A → Bool) (d : A) (n : ℕ) (a : List A)
      → length a ≡ n
      → SortedTo comp d n a
      → IsSorted comp a
  IsSorted-SortedTo comp d n a size s i j x y lt ex ey = ground (
    arith,
    lt_of_get_elem? a j ey,
    get_or_of_get_elem? d a i ex,
    get_or_of_get_elem? d a j ey,
    s i j lt,
  )

-- std::less on numbers
pub ltb-IsWeakOrder : IsWeakOrder ltb
ltb-IsWeakOrder = record { asymm = λ x y h. ground arith; trans = λ x y z p q. ground arith }
