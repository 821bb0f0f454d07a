-- ===== src/Strings/Trim/Laws.antt =====
-- What the trims leave, without positions.
use mzx.Base.{
  ℕ, suc, ◌+◌, ◌-◌, ◌≡◌, refl, sym, ap, ◌∙◌, Bool, true, false, Option, none, some, List, [], ◌∷◌,
  ltb, if◌then◌else◌, arith, Bool-cases, inl, inr,
}
use mzx.Strings.{next_place}
use mzx.Strings.Trim.{
  find_first_not_of, find_last_not_of, later_or, from, up_to, between, trim_left, trim_right, trim,
}

module _ (is_trim : ℕ → Bool) where
  -- the string from the first byte that is not trimmed on
  abbrev pub strip : List ℕ → List ℕ
  strip [] = []
  strip (c ∷ s) = let rest = strip s in if is_trim c then rest else c ∷ s

  abbrev pub unless_blank : Bool → ℕ → List ℕ → List ℕ
  unless_blank trimmed c [] = if trimmed then [] else c ∷ []
  unless_blank trimmed c (d ∷ s) = c ∷ d ∷ s

  -- the string up to the last byte that is not trimmed
  abbrev pub strip_end : List ℕ → List ℕ
  strip_end [] = []
  strip_end (c ∷ s) = unless_blank (is_trim c) c (strip_end s)

  from_next :
      (c : ℕ) (s : List ℕ) (o : Option ℕ) → from is_trim (c ∷ s) (next_place o) ≡ from is_trim s o
  from_next c s none = refl
  from_next c s (some i) = refl

  pub trim_left-strip : (s : List ℕ) → trim_left is_trim s ≡ strip s
  unfolding trim_left
  trim_left-strip [] = refl
  trim_left-strip (c ∷ s) = elim (Bool-cases (is_trim c)) [
    | inl h ↦ rw h (from_next c s (find_first_not_of is_trim s) ∙ trim_left-strip s)
    | inr h ↦ rw h refl
  ]

  -- a place of a byte that stays means that the rest is not empty
  up_to_next :
      (c : ℕ) (s : List ℕ) (o : Option ℕ)
      → o ≡ find_last_not_of is_trim s
      → up_to is_trim (c ∷ s) (later_or is_trim (is_trim c) o)
        ≡ unless_blank (is_trim c) c (up_to is_trim s o)
  up_to_next c s none e = elim (Bool-cases (is_trim c)) [ inl h ↦ rw h refl | inr h ↦ rw h refl ]
  up_to_next c [] (some i) e = absurd cc
  up_to_next c (d ∷ s) (some i) e =
      let n : i + 1 ≡ suc i = omega arith in
      let k : suc i + 1 ≡ suc (suc i) = omega arith in rw (n, k) refl

  pub trim_right-strip_end : (s : List ℕ) → trim_right is_trim s ≡ strip_end s
  unfolding trim_right
  trim_right-strip_end [] = refl
  trim_right-strip_end (c ∷ s) =
      up_to_next c s (find_last_not_of is_trim s) refl
      ∙ ap (unless_blank (is_trim c) c) (trim_right-strip_end s)

  between_next :
      (c : ℕ) (s : List ℕ) (f l : Option ℕ)
      → between is_trim (c ∷ s) (next_place f) (later_or is_trim true l) ≡ between is_trim s f l
  between_next c s none l = refl
  between_next c s (some i) none = refl
  between_next c s (some i) (some j) =
      let t : ltb (suc j) (suc i) ≡ ltb j i = ground arith in
      let n : suc j + 1 - suc i ≡ j + 1 - i = omega arith in rw (t, n) refl

  between_whole : (s : List ℕ) (l : Option ℕ) → between is_trim s (some 0) l ≡ up_to is_trim s l
  between_whole s none = refl
  between_whole s (some j) =
      let t : ltb j 0 ≡ false = ground arith in
      let n : j + 1 - 0 ≡ j + 1 = omega arith in rw (t, n) refl

  strip_more : (c : ℕ) (r : List ℕ) → is_trim c ≡ true → strip (unless_blank true c r) ≡ strip r
  strip_more c [] h = refl
  strip_more c (d ∷ r) h = rw h refl

  strip_kept :
      (c : ℕ) (r : List ℕ)
      → is_trim c ≡ false
      → unless_blank false c r ≡ strip (unless_blank false c r)
  strip_kept c [] h = rw h refl
  strip_kept c (d ∷ r) h = rw h refl

  -- Trim leaves the string without the bytes of the set at its beginning and at its end; the bytes
  -- between two that stay, stay.
  pub trim-strip : (s : List ℕ) → trim is_trim s ≡ strip (strip_end s)
  unfolding trim trim_right
  trim-strip [] = refl
  trim-strip (c ∷ s) = elim (Bool-cases (is_trim c)) [
    | inl h ↦ rw h (
        between_next c s (find_first_not_of is_trim s) (find_last_not_of is_trim s)
        ∙ trim-strip s
        ∙ sym (strip_more c (strip_end s) h))
    | inr h ↦
        let r = trim_right-strip_end (c ∷ s) in
        rw h (
          between_whole (c ∷ s) (later_or is_trim false (find_last_not_of is_trim s))
          ∙ (rw h at r)
          ∙ strip_kept c (strip_end s) h)
  ]
