-- ===== src/Strings/Utf8/Laws.antt =====
-- A string of Utf8String is the sequence of its characters.
use mzx.Base.{
  ℕ, zero, suc, ◌-◌, ◌≤◌, ◌≡◌, refl, ap, ◌∙◌, Option, none, some, List, [], ◌∷◌, ◌++◌,
  if◌then◌else◌, arith, Bool-cases, inl, inr,
}
use mzx.Array.{length, get_elem?}
use mzx.Unicode.{is_lead}
use mzx.Strings.{take}
use mzx.Strings.Utf8.{offsets_from, utf8_length}

-- the bytes up to the next character
abbrev pub run : List ℕ → List ℕ
run [] = []
run (c ∷ s) = let rest = run s in if is_lead c then [] else c ∷ rest

-- the characters; bytes before the first leading byte belong to none
abbrev pub chars : List ℕ → List (List ℕ)
chars [] = []
chars (c ∷ s) = let rest = chars s in if is_lead c then (c ∷ run s) ∷ rest else rest

abbrev pub concat : List (List ℕ) → List ℕ
concat [] = []
concat (a ∷ l) = a ++ concat l

abbrev pub nth : List (List ℕ) → ℕ → List ℕ
nth [] i = []
nth (a ∷ l) zero = a
nth (a ∷ l) (suc i) = nth l i

pub length-offsets_from : (i : ℕ) (s : List ℕ) → length (offsets_from i s) ≡ length (chars s)
unfolding offsets_from
length-offsets_from i [] = refl
length-offsets_from i (c ∷ s) = elim (Bool-cases (is_lead c)) [
  | inl e ↦ rw e (ap suc (length-offsets_from (suc i) s))
  | inr e ↦ rw e (length-offsets_from (suc i) s)
]

pub utf8_length-chars : (s : List ℕ) → utf8_length s ≡ length (chars s)
unfolding utf8_length
utf8_length-chars [] = refl
utf8_length-chars (c ∷ s) = let h = utf8_length-chars s in ground (arith, h)

-- the bytes from `j` to before the offset, and all for none
abbrev pub until : ℕ → List ℕ → Option ℕ → List ℕ
until j s none = s
until j s (some o) = take (o - j) s

past : (j : ℕ) (s : List ℕ) (m o : ℕ) → get_elem? (offsets_from j s) m ≡ some o → j ≤ o
unfolding offsets_from
past j [] m o e = absurd (ground (arith, e))
past j (c ∷ s) m o e = elim (Bool-cases (is_lead c)) [
  | inl h ↦ at (λ k. past (suc j) s k o) m (rw h at e)
  | inr h ↦ let q = past (suc j) s m o (rw h at e) in omega (arith, q)
]
  where
    at :
        ((k : ℕ) → get_elem? (offsets_from (suc j) s) k ≡ some o → suc j ≤ o)
        → (k : ℕ) → get_elem? (j ∷ offsets_from (suc j) s) k ≡ some o
        → j ≤ o
    at rest zero q = ground (arith, q)
    at rest (suc k) q = let r = rest k q in omega (arith, r)

take_shifted :
    (j c : ℕ) (s : List ℕ) (o : Option ℕ)
    → ((x : ℕ) → o ≡ some x → suc j ≤ x)
    → until j (c ∷ s) o ≡ c ∷ until (suc j) s o
take_shifted j c s none h = refl
take_shifted j c s (some x) h =
    let le = h x refl in let e : x - j ≡ suc (x - suc j) = omega (arith, le) in rw e refl

-- the first `m` characters end where the offset says
pub until-chars :
    (j : ℕ) (s : List ℕ) (m : ℕ)
    → until j s (get_elem? (offsets_from j s) m) ≡ run s ++ concat (take m (chars s))
unfolding offsets_from
until-chars j [] zero = refl
until-chars j [] (suc m) = refl
until-chars j (c ∷ s) m = elim (Bool-cases (is_lead c)) [
  | inl h ↦ rw h (at (λ k. until-chars (suc j) s k) m)
  | inr h ↦ rw h (
      take_shifted j c s (get_elem? (offsets_from (suc j) s) m) (past (suc j) s m)
      ∙ ap (λ t. c ∷ t) (until-chars (suc j) s m))
]
  where
    none_left : (j x : ℕ) (s : List ℕ) → take (j - j) (x ∷ s) ≡ []
    none_left j x s = let e : j - j ≡ 0 = omega arith in rw e refl

    at :
        ((k : ℕ)
          → until (suc j) s (get_elem? (offsets_from (suc j) s) k)
            ≡ run s ++ concat (take k (chars s)))
        → (k : ℕ)
        → until j (c ∷ s) (get_elem? (j ∷ offsets_from (suc j) s) k)
          ≡ concat (take k ((c ∷ run s) ∷ chars s))
    at rest zero = none_left j c s
    at rest (suc k) =
        take_shifted j c s (get_elem? (offsets_from (suc j) s) k) (λ o. past (suc j) s k o)
        ∙ ap (λ t. c ∷ t) (rest k)
