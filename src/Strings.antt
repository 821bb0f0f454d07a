-- ===== src/Strings.antt =====
-- include/mzx/string/string_util.h: Split. A string is the list of its bytes. Both overloads look for
-- the bytes of a set, which is a test here: one byte for the first, those of a string for the other.
pub mod Laws
pub mod Utf8
pub mod Trim
mod Tests
use mzx.Base.{
  ℕ, zero, suc, ◌+◌, ◌-◌, Bool, true, false, Option, none, some, List, [], ◌∷◌, ltb, if◌then◌else◌,
}
use mzx.Array.{length}
use mzx.Run.{Run, ok, out_of_fuel, ◌>>=◌}

abbrev pub drop {ℓ} : {A : Type ℓ} → ℕ → List A → List A
drop zero s = s
drop (suc n) [] = []
drop (suc n) (c ∷ s) = drop n s

abbrev pub take {ℓ} : {A : Type ℓ} → ℕ → List A → List A
take zero s = []
take (suc n) [] = []
take (suc n) (c ∷ s) = c ∷ take n s

abbrev pub next_place : Option ℕ → Option ℕ
next_place none = none
next_place (some i) = some (suc i)

-- std::string::find_first_of
abbrev pub find_first_of : (ℕ → Bool) → List ℕ → ℕ → Option ℕ
find_first_of is_delimiter [] pos = none
find_first_of is_delimiter (c ∷ s) zero =
    let later = next_place (find_first_of is_delimiter s zero) in
    if is_delimiter c then some zero else later
find_first_of is_delimiter (c ∷ s) (suc pos) = next_place (find_first_of is_delimiter s pos)

-- std::string::substr
abbrev pub substr : List ℕ → ℕ → ℕ → List ℕ
substr s pos count = take count (drop pos s)

-- the `while` of Split and what follows it, on fuel
unfoldable pub split_loop : ℕ → (ℕ → Bool) → List ℕ → ℕ → Run (List (List ℕ))
split_loop zero is_delimiter s prev_pos = out_of_fuel
split_loop (suc fuel) is_delimiter s prev_pos = elim (find_first_of is_delimiter s prev_pos) [
  | none ↦ ok (if ltb prev_pos (length s) then drop prev_pos s ∷ [] else [])
  | some pos ↦ do
    v ← split_loop fuel is_delimiter s (suc pos)
    ok (if ltb prev_pos pos then substr s prev_pos (pos - prev_pos) ∷ v else v)
]

unfoldable pub split : (ℕ → Bool) → List ℕ → Run (List (List ℕ))
unfolding split_loop
split is_delimiter s = split_loop (suc (length s)) is_delimiter s 0
