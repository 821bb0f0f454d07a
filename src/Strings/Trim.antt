-- ===== src/Strings/Trim.antt =====
-- include/mzx/string/string_util.h: TrimLeft, TrimRight and Trim. Both overloads of each take off
-- the bytes of a set, which is the test `is_trim` here.
pub mod Laws
use mzx.Base.{ℕ, zero, suc, ◌+◌, ◌-◌, Bool, Option, none, some, List, [], ◌∷◌, ltb, if◌then◌else◌}
use mzx.Strings.{drop, substr, next_place}

module _ (is_trim : ℕ → Bool) where
  -- std::string::find_first_not_of
  abbrev pub find_first_not_of : List ℕ → Option ℕ
  find_first_not_of [] = none
  find_first_not_of (c ∷ s) =
      let later = next_place (find_first_not_of s) in if is_trim c then later else some zero

  abbrev pub later_or : Bool → Option ℕ → Option ℕ
  later_or trimmed none = if trimmed then none else some zero
  later_or trimmed (some i) = some (suc i)

  -- std::string::find_last_not_of
  abbrev pub find_last_not_of : List ℕ → Option ℕ
  find_last_not_of [] = none
  find_last_not_of (c ∷ s) = later_or (is_trim c) (find_last_not_of s)

  abbrev pub from : List ℕ → Option ℕ → List ℕ
  from s none = []
  from s (some pos) = drop pos s

  abbrev pub up_to : List ℕ → Option ℕ → List ℕ
  up_to s none = []
  up_to s (some pos) = substr s 0 (pos + 1)

  abbrev pub between : List ℕ → Option ℕ → Option ℕ → List ℕ
  between s none end_pos = []
  between s (some begin_pos) none = []
  between s (some begin_pos) (some end_pos) =
      if ltb end_pos begin_pos then [] else substr s begin_pos (end_pos + 1 - begin_pos)

  unfoldable pub trim_left : List ℕ → List ℕ
  trim_left s = from s (find_first_not_of s)

  unfoldable pub trim_right : List ℕ → List ℕ
  trim_right s = up_to s (find_last_not_of s)

  unfoldable pub trim : List ℕ → List ℕ
  trim s = between s (find_first_not_of s) (find_last_not_of s)
