-- ===== src/Strings/Utf8.antt =====
-- src/string/utf8_string.cpp: strings with the offsets of their characters.
pub mod Laws
pub mod Slices
mod Tests
use mzx.Base.{
  ℕ, zero, suc, ◌+◌, ◌-◌, Bool, true, false, Option, none, some, List, [], ◌∷◌, ◌++◌, ◌||◌, ltb,
  leb, ◌==◌, if◌then◌else◌,
}
use mzx.Array.{length, get_elem?}
use mzx.Unicode.{is_lead}
use mzx.Strings.{take, drop, substr}

pub record Utf8String : Type 0 where
  pub str : List ℕ
  pub offset_list : List ℕ

-- the `for` of UpdateOffset from `i` on
unfoldable pub offsets_from : ℕ → List ℕ → List ℕ
offsets_from i [] = []
offsets_from i (c ∷ s) = let rest = offsets_from (suc i) s in if is_lead c then i ∷ rest else rest

unfoldable pub update_offset : Utf8String → Utf8String
unfolding offsets_from
update_offset u = elim u.str [ [] ↦ u | c ∷ s ↦ record u { offset_list = offsets_from 0 u.str } ]

unfoldable pub new : List ℕ → Utf8String
unfolding update_offset
new str = update_offset (record { str = str; offset_list = [] })

-- the bytes before the first that is 0: std::string(const char *)
abbrev pub from_c_str : List ℕ → List ℕ
from_c_str [] = []
from_c_str (c ∷ s) = let rest = from_c_str s in if c == 0 then [] else c ∷ rest

-- `offset_list_[index]`, where the code has made sure that it is there
abbrev pub offset_at : Utf8String → ℕ → ℕ
offset_at u index = elim (get_elem? u.offset_list index) [ none ↦ 0 | some o ↦ o ]

-- the offset and the length of the character, and `none` for nullptr
unfoldable pub char_at : ℕ → Utf8String → Option (ℕ × ℕ)
char_at index u =
    let o = offset_at u index in
    if leb (length u.offset_list) index
    then none
    else (if leb (length u.offset_list) (index + 1)
        then some (o, length u.str - o)
        else some (o, offset_at u (index + 1) - o))

unfoldable pub substring : ℕ → ℕ → Utf8String → List ℕ
substring index len u =
    let o = offset_at u index in
    if (len == 0) || leb (length u.offset_list) index
    then []
    else (if leb (length u.offset_list - index) len
        then from_c_str (drop o u.str)
        else substr u.str o (offset_at u (index + len) - o))

unfoldable pub utf8_substring : ℕ → ℕ → Utf8String → Utf8String
unfolding substring new
utf8_substring index len u = new (substring index len u)

-- operator[]
unfoldable pub char_string : ℕ → Utf8String → List ℕ
char_string index u =
    let o = offset_at u index in
    if leb (length u.offset_list) index
    then []
    else (if leb (length u.offset_list) (index + 1)
        then substr u.str o (length u.str - o)
        else substr u.str o (offset_at u (index + 1) - o))

-- operator+
unfoldable pub plus : Utf8String → Utf8String → Utf8String
unfolding new
plus u v = new (u.str ++ v.str)

-- the static Length
unfoldable pub utf8_length : List ℕ → ℕ
utf8_length [] = 0
utf8_length (c ∷ s) = (if is_lead c then 1 else 0) + utf8_length s
