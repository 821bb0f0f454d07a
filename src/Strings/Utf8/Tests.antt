-- ===== src/Strings/Utf8/Tests.antt =====
-- A string of two characters, one byte and two, and one with the byte 0.
use mzx.Base.{ℕ, ◌≡◌, refl, some, List, [], ◌∷◌}
use mzx.Array.{length}
use mzx.Unicode.{is_lead}
use mzx.Strings.{take, drop}
use mzx.Strings.Utf8.{
  offsets_from, update_offset, new, char_at, substring, char_string, utf8_substring, plus,
  utf8_length,
}
use mzx.Strings.Utf8.Laws.{chars, concat, nth}
use mzx.Strings.Utf8.Slices.{chars_at, substring-chars, char_string-chars, chars_at-new}

abbrev text : List ℕ
text = 0x61 ∷ 0xc3 ∷ 0xa9 ∷ []

substring-chars_example : substring 1 5 (new text) ≡ concat (take 5 (drop 1 (chars text)))
substring-chars_example = substring-chars text 1 5 refl

char_string-chars_example : char_string 1 (new text) ≡ nth (chars text) 1
char_string-chars_example = char_string-chars text 1

chars_at-new_example :
    (length (new text).offset_list ≡ utf8_length text)
    × (chars_at (length (new text).offset_list) 0 (new text) ≡ text)
unfolding is_lead
chars_at-new_example = chars_at-new text refl

second_char : char_at 1 (new text) ≡ some (1, 2)
unfolding char_at new update_offset offsets_from is_lead
second_char = refl

first_of_sum :
    substring 0 3 (plus (new text) (utf8_substring 0 1 (new text))) ≡ 0x61 ∷ 0xc3 ∷ 0xa9 ∷ 0x61 ∷ []
unfolding substring plus utf8_substring new update_offset offsets_from is_lead
first_of_sum = refl

-- Substring to the end stops at a byte 0
cut_short : substring 0 3 (new (0x61 ∷ 0 ∷ 0x62 ∷ [])) ≡ 0x61 ∷ []
unfolding substring new update_offset offsets_from is_lead
cut_short = refl
