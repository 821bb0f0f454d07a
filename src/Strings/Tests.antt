-- ===== src/Strings/Tests.antt =====
-- Split and Trim at concrete strings.
use mzx.Base.{ℕ, Bool, ◌≡◌, refl, List, [], ◌∷◌, ◌==◌}
use mzx.Run.{ok}
use mzx.Strings.{split}
use mzx.Strings.Laws.{words, split-words}
use mzx.Strings.Trim.{trim}
use mzx.Strings.Trim.Laws.{strip, strip_end, trim-strip}

abbrev text : List ℕ
text = 32 ∷ 97 ∷ 98 ∷ 32 ∷ 32 ∷ 99 ∷ []

split-words_example : split (λ c. c == 32) text ≡ ok (words (λ c. c == 32) [] text)
split-words_example = split-words (λ c. c == 32) text

split_test : split (λ c. c == 32) text ≡ ok ((97 ∷ 98 ∷ []) ∷ (99 ∷ []) ∷ [])
unfolding split
split_test = refl

-- the spaces around two words
abbrev is_blank : ℕ → Bool
is_blank c = c == 0x20

abbrev padded : List ℕ
padded = 0x20 ∷ 0x61 ∷ 0x20 ∷ 0x62 ∷ 0x20 ∷ 0x20 ∷ []

trim-strip_example : trim is_blank padded ≡ strip is_blank (strip_end is_blank padded)
trim-strip_example = trim-strip is_blank padded

trimmed : trim is_blank padded ≡ 0x61 ∷ 0x20 ∷ 0x62 ∷ []
unfolding trim
trimmed = refl
