-- ===== src/Unicode/Tests.antt =====
-- Runs of ForeachUtf8Char.
use mzx.Base.{ℕ, ◌≡◌, List, [], ◌∷◌, refl, true, leb}
use mzx.Array.{length, get_or}
use mzx.Unicode.{foreach_utf8_char, is_lead}
use mzx.Unicode.Laws.{AreRuns, foreach_utf8_char-AreRuns}

-- an ASCII letter, a Chinese character of three bytes, and another letter
abbrev utf8str : List ℕ
utf8str = 0x61 ∷ 0xe4 ∷ 0xb8 ∷ 0xad ∷ 0x62 ∷ []

all_test : foreach_utf8_char (λ s len. true) utf8str ≡ (0, 1) ∷ (1, 3) ∷ (4, 1) ∷ []
unfolding foreach_utf8_char is_lead get_or
all_test = refl

-- the callback stops at the first character of more than one byte
stop_test : foreach_utf8_char (λ s len. leb len 1) utf8str ≡ (0, 1) ∷ (1, 3) ∷ []
unfolding foreach_utf8_char is_lead get_or
stop_test = refl

foreach_utf8_char-AreRuns_example :
    AreRuns utf8str (foreach_utf8_char (λ s len. true) utf8str) 0 (length utf8str)
foreach_utf8_char-AreRuns_example = foreach_utf8_char-AreRuns utf8str
