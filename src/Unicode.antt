-- ===== src/Unicode.antt =====
-- src/string/unicode_util.cpp: ForeachUtf8Char. A string is the list of its bytes before the
-- terminator, and a call of the callback is the offset and the length that it is given.
pub mod Laws
mod Tests
use mzx.Base.{
  ℕ, zero, suc, ◌-◌, Bool, true, false, ◌&&◌, ◌||◌, List, [], ◌∷◌, leb, ◌==◌, if◌then◌else◌,
}
use mzx.Array.{length, get_or}

-- `c <= 0x7f || c >= 0xc0`
unfoldable pub is_lead : ℕ → Bool
is_lead c = leb c 0x7f || leb 0xc0 c

-- what the callback returns may depend on all that it was called with before, which its arguments
-- determine
module _ (cb : ℕ → ℕ → Bool) (utf8str : List ℕ) where
  -- the `while` and what follows it, with `rounds` bytes left from `pos` on: the calls
  unfoldable pub foreach_loop : ℕ → ℕ → ℕ → List (ℕ × ℕ)
  foreach_loop zero pos prev_pos = if prev_pos == pos then [] else (prev_pos, pos - prev_pos) ∷ []
  foreach_loop (suc rounds) pos prev_pos =
      let next = foreach_loop rounds (suc pos) pos in
      let same = foreach_loop rounds (suc pos) prev_pos in
      if is_lead (get_or utf8str pos 0) && (if prev_pos == pos then false else true)
      then (prev_pos, pos - prev_pos) ∷ (if cb prev_pos (pos - prev_pos) then next else [])
      else same

  unfoldable pub foreach_utf8_char : List (ℕ × ℕ)
  unfolding foreach_loop
  foreach_utf8_char = foreach_loop (length utf8str) 0 0
