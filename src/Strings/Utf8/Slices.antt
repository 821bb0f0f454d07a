-- ===== src/Strings/Utf8/Slices.antt =====
-- The characters and the substrings that the offsets cut out.
use mathlib.Core.List.{append-nil}
use mzx.Base.{
  ℕ, zero, suc, ◌+◌, ◌-◌, ◌≤◌, ◌<◌, ◌≡◌, refl, sym, ap, ◌∙◌, false, none, some, List, [], ◌∷◌, ◌++◌,
  leb, ◌==◌, arith, Bool-cases, inl, inr,
}
use mzx.Array.{length, get_elem?}
use mzx.Unicode.{is_lead}
use mzx.Strings.{take, drop}
use mzx.Strings.Utf8.{
  Utf8String, offsets_from, update_offset, new, from_c_str, offset_at, substring, char_string,
  utf8_length,
}
use mzx.Strings.Utf8.Laws.{
  run, chars, concat, nth, until, until-chars, length-offsets_from, utf8_length-chars,
}

drop_next : (i c : ℕ) (s t : List ℕ) → drop i t ≡ c ∷ s → drop (suc i) t ≡ s
drop_next zero c s [] e = absurd cc
drop_next zero c s (x ∷ t) e = ap tail e
  where
    tail : List ℕ → List ℕ
    tail [] = []
    tail (y ∷ l) = l
drop_next (suc i) c s [] e = absurd cc
drop_next (suc i) c s (x ∷ t) e = drop_next i c s t e

-- `m` characters from the one at `index` on, as the offsets cut them out of `t`
cut : List ℕ → List ℕ → ℕ → ℕ → List ℕ
cut t offs index m = elim (get_elem? offs index) [
  | none ↦ []
  | some o ↦ until o (drop o t) (get_elem? offs (index + m))
]

cut_next : (t offs : List ℕ) (i k m : ℕ) → cut t (i ∷ offs) (suc k) m ≡ cut t offs k m
unfolding cut
cut_next t offs i k m =
    let n : suc k + m ≡ suc (k + m) = omega arith in
    ap
      (λ j. elim (get_elem? offs k) [
        | none ↦ []
        | some o ↦ until o (drop o t) (get_elem? (i ∷ offs) j)
      ])
      n

cut-chars :
    (i : ℕ) (s t : List ℕ) (index m : ℕ)
    → drop i t ≡ s
    → cut t (offsets_from i s) index (suc m) ≡ concat (take (suc m) (drop index (chars s)))
unfolding cut offsets_from
cut-chars i [] t zero m e = refl
cut-chars i [] t (suc index) m e = refl
cut-chars i (c ∷ s) t index m e = elim (Bool-cases (is_lead c)) [
  | inl h ↦ rw h (
      at (rw h at (until-chars i (c ∷ s) (suc m))) index
        (λ k. cut-chars (suc i) s t k m (drop_next i c s t e)))
  | inr h ↦ rw h (cut-chars (suc i) s t index m (drop_next i c s t e))
]
  where
    at :
        until i (c ∷ s) (get_elem? (i ∷ offsets_from (suc i) s) (suc m))
          ≡ concat (take (suc m) ((c ∷ run s) ∷ chars s))
        → (k : ℕ)
        → ((j : ℕ)
            → cut t (offsets_from (suc i) s) j (suc m) ≡ concat (take (suc m) (drop j (chars s))))
        → cut t (i ∷ offsets_from (suc i) s) k (suc m)
          ≡ concat (take (suc m) (drop k ((c ∷ run s) ∷ chars s)))
    at head zero rest = let n : 0 + suc m ≡ suc m = omega arith in rw (n, e) head
    at head (suc k) rest = cut_next t (offsets_from (suc i) s) i k (suc m) ∙ rest k

get_elem?-none {ℓ} : {A : Type ℓ} (l : List A) (i : ℕ) → length l ≤ i → get_elem? l i ≡ none
get_elem?-none [] i h = refl
get_elem?-none (x ∷ l) zero h = absurd (omega (arith, h))
get_elem?-none (x ∷ l) (suc i) h = get_elem?-none l i (omega (arith, h))

get_elem?-some {ℓ} :
    {A : Type ℓ} (l : List A) (i : ℕ) → i < length l → (x : A) × (get_elem? l i ≡ some x)
get_elem?-some [] i h = absurd (omega (arith, h))
get_elem?-some (x ∷ l) zero h = (x, refl)
get_elem?-some (x ∷ l) (suc i) h = get_elem?-some l i (omega (arith, h))

new_fields : (t : List ℕ) → new t ≡ record { str = t; offset_list = offsets_from 0 t }
unfolding new update_offset offsets_from
new_fields [] = refl
new_fields (c ∷ s) = refl

from_c_str-drop : (t : List ℕ) (o : ℕ) → from_c_str t ≡ t → from_c_str (drop o t) ≡ drop o t
from_c_str-drop t zero e = e
from_c_str-drop [] (suc o) e = refl
from_c_str-drop (c ∷ t) (suc o) e = elim (Bool-cases (c == 0)) [
  | inl h ↦ absurd (ground (arith, rw h at e))
  | inr h ↦ from_c_str-drop t o (ap tail (rw h at e))
]
  where
    tail : List ℕ → List ℕ
    tail [] = []
    tail (y ∷ l) = l

-- Substring of a string without the byte 0 is the sequence of its characters from the index on, at
-- most as many as it is asked for; past the last character, or for none, it is empty.
pub substring-chars :
    (t : List ℕ) (index len : ℕ)
    → from_c_str t ≡ t
    → substring index len (new t) ≡ concat (take len (drop index (chars t)))
unfolding substring cut
substring-chars t index zero e = refl
substring-chars t index (suc m) e =
    let offs = offsets_from 0 t in
    let c = cut-chars 0 t t index m refl in
    let z : (suc m == 0) ≡ false = ground arith in
    rw new_fields (elim (Bool-cases (leb (length offs) index)) [
      | inl h ↦ rw (z, h) (rw (cut, get_elem?-none offs index (ground (arith, h))) at c)
      | inr h ↦
          let (o, q) = get_elem?-some offs index (ground (arith, h)) in
          rw (z, h, offset_at, q)
            (elim (Bool-cases (leb (length offs - index) (suc m))) [
              | inl r ↦
                  rw (r, from_c_str-drop t o e)
                    (rw (cut, q, get_elem?-none offs (index + suc m) (ground (arith, r, h))) at c)
              | inr r ↦
                  let (o', q') = get_elem?-some offs (index + suc m) (ground (arith, r, h)) in
                  rw (r, offset_at, q') (rw (cut, q, q') at c)
            ])
    ])

take_all : (s : List ℕ) → take (length s) s ≡ s
take_all [] = refl
take_all (c ∷ s) = ap (λ t. c ∷ t) (take_all s)

length-drop : (i : ℕ) (s : List ℕ) → length (drop i s) ≡ length s - i
length-drop zero s = omega arith
length-drop (suc i) [] = omega arith
length-drop (suc i) (c ∷ s) = let h = length-drop i s in omega (arith, h)

concat-take : (l : List (List ℕ)) (i : ℕ) → concat (take 1 (drop i l)) ≡ nth l i
concat-take [] zero = refl
concat-take [] (suc i) = refl
concat-take (a ∷ l) zero = append-nil a
concat-take (a ∷ l) (suc i) = concat-take l i

-- The index operator gives the character at the index, and the empty string past the last one; the
-- bytes before the first leading byte are in none.
pub char_string-chars : (t : List ℕ) (index : ℕ) → char_string index (new t) ≡ nth (chars t) index
unfolding char_string cut
char_string-chars t index =
    let offs = offsets_from 0 t in
    let c = cut-chars 0 t t index 0 refl ∙ concat-take (chars t) index in
    rw new_fields (elim (Bool-cases (leb (length offs) index)) [
      | inl h ↦ rw h (rw (cut, get_elem?-none offs index (ground (arith, h))) at c)
      | inr h ↦
          let (o, q) = get_elem?-some offs index (ground (arith, h)) in
          rw (h, offset_at, q)
            (elim (Bool-cases (leb (length offs) (index + 1))) [
              | inl r ↦
                  rw (r, sym (length-drop o t), take_all (drop o t))
                    (rw (cut, q, get_elem?-none offs (index + 1) (ground (arith, r))) at c)
              | inr r ↦
                  let (o', q') = get_elem?-some offs (index + 1) (ground (arith, r)) in
                  rw (r, offset_at, q') (rw (cut, q, q') at c)
            ])
    ])

-- the characters that the index operator gives from `index` on
abbrev pub chars_at : ℕ → ℕ → Utf8String → List ℕ
chars_at zero index u = []
chars_at (suc count) index u = char_string index u ++ chars_at count (suc index) u

run-chars : (s : List ℕ) → run s ++ concat (chars s) ≡ s
run-chars [] = refl
run-chars (c ∷ s) = elim (Bool-cases (is_lead c)) [
  | inl h ↦ rw h (ap (λ t. c ∷ t) (run-chars s))
  | inr h ↦ rw h (ap (λ t. c ∷ t) (run-chars s))
]

drop_past : (l : List (List ℕ)) (i : ℕ) → length l ≤ i → drop i l ≡ []
drop_past [] zero h = refl
drop_past [] (suc i) h = refl
drop_past (a ∷ l) zero h = absurd (omega (arith, h))
drop_past (a ∷ l) (suc i) h = drop_past l i (omega (arith, h))

concat-drop : (l : List (List ℕ)) (i : ℕ) → concat (drop i l) ≡ nth l i ++ concat (drop (suc i) l)
concat-drop [] zero = refl
concat-drop [] (suc i) = refl
concat-drop (a ∷ l) zero = refl
concat-drop (a ∷ l) (suc i) = concat-drop l i

chars_at-drop :
    (count index : ℕ) (t : List ℕ)
    → index + count ≡ length (chars t)
    → chars_at count index (new t) ≡ concat (drop index (chars t))
chars_at-drop zero index t e = ap concat (sym (drop_past (chars t) index (omega (arith, e))))
chars_at-drop (suc count) index t e =
    ap (λ w. w ++ chars_at count (suc index) (new t)) (char_string-chars t index)
    ∙ ap (λ w. nth (chars t) index ++ w) (chars_at-drop count (suc index) t (omega (arith, e)))
    ∙ sym (concat-drop (chars t) index)

-- Length is the number of leading bytes, and when the string begins with one, what the index
-- operator gives at the places below Length is together the string.
pub chars_at-new :
    (t : List ℕ)
    → run t ≡ []
    → (length (new t).offset_list ≡ utf8_length t)
      × (chars_at (length (new t).offset_list) 0 (new t) ≡ t)
chars_at-new t e =
    let n : length (new t).offset_list ≡ length (chars t) =
      ap (λ u. length u.offset_list) (new_fields t) ∙ length-offsets_from 0 t in
    (
      n ∙ sym (utf8_length-chars t),
      rw n (
          chars_at-drop (length (chars t)) 0 t (omega arith)
          ∙ sym (ap (λ w. w ++ concat (chars t)) e)
          ∙ run-chars t),
    )
