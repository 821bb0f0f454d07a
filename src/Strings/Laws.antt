-- ===== src/Strings/Laws.antt =====
-- Split cuts a string into its words.
use mzx.Base.{
  ℕ, zero, suc, ◌+◌, ◌-◌, ◌<◌, ◌≡◌, refl, sym, ap, ◌∙◌, Bool, true, false, Option, none, some, List,
  [], ◌∷◌, ◌++◌, ltb, if◌then◌else◌, arith, Bool-cases, Option-cases, inl, inr,
}
use mathlib.Core.Path.{subst}
use mathlib.Core.List.{append_assoc, append-nil}
use mzx.Array.{length}
use mzx.Run.{ok}
use mzx.Strings.{drop, take, next_place, find_first_of, split_loop, split}

abbrev pub unless_empty : List ℕ → List (List ℕ)
unless_empty [] = []
unless_empty (c ∷ s) = (c ∷ s) ∷ []

-- the words of the string, where `word` is the part of the first one that has been read
unfoldable pub words : (ℕ → Bool) → List ℕ → List ℕ → List (List ℕ)
words is_delimiter word [] = unless_empty word
words is_delimiter word (c ∷ s) =
    let ended = unless_empty word ++ words is_delimiter [] s in
    let longer = words is_delimiter (word ++ c ∷ []) s in if is_delimiter c then ended else longer

module _ (p : ℕ → Bool) where
  abbrev moved : ℕ → Option ℕ → Option ℕ
  moved pos none = none
  moved pos (some k) = some (pos + k)

  next_moved : (pos : ℕ) (q : Option ℕ) → next_place (moved pos q) ≡ moved (suc pos) q
  next_moved pos none = refl
  next_moved pos (some k) = ap some (omega arith)

  moved_zero : (q : Option ℕ) → q ≡ moved 0 q
  moved_zero none = refl
  moved_zero (some k) = ap some (omega arith)

  find_drop :
      (s : List ℕ) (pos : ℕ) → find_first_of p s pos ≡ moved pos (find_first_of p (drop pos s) 0)
  find_drop [] zero = refl
  find_drop [] (suc pos) = refl
  find_drop (c ∷ s) zero = moved_zero (find_first_of p (c ∷ s) 0)
  find_drop (c ∷ s) (suc pos) =
      ap next_place (find_drop s pos) ∙ next_moved pos (find_first_of p (drop pos s) 0)

  next_none : (q : Option ℕ) → next_place q ≡ none → q ≡ none
  next_none none e = refl
  next_none (some k) e = absurd (ground arith)

  words-none :
      (word u : List ℕ) → find_first_of p u 0 ≡ none → words p word u ≡ unless_empty (word ++ u)
  unfolding words
  words-none word [] e = ap unless_empty (sym (append-nil word))
  words-none word (c ∷ u) e = elim (Bool-cases (p c)) [
    | inl h ↦ absurd (ground arith)
    | inr h ↦
        let later : next_place (find_first_of p u 0) ≡ none =
          sym (ap (λ (b : Bool). if b then some zero else next_place (find_first_of p u 0)) h)
          ∙ e in
        rw h (
          words-none (word ++ c ∷ []) u (next_none (find_first_of p u 0) later)
          ∙ ap unless_empty (append_assoc word (c ∷ []) u))
  ]

  words-some :
      (word u : List ℕ) (k : ℕ)
      → find_first_of p u 0 ≡ some k
      → words p word u ≡ unless_empty (word ++ take k u) ++ words p [] (drop (suc k) u)
  unfolding words
  words-some word [] k e = absurd (ground arith)
  words-some word (c ∷ u) k e = elim (Bool-cases (p c)) [
    | inl h ↦
        let first : zero ≡ k = ground arith in
        rw h (
          subst
            (λ k.
              unless_empty word ++ words p [] u
              ≡ unless_empty (word ++ take k (c ∷ u)) ++ words p [] (drop k u))
            first (rw (append-nil word) refl))
    | inr h ↦ elim (Option-cases (find_first_of p u 0)) [
      | inl q ↦ absurd (ground arith)
      | inr (j, q) ↦
          let later : suc j ≡ k = ground arith in
          rw h (
            subst
              (λ k.
                words p (word ++ c ∷ []) u
                ≡ unless_empty (word ++ take k (c ∷ u)) ++ words p [] (drop k u))
              later
              (words-some (word ++ c ∷ []) u j q
                ∙ ap (λ w. unless_empty w ++ words p [] (drop (suc j) u))
                    (append_assoc word (c ∷ []) (take j u))))
    ]
  ]

  drop_empty : (n : ℕ) → drop {A = ℕ} n [] ≡ []
  drop_empty zero = refl
  drop_empty (suc n) = refl

  drop-drop : (s : List ℕ) (a b : ℕ) → drop b (drop a s) ≡ drop (a + b) s
  drop-drop s zero b = ap (λ n. drop n s) (omega arith)
  drop-drop [] (suc a) b = drop_empty b ∙ sym (drop_empty (suc a + b))
  drop-drop (c ∷ s) (suc a) b = drop-drop s a b ∙ ap (λ n. drop n (c ∷ s)) (succ a b)
    where
      succ : (a b : ℕ) → suc (a + b) ≡ suc a + b
      succ a b = omega arith

  length_drop : (s : List ℕ) (a : ℕ) → length (drop a s) ≡ length s - a
  length_drop s zero = omega arith
  length_drop [] (suc a) = omega arith
  length_drop (c ∷ s) (suc a) = length_drop s a ∙ omega arith

  find_lt : (u : List ℕ) (k : ℕ) → find_first_of p u 0 ≡ some k → k < length u
  find_lt [] k e = absurd (ground arith)
  find_lt (c ∷ u) k e = elim (Bool-cases (p c)) [
    | inl h ↦ let first : zero ≡ k = ground arith in ground arith
    | inr h ↦ elim (Option-cases (find_first_of p u 0)) [
      | inl q ↦ absurd (ground arith)
      | inr (j, q) ↦
          let later : suc j ≡ k = ground arith in let n = find_lt u j q in omega (arith, later, n)
    ]
  ]

  rest_lem : (u : List ℕ) → (if ltb 0 (length u) then u ∷ [] else []) ≡ unless_empty u
  rest_lem [] = ground arith
  rest_lem (c ∷ u) = ground arith

  rest_at : (s : List ℕ) (pos : ℕ) → ltb pos (length s) ≡ ltb 0 (length (drop pos s))
  rest_at s pos = let n = length_drop s pos in ground (arith, n)

  piece_lem :
      (pos k : ℕ) (u : List ℕ) (v : List (List ℕ))
      → k < length u
      → (if ltb pos (pos + k) then take ((pos + k) - pos) u ∷ v else v)
        ≡ unless_empty (take k u) ++ v
  piece_lem pos zero u v h = let e : ltb pos (pos + 0) ≡ false = ground arith in rw e refl
  piece_lem pos (suc k) [] v h = absurd (ground arith)
  piece_lem pos (suc k) (c ∷ u) v h =
      let e : ltb pos (pos + suc k) ≡ true = ground arith in
      let n : (pos + suc k) - pos ≡ suc k = omega arith in rw (e, n) refl

  split_loop-words :
      (fuel pos : ℕ) (s : List ℕ)
      → length s - pos < fuel
      → split_loop fuel p s pos ≡ ok (words p [] (drop pos s))
  unfolding split_loop
  split_loop-words zero pos s enough = absurd (ground arith)
  split_loop-words (suc fuel) pos s enough = elim (Option-cases (find_first_of p (drop pos s) 0)) [
    | inl q ↦
        let nothing : find_first_of p s pos ≡ none = find_drop s pos ∙ ap (moved pos) q in
        rw (split_loop, nothing, rest_at s pos)
          (ap (λ v. ok v) (rest_lem (drop pos s) ∙ sym (words-none [] (drop pos s) q)))
    | inr (k, q) ↦
        let found : find_first_of p s pos ≡ some (pos + k) = find_drop s pos ∙ ap (moved pos) q in
        let k_lt = find_lt (drop pos s) k q in
        let n = length_drop s pos in
        let same : pos + suc k ≡ suc (pos + k) = omega arith in
        let next : drop (suc k) (drop pos s) ≡ drop (suc (pos + k)) s =
          drop-drop s pos (suc k) ∙ ap (λ m. drop m s) same in
        rw (split_loop, found, split_loop-words fuel (suc (pos + k)) s (omega (arith, n, k_lt)))
          (ap (λ v. ok v)
            (piece_lem pos k (drop pos s) (words p [] (drop (suc (pos + k)) s)) k_lt
              ∙ (ap (λ w. unless_empty (take k (drop pos s)) ++ words p [] w) (sym next)
                  ∙ sym (words-some [] (drop pos s) k q))))
  ]

  -- Split returns on every string, and the parts are its words: the longest runs of bytes that are
  -- no delimiters, in order.
  pub split-words : (s : List ℕ) → split p s ≡ ok (words p [] s)
  unfolding split
  split-words s = split_loop-words (suc (length s)) 0 s (omega arith)
