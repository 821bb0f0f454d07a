-- ===== src/Unicode/Laws.antt =====
-- The calls of ForeachUtf8Char.
use mzx.Base.{
  ℕ, zero, suc, ◌+◌, ◌-◌, ◌≤◌, ◌<◌, ◌≡◌, true, false, ◌&&◌, List, [], ◌∷◌, ◌==◌, if◌then◌else◌,
  arith, Bool-cases, inl, inr, ◌⊎◌, refl, ==_iff,
}
use mzx.Array.{length, get_or}
use mzx.Unicode.{is_lead, foreach_loop, foreach_utf8_char}

-- the bytes from `s` to before `e` begin at the beginning or with a leading byte, and none of the
-- others is a leading byte
pub record IsRun (utf8str : List ℕ) (s e : ℕ) : Type 0 where
  pub start : (s ≡ 0) ⊎ (is_lead (get_or utf8str s 0) ≡ true)
  pub inside : (i : ℕ) → s < i → i < e → is_lead (get_or utf8str i 0) ≡ false

-- the calls follow each other from `a` to `b` without gaps, none is empty, and each is given a run
abbrev pub AreRuns : List ℕ → List (ℕ × ℕ) → ℕ → ℕ → Type 0
AreRuns utf8str [] a b = a ≡ b
AreRuns utf8str (c ∷ calls) a b =
    (c.0 ≡ a) × (0 < c.1) × IsRun utf8str a (a + c.1) × AreRuns utf8str calls (a + c.1) b

grow :
    (utf8str : List ℕ) (s e : ℕ)
    → IsRun utf8str s e
    → (s ≡ e) ⊎ (is_lead (get_or utf8str e 0) ≡ false)
    → IsRun utf8str s (suc e)
grow utf8str s e v stop = record {
  start = v.start;
  inside = λ i p q. elim (Bool-cases (i == e)) [
    | inl t ↦ let same : i ≡ e = (==_iff i e).0 t in rw same (last (rw same at p) stop)
    | inr t ↦ v.inside i p (ground arith)
  ];
}
  where
    last :
        s < e
        → (s ≡ e) ⊎ (is_lead (get_or utf8str e 0) ≡ false)
        → is_lead (get_or utf8str e 0) ≡ false
    last p (inl w) = absurd (omega arith)
    last p (inr f) = f

foreach_loop-AreRuns :
    (utf8str : List ℕ) (rounds pos prev : ℕ)
    → prev ≤ pos
    → IsRun utf8str prev pos
    → AreRuns utf8str (foreach_loop (λ s len. true) utf8str rounds pos prev) prev (pos + rounds)
unfolding foreach_loop
foreach_loop-AreRuns utf8str zero pos prev h v = elim (Bool-cases (prev == pos)) [
  | inl e ↦ rw e (omega (arith, (==_iff prev pos).0 e))
  | inr e ↦
      let end : prev + (pos - prev) ≡ pos = omega arith in
      rw (e, end) (refl, ground arith, v, omega arith)
]
foreach_loop-AreRuns utf8str (suc rounds) pos prev h v =
    let b = get_or utf8str pos 0 in
    let end : prev + (pos - prev) ≡ pos = omega arith in
    let shift : pos + suc rounds ≡ suc pos + rounds = omega arith in
    elim (Bool-cases (is_lead b && (if prev == pos then false else true))) [
      | inl e ↦
          let fresh : IsRun utf8str pos pos = record {
            start = inr (ground arith);
            inside = λ i p q. absurd (omega arith);
          } in
          rw (e, end, shift)
            (
              refl,
              ground arith,
              v,
              foreach_loop-AreRuns utf8str rounds (suc pos) pos (omega arith)
                  (grow utf8str pos pos fresh (inl refl)),
            )
      | inr e ↦
          rw (e, shift)
            (foreach_loop-AreRuns utf8str rounds (suc pos) prev (omega arith)
              (grow utf8str prev pos v (stop e)))
    ]
  where
    stop :
        (is_lead (get_or utf8str pos 0) && (if prev == pos then false else true)) ≡ false
        → (prev ≡ pos) ⊎ (is_lead (get_or utf8str pos 0) ≡ false)
    stop e = elim (Bool-cases (prev == pos)) [
      | inl t ↦ inl ((==_iff prev pos).0 t)
      | inr t ↦ inr (ground arith)
    ]

-- With a callback that always returns true, the calls of ForeachUtf8Char cover the string from its
-- beginning to its end without gaps or overlaps. None is empty, each but the first begins with a
-- byte up to 0x7f or from 0xc0 on, and no other byte of a call is such a byte.
pub foreach_utf8_char-AreRuns :
    (utf8str : List ℕ)
    → AreRuns utf8str (foreach_utf8_char (λ s len. true) utf8str) 0 (length utf8str)
unfolding foreach_utf8_char
foreach_utf8_char-AreRuns utf8str = rw (zero_add (length utf8str)) at (
    foreach_loop-AreRuns utf8str (length utf8str) 0 0 (omega arith)
      (record { start = inl refl; inside = λ i p q. absurd (omega arith) }))
  where
    zero_add : (n : ℕ) → 0 + n ≡ n
    zero_add n = omega arith
