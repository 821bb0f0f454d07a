-- ===== src/Event/Manager/Laws.antt =====
-- The manager keeps the events of the types apart.
use mathlib.Core.Path.{subst}
use mzx.Base.{
  ℕ, ◌≡◌, ◌≢◌, refl, ◌∙◌, true, false, if◌then◌else◌, Option, none, some, List, [], ◌∷◌, ◌++◌, ◌==◌,
  arith, Bool-cases, inl, inr,
}
use mzx.Event.{Event}
use mzx.Event.Laws.{IsEvent}
use mzx.Event.Manager.{EventManager, find_event, set_event, erase_event}

-- every event is in order, and no type has two
abbrev pub AreEvents : List (ℕ × Event) → Type 0
AreEvents [] = Unit {0}
AreEvents ((k, e) ∷ l) = IsEvent e [] × (find_event k l ≡ none) × AreEvents l

-- the events of the other types are as they were
abbrev pub KeepsTypes : ℕ → EventManager → EventManager → Type 0
KeepsTypes type m t = (k : ℕ) → k ≢ type → find_event k t.event_list ≡ find_event k m.event_list

some_once : (a b : Event) → some a ≡ some b → IsEvent a [] → IsEvent b []
some_once a b e = subst (λ o. IsEvent (or_else o) []) e
  where
    or_else : Option Event → Event
    or_else none = a
    or_else (some x) = x

pub found-IsEvent :
    (type : ℕ) (e : Event) (l : List (ℕ × Event))
    → AreEvents l
    → find_event type l ≡ some e
    → IsEvent e []
found-IsEvent type e [] w h = absurd (ground (arith, h))
found-IsEvent type e ((k, d) ∷ l) (v, _, w) h = elim (Bool-cases (k == type)) [
  | inl q ↦ some_once d e (rw q at h) v
  | inr q ↦ found-IsEvent type e l w (rw q at h)
]

pub find-set_event :
    (type : ℕ) (e t : Event) (l : List (ℕ × Event))
    → find_event type l ≡ some e
    → find_event type (set_event type t l) ≡ some t
find-set_event type e t [] h = absurd (ground (arith, h))
find-set_event type e t ((j, d) ∷ l) h = elim (Bool-cases (j == type)) [
  | inl q ↦ rw (q, q) refl
  | inr q ↦ rw (q, q) (find-set_event type e t l (rw q at h))
]

pub find-set_event_other :
    (type k : ℕ) (t : Event) (l : List (ℕ × Event))
    → k ≢ type
    → find_event k (set_event type t l) ≡ find_event k l
find-set_event_other type k t [] other = refl
find-set_event_other type k t ((j, d) ∷ l) other = elim (Bool-cases (j == type)) [
  | inl q ↦ let miss : (j == k) ≡ false = ground (arith, q, other) in rw (q, miss) refl
  | inr q ↦ rw q (elim (Bool-cases (j == k)) [
    | inl r ↦ rw r refl
    | inr r ↦ rw r (find-set_event_other type k t l other)
  ])
]

find-set_event-none :
    (type k : ℕ) (t : Event) (l : List (ℕ × Event))
    → find_event k l ≡ none
    → find_event k (set_event type t l) ≡ none
find-set_event-none type k t [] h = refl
find-set_event-none type k t ((j, d) ∷ l) h = elim (Bool-cases (j == k)) [
  | inl r ↦ absurd (ground (arith, rw r at h))
  | inr r ↦ elim (Bool-cases (j == type)) [
    | inl q ↦ rw (q, r) (rw r at h)
    | inr q ↦ rw (q, r) (find-set_event-none type k t l (rw r at h))
  ]
]

pub AreEvents-set_event :
    (type : ℕ) (t : Event) (l : List (ℕ × Event))
    → AreEvents l
    → IsEvent t []
    → AreEvents (set_event type t l)
AreEvents-set_event type t [] w v = tt
AreEvents-set_event type t ((j, d) ∷ l) (a, b, c) v = elim (Bool-cases (j == type)) [
  | inl q ↦ rw q (v, b, c)
  | inr q ↦ rw q (a, find-set_event-none type j t l b, AreEvents-set_event type t l c v)
]

pub find-append :
    (type k : ℕ) (e : Event) (l : List (ℕ × Event))
    → find_event type l ≡ none
    → (find_event type (l ++ (type, e) ∷ []) ≡ some e)
      × (k ≢ type → find_event k (l ++ (type, e) ∷ []) ≡ find_event k l)
find-append type k e [] h =
    let hit : (type == type) ≡ true = ground arith in
    (rw hit refl, λ other. let miss : (type == k) ≡ false = ground (arith, other) in rw miss refl)
find-append type k e ((j, d) ∷ l) h = elim (Bool-cases (j == type)) [
  | inl q ↦ absurd (ground (arith, rw q at h))
  | inr q ↦
      let (a, b) = find-append type k e l (rw q at h) in
      (rw q a, λ other. elim (Bool-cases (j == k)) [ inl r ↦ rw r refl | inr r ↦ rw r (b other) ])
]

pub AreEvents-append :
    (type : ℕ) (e : Event) (l : List (ℕ × Event))
    → AreEvents l
    → IsEvent e []
    → find_event type l ≡ none
    → AreEvents (l ++ (type, e) ∷ [])
AreEvents-append type e [] w v h = (v, refl, tt)
AreEvents-append type e ((j, d) ∷ l) (a, b, c) v h = elim (Bool-cases (j == type)) [
  | inl q ↦ absurd (ground (arith, rw q at h))
  | inr q ↦
      let f : find_event type l ≡ none = rw q at h in
      let other : j ≢ type = λ same. absurd (ground (arith, q, same)) in
      (a, (find-append type j e l f).1 other ∙ b, AreEvents-append type e l c v f)
]

pub find-erase_event :
    (type k : ℕ) (l : List (ℕ × Event))
    → AreEvents l
    → find_event k (erase_event type l) ≡ (if k == type then none else find_event k l)
find-erase_event type k [] w = ground arith
find-erase_event type k ((j, d) ∷ l) (a, b, c) = elim (Bool-cases (j == type)) [
  | inl q ↦ elim (Bool-cases (k == type)) [
    | inl r ↦
        let same : j ≡ k = ground (arith, q, r) in
        rw (q, r) (subst (λ i. find_event i l ≡ none) same b)
    | inr r ↦ let miss : (j == k) ≡ false = ground (arith, q, r) in rw (q, r, miss) refl
  ]
  | inr q ↦ rw q (elim (Bool-cases (j == k)) [
    | inl r ↦ let other : (k == type) ≡ false = ground (arith, q, r) in rw (r, other) refl
    | inr r ↦ rw r (find-erase_event type k l c)
  ])
]

pub AreEvents-erase_event :
    (type : ℕ) (l : List (ℕ × Event)) → AreEvents l → AreEvents (erase_event type l)
AreEvents-erase_event type [] w = tt
AreEvents-erase_event type ((j, d) ∷ l) (a, b, c) = elim (Bool-cases (j == type)) [
  | inl q ↦ rw q c
  | inr q ↦ rw q (a, find-erase_event type j l c ∙ rw q b, AreEvents-erase_event type l c)
]
