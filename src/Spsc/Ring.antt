-- ===== src/Spsc/Ring.antt =====
-- The queue that the ring stands for.
use mzx.Base.{
  ℕ, zero, suc, ◌+◌, ◌-◌, ◌%◌, ◌≤◌, ◌<◌, ◌≡◌, refl, true, false, List, ◌==◌, leb, ltb,
  if◌then◌else◌, arith, Bool-cases, inl, inr,
}
use mzx.Array.{length, get_elem?}
use mzx.Run.{ok}
use mzx.Spsc.Ops.{SpscQueue, size_mod, wrap_loop, next_index}

-- the slot that is `k` places after `i`
abbrev pub slot : ℕ → ℕ → ℕ → ℕ
slot max_size i k = if ltb (i + k) max_size then i + k else (i + k) - max_size

-- the objects from the read position on are `l`, and no other slot holds one
pub record IsQueue {ℓ} {T : Type ℓ} (q : SpscQueue T) (l : List T) : Type ℓ where
  pub sized : (1 < q.max_size) × (q.max_size < size_mod)
  pub room : length l < q.max_size
  pub reads : q.read_index < q.max_size
  pub writes : q.write_index ≡ slot q.max_size q.read_index (length l)
  pub holds : (k : ℕ) → k < q.max_size → q.slots (slot q.max_size q.read_index k) ≡ get_elem? l k

wrap_loop_lem :
    (fuel n i : ℕ)
    → 1 < fuel
    → 0 < n
    → i ≤ n
    → wrap_loop fuel n i ≡ ok (if ltb i n then i else i - n)
unfolding wrap_loop
wrap_loop_lem zero n i f p h = absurd (ground arith)
wrap_loop_lem (suc zero) n i f p h = absurd (ground arith)
wrap_loop_lem (suc (suc fuel)) n i f p h = elim (Bool-cases (leb n i)) [
  | inl e ↦
      let small : leb n (i - n) ≡ false = ground arith in
      let big : ltb i n ≡ false = ground arith in rw (e, small, big) refl
  | inr e ↦ let small : ltb i n ≡ true = ground arith in rw (e, small) refl
]

pub next_index_lem : (n i : ℕ) → n < size_mod → i < n → next_index n i ≡ ok (slot n i 1)
unfolding next_index
next_index_lem n i bound h =
    let exact : (i + 1) % size_mod ≡ i + 1 = omega arith in
    rw exact
      (wrap_loop_lem (suc (i + 1)) n (i + 1) (omega arith) (omega (arith, h)) (omega (arith, h)))

pub slot_lt : (n i k : ℕ) → i < n → k < n → slot n i k < n
slot_lt n i k p h = ground arith

pub slot_eqb : (n i j k : ℕ) → i < n → j < n → k < n → (slot n i j == slot n i k) ≡ (j == k)
slot_eqb n i j k p q r = ground arith

-- the slot behind a slot
pub slot_suc : (n i k : ℕ) → i < n → k + 1 < n → slot n (slot n i k) 1 ≡ slot n i (k + 1)
slot_suc n i k p q = ground arith

-- the write position has come round to the read position
pub slot_full : (n r m : ℕ) → r < n → m < n → 1 < n → (slot n (slot n r m) 1 == r) ≡ (m + 1 == n)
slot_full n r m p q one = ground arith

pub slot_shift : (n i k : ℕ) → i < n → suc k < n → slot n (slot n i 1) k ≡ slot n i (suc k)
slot_shift n i k p q = ground arith

-- one round further is the slot itself
pub slot_round : (n i k : ℕ) → i < n → 1 < n → suc k ≡ n → slot n (slot n i 1) k ≡ i
slot_round n i k p one q = ground arith

pub slot_zero : (n i : ℕ) → i < n → slot n i 0 ≡ i
slot_zero n i p = ground arith

-- a slot that is not the first one
pub slot_later : (n i k : ℕ) → i < n → suc k < n → (slot n i (suc k) == i) ≡ false
slot_later n i k p q = ground arith
