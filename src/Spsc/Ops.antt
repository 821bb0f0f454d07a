-- ===== src/Spsc/Ops.antt =====
-- SPSCQueue's operations, each run without the other thread.
use mzx.Base.{
  ℕ, zero, suc, ◌+◌, ◌-◌, ◌%◌, ◌^◌, Bool, true, false, Option, none, some, ◌==◌, leb, ltb,
  if◌then◌else◌,
}
use mzx.Run.{Run, ok, fault, out_of_fuel, ◌>>=◌, ◌>>◌, check}

module _ {ℓ} (T : Type ℓ) where
  pub record SpscQueue : Type ℓ where
    pub slots : ℕ → Option T
    pub max_size : ℕ
    pub read_index : ℕ
    pub write_index : ℕ

abbrev pub size_mod : ℕ
size_mod = 2 ^ 64

-- the `while` of NextIndex, on fuel
unfoldable pub wrap_loop : ℕ → ℕ → ℕ → Run ℕ
wrap_loop zero max_size index = out_of_fuel
wrap_loop (suc fuel) max_size index =
    let rest = wrap_loop fuel max_size (index - max_size) in
    if leb max_size index then rest else ok index

unfoldable pub next_index : ℕ → ℕ → Run ℕ
unfolding wrap_loop
next_index max_size index = let next = (index + 1) % size_mod in wrap_loop (suc next) max_size next

unfoldable pub read_available : ℕ → ℕ → ℕ → ℕ
read_available write_index read_index max_size =
    if leb read_index write_index
    then write_index - read_index
    else ((write_index + max_size) % size_mod + size_mod - read_index) % size_mod

unfoldable pub write_available : ℕ → ℕ → ℕ → ℕ
write_available write_index read_index max_size =
    if leb read_index write_index
    then (max_size - write_index + read_index) - 1
    else read_index - write_index - 1

module _ {ℓ} {T : Type ℓ} where
  unfoldable pub new : ℕ → Run (SpscQueue T)
  new max_size =
      let size = (max_size + 1) % size_mod in
      check (ltb 1 size)
      >> ok (record { slots = λ i. none; max_size = size; read_index = 0; write_index = 0 })

  -- the object in a slot
  unfoldable pub object : SpscQueue T → ℕ → Run T
  object q i = elim (q.slots i) [ none ↦ fault | some x ↦ ok x ]

  -- what a slot holds after a placement new, or after a destructor
  unfoldable pub set_slot : ℕ → Option T → SpscQueue T → SpscQueue T
  set_slot i x q = record q { slots = λ j. if j == i then x else q.slots j }

  unfoldable pub push : T → SpscQueue T → Run (SpscQueue T × Bool)
  unfolding next_index set_slot
  push x q = do
    next ← next_index q.max_size q.write_index
    let stored = record (set_slot q.write_index (some x) q) { write_index = next }
    ok (if next == q.read_index then (q, false) else (stored, true))

  -- `deref` is the object type's own `operator*`: Pop writes `*data = *tmp`, where `tmp` is the object
  -- in the slot, so what it stores is the result of that operator
  unfoldable pub pop : (T → T) → SpscQueue T → Run (SpscQueue T × Option T)
  unfolding next_index set_slot object
  pop deref q =
      let taken : Run (SpscQueue T × Option T) = do
        x ← object q q.read_index
        next ← next_index q.max_size q.read_index
        ok (record (set_slot q.read_index none q) { read_index = next }, some (deref x))
      in if q.write_index == q.read_index then ok (q, none) else taken
