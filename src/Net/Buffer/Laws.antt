-- ===== src/Net/Buffer/Laws.antt =====
-- The positions of a buffer.
use mzx.Base.{
  ℕ, ◌+◌, ◌-◌, ◌%◌, ◌≤◌, ◌<◌, ◌≡◌, ◌≢◌, ◌⊎◌, ◌↔◌, arith, true, leb, Bool-cases, inl, inr, leb→le,
  le→leb, lt→not-leb, not-leb→lt, if◌then◌else◌,
}
use mzx.Run.{ok, abort, Returns, returns}
use mzx.Net.Buffer.{NetBuffer, size_mod, read_available, write_available, read, write}

pub record IsValid (b : NetBuffer) : Type 0 where
  pub readable : b.read_pos ≤ b.write_pos
  pub writable : b.write_pos ≤ b.size
  pub bounded : b.size < size_mod

-- On a valid buffer, and where the sum of position and size does not overflow, Read of no more than
-- is available moves the read position by that much, and Read of more aborts.
pub read_lem :
    (b : NetBuffer) (n : ℕ)
    → IsValid b
    → b.read_pos + n < size_mod
    → read b n
      ≡ (if leb n (read_available b) then ok (record b { read_pos = b.read_pos + n }) else abort)
unfolding read read_available
read_lem b n v h =
    let sum : (b.read_pos + n) % size_mod ≡ b.read_pos + n = omega arith in
    let avail : (b.write_pos + size_mod - b.read_pos) % size_mod ≡ b.write_pos - b.read_pos =
      omega (arith, v.readable, v.writable, v.bounded) in
    elim (Bool-cases (leb n (b.write_pos - b.read_pos))) [
      | inl e ↦ rw (
        sum,
        avail,
        e,
        le→leb (b.read_pos + n) b.write_pos (omega (arith, v.readable, leb→le _ _ e)),
      )
      | inr e ↦ rw (
        sum,
        avail,
        e,
        lt→not-leb (b.read_pos + n) b.write_pos (omega (arith, v.readable, not-leb→lt _ _ e)),
      )
    ]

-- A Read that returns keeps a valid buffer valid and the room for writing as it was; where the sum
-- of position and size does not overflow, there is that much less to read.
pub read-IsValid :
    (b : NetBuffer) (n : ℕ) {c : NetBuffer}
    → IsValid b
    → b.read_pos + n < size_mod
    → read b n ≡ ok c
    → IsValid c
      × (read_available c + n ≡ read_available b)
      × (write_available c ≡ write_available b)
unfolding read read_available write_available
read-IsValid b n v h e = ground arith

-- Write of a number of bytes within 64 bits passes its check exactly when nothing has been written
-- before, or when the position overflows: it does not compare with the size of the buffer.
pub write_passes :
    (b : NetBuffer) (n : ℕ)
    → b.write_pos < size_mod
    → n < size_mod
    → (write b n ≢ abort) ↔ ((b.write_pos ≡ 0) ⊎ (size_mod ≤ b.write_pos + n))
unfolding write
write_passes b n h k = (λ p. ground arith, λ p. ground arith)

-- The first Write to a new buffer of a size that fits keeps it valid and moves the counts.
pub first_write_lem :
    (b : NetBuffer) (n : ℕ)
    → IsValid b
    → b.write_pos ≡ 0
    → n ≤ write_available b
    → Returns
        (λ c. IsValid c × (write_available c + n ≡ write_available b) × (read_available c ≡ n))
        (write b n)
unfolding write write_available read_available
first_write_lem b n v e h =
    let pass : leb ((b.write_pos + n) % size_mod) n ≡ true = le→leb _ _ (omega arith) in
    rw pass (returns (omega arith, omega arith, omega arith))
