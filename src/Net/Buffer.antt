-- ===== src/Net/Buffer.antt =====
-- include/mzx/net/net_buffer.h: a buffer with a read and a write position. `size_t` has 64 bits.
-- The bytes themselves are written through WriteBegin() by others and are left out.
pub mod Laws
use mzx.Base.{ℕ, ◌+◌, ◌-◌, ◌%◌, ◌^◌, Bool, leb, ltb}
use mzx.Run.{Run, ok, ◌>>◌, check}

pub record NetBuffer : Type 0 where
  pub size : ℕ
  pub read_pos : ℕ
  pub write_pos : ℕ

abbrev pub size_mod : ℕ
size_mod = 2 ^ 64

-- the constructor; `allocated` says whether malloc returned memory
unfoldable pub new : (allocated : Bool) → ℕ → Run NetBuffer
new allocated size =
    check (ltb 0 size)
    >> (check allocated >> ok (record { size = size; read_pos = 0; write_pos = 0 }))

unfoldable pub read_available : NetBuffer → ℕ
read_available b = (b.write_pos + size_mod - b.read_pos) % size_mod

unfoldable pub write_available : NetBuffer → ℕ
write_available b = (b.size + size_mod - b.write_pos) % size_mod

unfoldable pub read : NetBuffer → ℕ → Run NetBuffer
read b size =
    check (leb ((b.read_pos + size) % size_mod) b.write_pos)
    >> ok (record b { read_pos = (b.read_pos + size) % size_mod })

-- The check names the argument `size`, which hides a member that is called `size_`.
unfoldable pub write : NetBuffer → ℕ → Run NetBuffer
write b size =
    check (leb ((b.write_pos + size) % size_mod) size)
    >> ok (record b { write_pos = (b.write_pos + size) % size_mod })
