-- ===== src/Spsc/Available.antt =====
-- ReadAvailable and WriteAvailable count the objects and the free places.
use mzx.Base.{ℕ, ◌-◌, ◌<◌, ◌≡◌, arith}
use mzx.Spsc.Ops.{size_mod, read_available, write_available}
use mzx.Spsc.Ring.{slot}

-- WriteAvailable of a ring with `m` objects from the read position `r` on is the number of places
-- that are free, where one stays empty.
write_available_lem :
    (n r m : ℕ) → n < size_mod → r < n → m < n → write_available (slot n r m) r n ≡ n - 1 - m
unfolding write_available
write_available_lem n r m b p q = ground arith

-- ReadAvailable of such a ring is `m`.
read_available_lem :
    (n r m : ℕ) → n < size_mod → r < n → m < n → read_available (slot n r m) r n ≡ m
unfolding read_available
read_available_lem n r m b p q = ground arith
