-- ===== src/Net/Tests.antt =====
-- Runs of the ids and of the buffer.
use mzx.Base.{◌≡◌, ◌≢◌, ◌<◌, ◌≤◌, ◌-◌, ◌/◌, ◌%◌, ◌+◌, ◌^◌, ◌⊎◌, ◌↔◌, true, refl, arith}
use mzx.Run.{ok, abort, Returns}
use mzx.Net.Ids.{
  acceptor, init_net_connection_id, next_net_connection_id, parse_net_worker_index,
  parse_net_connection_index,
}
use mzx.Net.Ids.Laws.{worker_index_overlaps}
use mzx.Net.Ids.Sequence.{next_net_connection_id_fields}
use mzx.Net.Buffer.{NetBuffer, size_mod, new, read, write}
use mzx.Net.Buffer.Laws.{IsValid, write_passes}

-- the worker 3 of an acceptor parses to 515
acceptor_test :
    init_net_connection_id acceptor 3 7 ≡ ok 0x0203_0000_0000_0007
    × (parse_net_worker_index 0x0203_0000_0000_0007 ≡ 515)
unfolding init_net_connection_id parse_net_worker_index
acceptor_test = (refl, refl)

-- a second Write of 3 bytes to a buffer of 8 aborts
abbrev half_read : NetBuffer
half_read = record { size = 8; read_pos = 1; write_pos = 4 }

write_test : write half_read 3 ≡ abort
unfolding write
write_test = refl

abbrev fresh : NetBuffer
fresh = record { size = 8; read_pos = 0; write_pos = 0 }

new_test : new true 8 ≡ ok fresh
unfolding new
new_test = refl

half_read-IsValid : IsValid half_read
half_read-IsValid = record { readable = omega arith; writable = omega arith; bounded = omega arith }

fresh-IsValid : IsValid fresh
fresh-IsValid = record { readable = omega arith; writable = omega arith; bounded = omega arith }

worker_index_overlaps_example :
    Returns (λ id. parse_net_worker_index id ≢ 3) (init_net_connection_id acceptor 3 7)
worker_index_overlaps_example =
    worker_index_overlaps acceptor 3 7 (λ e. absurd cc) (omega arith) (omega arith)

next_net_connection_id_fields_example :
    (next_net_connection_id 7 < 2 ^ 64)
    × (next_net_connection_id 7 ≢ 7)
    × (parse_net_connection_index (next_net_connection_id 7) ≡ parse_net_connection_index 7)
    × (next_net_connection_id 7 / 2 ^ 60 ≡ 7 / 2 ^ 60)
    × ((parse_net_worker_index (next_net_connection_id 7) ≡ parse_net_worker_index 7)
        ↔ (7 / 2 ^ 32 % 2 ^ 16 ≢ 2 ^ 16 - 1))
next_net_connection_id_fields_example = next_net_connection_id_fields 7 (omega arith)

read_half : read half_read 2 ≡ ok (record half_read { read_pos = 3 })
unfolding read
read_half = refl

abbrev half_read_later : NetBuffer
half_read_later = record half_read { read_pos = 3 }

write_passes_example :
    (write half_read 3 ≢ abort) ↔ ((half_read.write_pos ≡ 0) ⊎ (size_mod ≤ half_read.write_pos + 3))
write_passes_example = write_passes half_read 3 (omega arith) (omega arith)
