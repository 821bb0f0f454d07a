-- ===== src/Net/Ids.antt =====
-- include/mzx/net/net_define.h: 64-bit connection ids. A shift is a product or a quotient with a
-- power of two, and a mask keeps the remainder or the quotient that its bits stand for.
pub mod Laws
pub mod Sequence
use mzx.Base.{ℕ, zero, suc, ◌+◌, ◌*◌, ◌/◌, ◌%◌, ◌^◌, ◌&&◌, leb}
use mzx.Run.{Run, ok, ◌>>◌, check}

abbrev pub net_worker_max_count : ℕ
net_worker_max_count = 0xFFF

abbrev pub net_connection_max_count : ℕ
net_connection_max_count = 0xFFFF_FFFF

pub data NetConnectionType : Type 0 where
  connector peer_connector acceptor : NetConnectionType

-- the value of the enumerator
abbrev pub value : NetConnectionType → ℕ
value connector = 0
value peer_connector = 1
value acceptor = 2

-- ParseNetConnectionType, as the number that is cast to the enumeration
unfoldable pub parse_net_connection_type : ℕ → ℕ
parse_net_connection_type id = id / 2 ^ 56

unfoldable pub parse_net_connection_index : ℕ → ℕ
parse_net_connection_index id = id % 2 ^ 32

unfoldable pub parse_net_worker_index : ℕ → ℕ
parse_net_worker_index id = id / 2 ^ 48 % 2 ^ 12

unfoldable pub init_net_connection_id : NetConnectionType → ℕ → ℕ → Run ℕ
init_net_connection_id type worker_index index =
    check (leb worker_index net_worker_max_count && leb index net_connection_max_count)
    >> ok ((value type * 2 ^ 56 + worker_index * 2 ^ 48 + index) % 2 ^ 64)

-- `id & 0xF0000000FFFFFFFF` keeps the bits from 60 on and those below 32
unfoldable pub next_net_connection_id : ℕ → ℕ
next_net_connection_id id =
    let incr : ℕ = (id / 2 ^ 32 + 1) % 2 ^ 28 * 2 ^ 32 in
    (id / 2 ^ 60 * 2 ^ 60 + id % 2 ^ 32 + incr) % 2 ^ 64
