-- ===== src/Net/Ids/Laws.antt =====
-- What the fields of a new id parse to.
use mzx.Base.{ℕ, ◌+◌, ◌*◌, ◌/◌, ◌%◌, ◌^◌, ◌≤◌, ◌<◌, ◌≡◌, ◌≢◌, arith, ap, le→leb}
use mzx.Run.{Returns, returns, ok}
use mzx.Net.Ids.{
  NetConnectionType, connector, value, parse_net_connection_type, parse_net_connection_index,
  parse_net_worker_index, init_net_connection_id, net_worker_max_count, net_connection_max_count,
}

init_net_connection_id-sum :
    (type : NetConnectionType) (worker index : ℕ)
    → worker ≤ net_worker_max_count
    → index ≤ net_connection_max_count
    → init_net_connection_id type worker index ≡ ok (value type * 2 ^ 56 + worker * 2 ^ 48 + index)
unfolding init_net_connection_id
init_net_connection_id-sum type worker index h k =
    rw (le→leb _ _ h, le→leb _ _ k) (ap ok (lt_mod type))
  where
    lt_mod :
        (t : NetConnectionType)
        → (value t * 2 ^ 56 + worker * 2 ^ 48 + index) % 2 ^ 64
          ≡ value t * 2 ^ 56 + worker * 2 ^ 48 + index
    lt_mod connector = omega arith
    lt_mod _ = omega arith

value-le : (t : NetConnectionType) → value t ≤ 2
value-le t = ground arith

value-pos : (t : NetConnectionType) → t ≢ connector → 0 < value t
value-pos t ne = ground arith

abbrev pub ParsesTo : ℕ → ℕ → ℕ → ℕ → Type 0
ParsesTo type worker index id =
    (parse_net_connection_type id ≡ type)
    × (parse_net_worker_index id ≡ worker)
    × (parse_net_connection_index id ≡ index)

-- For indices within the limits InitNetConnectionID returns an id whose index parses back. Its
-- type parses to the type plus the worker index divided by 256, and its worker index to the worker
-- index plus 256 times the type.
pub init_net_connection_id-ParsesTo :
    (type : NetConnectionType) (worker index : ℕ)
    → worker ≤ net_worker_max_count
    → index ≤ net_connection_max_count
    → Returns
        (ParsesTo (value type + worker / 256) ((worker + 256 * value type) % 4096) index)
        (init_net_connection_id type worker index)
unfolding parse_net_connection_type parse_net_worker_index parse_net_connection_index
init_net_connection_id-ParsesTo type worker index h k =
    let small = value-le type in
    rw (init_net_connection_id-sum type worker index h k)
      (returns (omega arith, omega arith, omega arith))

-- For a type other than the connector and indices within the limits InitNetConnectionID returns an
-- id whose worker index does not parse back.
pub worker_index_overlaps :
    (type : NetConnectionType) (worker index : ℕ)
    → type ≢ connector
    → worker ≤ net_worker_max_count
    → index ≤ net_connection_max_count
    → Returns (λ id. parse_net_worker_index id ≢ worker) (init_net_connection_id type worker index)
unfolding parse_net_worker_index
worker_index_overlaps type worker index ne h k =
    let small : value type ≤ 2 = value-le type in
    let some : 0 < value type = value-pos type ne in
    rw (init_net_connection_id-sum type worker index h k) (returns (omega arith))
