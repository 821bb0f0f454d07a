-- ===== src/Net/Ids/Sequence.antt =====
-- The ids that NextNetConnectionID steps through.
use mzx.Base.{ℕ, zero, suc, ◌+◌, ◌-◌, ◌*◌, ◌/◌, ◌%◌, ◌^◌, ◌<◌, ◌≡◌, ◌≢◌, ◌↔◌, arith}
use mzx.Net.Ids.{parse_net_connection_index, parse_net_worker_index, next_net_connection_id}

-- NextNetConnectionID keeps the index and the bits from 60 on, returns another id within 64 bits,
-- and keeps the worker index exactly when the counter of 16 bits does not overflow.
pub next_net_connection_id_fields :
    (id : ℕ)
    → id < 2 ^ 64
    → (next_net_connection_id id < 2 ^ 64)
      × (next_net_connection_id id ≢ id)
      × (parse_net_connection_index (next_net_connection_id id) ≡ parse_net_connection_index id)
      × (next_net_connection_id id / 2 ^ 60 ≡ id / 2 ^ 60)
      × ((parse_net_worker_index (next_net_connection_id id) ≡ parse_net_worker_index id)
          ↔ (id / 2 ^ 32 % 2 ^ 16 ≢ 2 ^ 16 - 1))
unfolding next_net_connection_id parse_net_connection_index parse_net_worker_index
next_net_connection_id_fields id h =
    (omega arith, omega arith, omega arith, omega arith, (λ p. omega arith, λ p. omega arith))

-- `n` calls of NextNetConnectionID
abbrev pub next_ids : ℕ → ℕ → ℕ
next_ids zero id = id
next_ids (suc n) id = next_net_connection_id (next_ids n id)

next_ids-eq :
    (n id : ℕ)
    → id < 2 ^ 64
    → next_ids n id ≡ id / 2 ^ 60 * 2 ^ 60 + (id / 2 ^ 32 + n) % 2 ^ 28 * 2 ^ 32 + id % 2 ^ 32
unfolding next_net_connection_id
next_ids-eq zero id h = omega arith
next_ids-eq (suc n) id h = omega (arith, next_ids-eq n id h)

-- The ids that a slot steps through repeat after 2 ^ 28 calls, and no sooner.
pub next_ids_repeat : (n id : ℕ) → id < 2 ^ 64 → (next_ids n id ≡ id) ↔ (n % 2 ^ 28 ≡ 0)
next_ids_repeat n id h = let e = next_ids-eq n id h in ((λ p. omega arith), (λ p. omega arith))
