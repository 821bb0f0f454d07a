-- ===== src/Ecs/Entities/Visits.antt =====
-- src/ecs.cpp and include/mzx/ecs.h: HasComponent, ForeachEntity and ForeachComponent, whose
-- callbacks may call the manager.
use mzx.Base.{ℕ, zero, suc, Bool, true, false, Option, none, some, List, [], ◌∷◌}
use mzx.Run.{Run, ok, out_of_fuel, ◌>>=◌}
use mzx.SafeList.{first, incr_ref, decr_ref, leave}
use mzx.Ecs.Entities.{EntityManager, load_entity, load_slot}

-- HasComponent
abbrev pub has_component : ℕ → ℕ → EntityManager → Run Bool
has_component e class m = load_entity e m >>= λ x.
    load_slot class x >>= λ slot. ok (elim slot [ none ↦ false | some c ↦ true ])

abbrev pub has_components : ℕ → List ℕ → EntityManager → Run Bool
has_components e [] m = ok true
has_components e (class ∷ l) m =
    has_component e class m >>= λ b. elim b [ false ↦ ok false | true ↦ has_components e l m ]

-- the callback of ForeachEntity with classes
abbrev pub with_components :
    List ℕ
    → (ℕ → EntityManager → Run (EntityManager × Bool))
    → ℕ
    → EntityManager
    → Run (EntityManager × Bool)
with_components classes cb e m =
    has_components e classes m >>= λ b. elim b [ false ↦ ok (m, true) | true ↦ cb e m ]

-- ForeachEntity, whose callback `cb` may call the manager and says whether to go on
module _ (cb : ℕ → EntityManager → Run (EntityManager × Bool)) where
  abbrev pub visit : Option ℕ → EntityManager → Run (EntityManager × Bool)
  visit none m = ok (m, true)
  visit (some e) m = cb e m

  unfoldable pub foreach_from : ℕ → Option ℕ → EntityManager → Run EntityManager
  foreach_from fuel none m = ok m
  foreach_from zero (some n) m = out_of_fuel
  foreach_from (suc fuel) (some n) m =
      let rest = foreach_from fuel in
      incr_ref n m.entity_list >>= λ l.
      visit (l.raw_data n) (record m { entity_list = l }) >>= λ (t, go_on). elim go_on [
        | false ↦ decr_ref n t.entity_list >>= λ k. ok (record t { entity_list = k })
        | true ↦ leave n t.entity_list >>= λ (k, next). rest next (record t { entity_list = k })
      ]

  unfoldable pub foreach_entity : ℕ → EntityManager → Run EntityManager
  unfolding foreach_from
  foreach_entity fuel m = foreach_from fuel (first m.entity_list.nodes) m

-- ForeachComponent from `class` on, with `rounds` classes left
module _ (cb : ℕ → EntityManager → Run (EntityManager × Bool)) where
  unfoldable pub foreach_components : ℕ → ℕ → ℕ → EntityManager → Run EntityManager
  foreach_components zero class e m = ok m
  foreach_components (suc rounds) class e m =
      let rest = foreach_components rounds (suc class) e in
      load_entity e m >>= λ x. load_slot class x >>= λ slot. elim slot [
        | none ↦ rest m
        | some c ↦ cb c m >>= λ (t, go_on). elim go_on [ false ↦ ok t | true ↦ rest t ]
      ]

  unfoldable pub foreach_component : ℕ → ℕ → EntityManager → Run EntityManager
  unfolding foreach_components
  foreach_component class_count e m = foreach_components class_count 0 e m
