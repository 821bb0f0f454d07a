-- ===== src/Ecs/Entities/Adding.antt =====
-- AddEntity and ForeachEntity.
use mzx.Array.{length}
use mzx.Base.{
  ℕ, zero, suc, ◌≡◌, refl, sym, ap, ◌∙◌, Bool, true, false, Option, none, some, List, ◌∷◌, ◌==◌,
  arith, Bool-cases, inl, inr,
}
use mzx.Run.{Run, Safe, done, spent, in_time, chain}
use mzx.SafeList.{SafeList, first, push_node, set_ref, set_data}
use mzx.SafeList.Laws.{
  count_in, IsCounted, unowned_none, ref_of_data, ref_of_node, incr_ref-IsCounted,
  decr_ref-IsCounted,
}
use mzx.SafeList.Detach.{push_node-IsCounted}
use mzx.SafeList.Walk.{IsListed, first-IsListed, leave-IsCounted}
use mzx.Ecs.Systems.Laws.{push_node-IsTable}
use mzx.Ecs.Systems.Loops.{IsTable-cong}
use mzx.Ecs.Entities.{
  Entity, EntityManager, Notice, entity_add, set_entity, set_store, no_components, add_entity,
}
use mzx.Ecs.Entities.Visits.{visit, foreach_from, foreach_entity}
use mzx.Ecs.Entities.Laws.{IsManager, IsTame, stored, some_same}
use mzx.Ecs.Entities.Removal.{relisted-IsManager}

length-no_components : (n : ℕ) → length (no_components n) ≡ n
length-no_components zero = refl
length-no_components (suc n) = ap suc (length-no_components n)

unstored : (o : Option Entity) → o ≡ none → stored o ≡ 0
unstored o h = ap stored h

pushed_data : (d : ℕ) (l : SafeList ℕ) → (push_node d l).raw_data l.next_name ≡ some d
unfolding push_node set_ref set_data
pushed_data d l = let hit : (l.next_name == l.next_name) ≡ true = ground arith in rw hit refl

-- a new entity is in the manager
added-IsManager :
    (class_count : ℕ) (m : EntityManager) (held dying held' : List ℕ) (l : SafeList ℕ)
    → IsManager class_count m held dying
    → IsCounted l held'
    → l.raw_data ≡ (push_node m.next_entity m.entity_list).raw_data
    → IsManager class_count
        (record (set_store m.next_entity
          (some (record { component_list = no_components class_count }))
          m) {
            entities = set_entity m.next_entity (some m.entity_list.next_name) m.entities;
            entity_list = l;
            next_entity = suc m.next_entity;
          })
        held'
        dying
added-IsManager class_count m held dying held' l w v same =
    let e = m.next_entity in
    let n = m.entity_list.next_name in
    let c = w.living e in
    let z = unstored (m.store e) (w.fresh e (omega arith)) in
    let absent = unowned_none (m.entities e) (omega (arith, c, z)) in
    let g = w.nodes.counted n in
    let u = w.nodes.unnamed n (omega arith) in
    let bare = unowned_none (m.entity_list.raw_data n) (omega (arith, g, u)) in
    record {
      nodes = v;
      table =
          IsTable-cong (set_entity e (some n) m.entities) same
            (push_node-IsTable e m.entities m.entity_list w.table absent bare);
      living = λ k. elim (Bool-cases (k == e)) [
        | inl q ↦
            let hit : k ≡ e = ground arith in
            let d = ap (λ i. count_in i dying) hit in rw q (omega (arith, c, z, d))
        | inr q ↦ rw q (w.living k)
      ];
      fresh = λ k h.
          let miss : (k == e) ≡ false = ground (arith, h) in rw miss (w.fresh k (omega (arith, h)));
      sized = λ k y h. elim (Bool-cases (k == e)) [
        | inl q ↦
            let blank : record { component_list = no_components class_count } ≡ y =
              some_same (record { component_list = no_components class_count }) y (rw q at h) in
            sym (ap (λ (i : Entity). length i.component_list) blank)
            ∙ length-no_components class_count
        | inr q ↦ w.sized k y (rw q at h)
      ];
    }

module _ (class_count : ℕ) (notify : Notice → EntityManager → Run EntityManager) where
  -- AddEntity puts a new entity into the manager and keeps every entity accounted for; it touches
  -- no freed node, even when a listener removes the entity at once.
  pub add_entity-IsManager :
      (m : EntityManager) (held dying : List ℕ)
      → IsTame class_count notify
      → IsManager class_count m held dying
      → Safe (λ t. IsManager class_count t.0 held dying) (add_entity class_count notify m)
  unfolding add_entity
  add_entity-IsManager m held dying tame w =
      let e = m.next_entity in
      let n = m.entity_list.next_name in
      let p = push_node-IsCounted m.entity_list held e w.nodes in
      let r = ref_of_data (push_node e m.entity_list) held n e p (pushed_data e m.entity_list) in
      chain (in_time (incr_ref-IsCounted (push_node e m.entity_list) held n p r)) λ l (v, _, same).
        chain
          (tame (entity_add e) _ (n ∷ held) dying
            (added-IsManager class_count m held dying (n ∷ held) l w v same))
          λ u x.
            chain (in_time (decr_ref-IsCounted u.entity_list held n x.nodes))
              λ y (z, _, g). done (relisted-IsManager class_count u (n ∷ held) dying held y x z g)

-- a callback that keeps the manager in order
abbrev pub IsTameVisit : ℕ → (ℕ → EntityManager → Run (EntityManager × Bool)) → Type 0
IsTameVisit class_count cb =
    (e : ℕ) (m : EntityManager) (held dying : List ℕ)
    → IsManager class_count m held dying
    → Safe (λ t. IsManager class_count t.0 held dying) (cb e m)

module _ (class_count : ℕ) (cb : ℕ → EntityManager → Run (EntityManager × Bool)) where
  visit-IsManager :
      (d : Option ℕ) (m : EntityManager) (held dying : List ℕ)
      → IsTameVisit class_count cb
      → IsManager class_count m held dying
      → Safe (λ t. IsManager class_count t.0 held dying) (visit cb d m)
  visit-IsManager none m held dying tame w = done w
  visit-IsManager (some e) m held dying tame w = tame e m held dying w

  foreach_from-IsManager :
      (fuel : ℕ) (cursor : Option ℕ) (m : EntityManager) (held dying : List ℕ)
      → IsTameVisit class_count cb
      → IsManager class_count m held dying
      → IsListed cursor m.entity_list.nodes
      → Safe (λ t. IsManager class_count t held dying) (foreach_from cb fuel cursor m)
  unfolding foreach_from
  foreach_from-IsManager zero none m held dying tame w i = done w
  foreach_from-IsManager (suc fuel) none m held dying tame w i = done w
  foreach_from-IsManager zero (some n) m held dying tame w i = spent
  foreach_from-IsManager (suc fuel) (some n) m held dying tame w i =
      let r = ref_of_node m.entity_list held n w.nodes i in
      chain (in_time (incr_ref-IsCounted m.entity_list held n w.nodes r)) λ l (v, _, same).
        chain
          (visit-IsManager (l.raw_data n) (record m { entity_list = l }) (n ∷ held) dying tame
            (relisted-IsManager class_count m held dying (n ∷ held) l w v same))
          λ (t, go_on) x. elim (Bool-cases go_on) [
            | inr h ↦ rw h (
                chain (in_time (decr_ref-IsCounted t.entity_list held n x.nodes)) λ k (z, _, g).
                  done (relisted-IsManager class_count t (n ∷ held) dying held k x z g))
            | inl h ↦ rw h (
                chain (in_time (leave-IsCounted t.entity_list held n x.nodes))
                  λ (k, next) (z, g, j, _, _, _).
                    foreach_from-IsManager fuel next (record t { entity_list = k }) held dying tame
                      (relisted-IsManager class_count t (n ∷ held) dying held k x z g) j)
          ]

  -- ForeachEntity touches no freed node, whatever a tame callback does to the manager.
  pub foreach_entity-IsManager :
      (fuel : ℕ) (m : EntityManager) (held dying : List ℕ)
      → IsTameVisit class_count cb
      → IsManager class_count m held dying
      → Safe (λ t. IsManager class_count t held dying) (foreach_entity cb fuel m)
  unfolding foreach_entity
  foreach_entity-IsManager fuel m held dying tame w =
      foreach_from-IsManager fuel (first m.entity_list.nodes) m held dying tame w
        (first-IsListed m.entity_list.nodes)
