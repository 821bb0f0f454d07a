-- ===== src/Ecs/Entities/Removal.antt =====
-- AddEntity, RemoveEntity and RemoveAllEntity, whose events may change the manager.
use mzx.Base.{
  ℕ, zero, suc, ◌≡◌, refl, sym, ap, ◌∙◌, true, Option, none, some, List, ◌∷◌, ◌==◌, arith,
  Bool-cases, Option-cases, inl, inr,
}
use mzx.Run.{Run, Safe, done, spent, in_time, chain}
use mzx.SafeList.{SafeList, first}
use mzx.SafeList.Laws.{IsCounted, owned, ref_of_data, ref_of_node, ref_of_held, incr_ref-IsCounted}
use mzx.SafeList.Detach.{without}
use mzx.SafeList.Detaches.{detach-Detaches}
use mzx.SafeList.Walk.{IsListed, first-IsListed, leave-IsCounted}
use mzx.Ecs.Systems.Laws.{forget-IsTable}
use mzx.Ecs.Systems.Loops.{IsTable-cong}
use mzx.Ecs.Entities.{
  EntityManager, Notice, set_entity, destroy_found, remove_entity, erase_found,
  remove_entities_from, remove_all_entity,
}
use mzx.Ecs.Entities.Laws.{IsManager, IsTame, destroy-IsManager}

-- the entity of a node has been detached and its entry erased
detached-IsManager :
    (class_count : ℕ) (m : EntityManager) (held dying held' : List ℕ) (l k : SafeList ℕ) (n e : ℕ)
    → IsManager class_count m held dying
    → l.raw_data ≡ m.entity_list.raw_data
    → IsCounted k held'
    → ((i : ℕ) → k.raw_data i ≡ without n l.raw_data i)
    → l.raw_data n ≡ some e
    → IsManager class_count
        (record m { entities = set_entity e none m.entities; entity_list = k })
        held'
        (e ∷ dying)
detached-IsManager class_count m held dying held' l k n e w same v f h = record {
  nodes = v;
  table =
      forget-IsTable m.entities l.raw_data k.raw_data n (some e)
        (IsTable-cong m.entities same w.table) h f;
  living = λ i. elim (Bool-cases (i == e)) [
    | inl q ↦
        let hit : i ≡ e = ground arith in
        let b = w.table.back e n (ap (λ (p : ℕ → Option ℕ). p n) (sym same) ∙ h) in
        let o = ap owned (ap m.entities hit ∙ b) in let c = w.living i in rw q (omega (arith, c, o))
    | inr q ↦ let c = w.living i in rw q (omega (arith, c))
  ];
  fresh = w.fresh;
  sized = w.sized;
}

-- the manager with another list of the same data
pub relisted-IsManager :
    (class_count : ℕ) (m : EntityManager) (held dying held' : List ℕ) (l : SafeList ℕ)
    → IsManager class_count m held dying
    → IsCounted l held'
    → l.raw_data ≡ m.entity_list.raw_data
    → IsManager class_count (record m { entity_list = l }) held' dying
relisted-IsManager class_count m held dying held' l w v same = record {
  nodes = v;
  table = IsTable-cong m.entities same w.table;
  living = w.living;
  fresh = w.fresh;
  sized = w.sized;
}

module _ (class_count : ℕ) (notify : Notice → EntityManager → Run EntityManager) where
  -- RemoveEntity keeps every entity accounted for: it is deleted, once, when its components and the
  -- listeners are through, and it touches no freed node or entity, whatever tame listeners do.
  pub remove_entity-IsManager :
      (id : ℕ) (m : EntityManager) (held dying : List ℕ)
      → IsTame class_count notify
      → IsManager class_count m held dying
      → Safe (λ t. IsManager class_count t held dying) (remove_entity class_count notify id m)
  unfolding remove_entity
  remove_entity-IsManager id m held dying tame w = elim (Option-cases (m.entities id)) [
    | inl h ↦ rw (h, remove_entity) (done w)
    | inr (n, h) ↦
        let p = w.table.there id n h in
        let r = ref_of_data m.entity_list held n id w.nodes p in
        rw (h, remove_entity)
          (chain (in_time (detach-Detaches m.entity_list held n w.nodes r)) λ (l, d) (v, f, _, q).
            rw (q ∙ p) (
              destroy-IsManager class_count notify id
                (record m { entities = set_entity id none m.entities; entity_list = l }) held dying
                tame
                (detached-IsManager class_count m held dying held m.entity_list l n id w refl
                  v.counted f p)))
  ]

  remove_entities_from-IsManager :
      (fuel : ℕ) (cursor : Option ℕ) (m : EntityManager) (held dying : List ℕ)
      → IsTame class_count notify
      → IsManager class_count m held dying
      → IsListed cursor m.entity_list.nodes
      → Safe
          (λ t. IsManager class_count t held dying)
          (remove_entities_from class_count notify fuel cursor m)
  unfolding remove_entities_from
  remove_entities_from-IsManager zero none m held dying tame w i = done w
  remove_entities_from-IsManager (suc fuel) none m held dying tame w i = done w
  remove_entities_from-IsManager zero (some n) m held dying tame w i = spent
  remove_entities_from-IsManager (suc fuel) (some n) m held dying tame w i =
      let r = ref_of_node m.entity_list held n w.nodes i in
      let hit : (n == n) ≡ true = ground arith in
      chain (in_time (incr_ref-IsCounted m.entity_list held n w.nodes r)) λ l (v, _, same).
        chain
          (in_time (
            detach-Detaches l (n ∷ held) n v (ref_of_held l (n ∷ held) n v (rw hit (omega arith)))))
          λ (k, d) (x, f, _, q). chain (destroyed l k n d v x.counted f q same) λ t y.
            chain (in_time (leave-IsCounted t.entity_list held n y.nodes))
              λ (u, next) (z, g, j, _, _, _).
                remove_entities_from-IsManager fuel next (record t { entity_list = u }) held dying
                  tame (relisted-IsManager class_count t (n ∷ held) dying held u y z g) j
    where
      destroyed :
          (l k : SafeList ℕ) (n : ℕ) (d : Option ℕ)
          → IsCounted l (n ∷ held)
          → IsCounted k (n ∷ held)
          → ((j : ℕ) → k.raw_data j ≡ without n l.raw_data j)
          → d ≡ l.raw_data n
          → l.raw_data ≡ m.entity_list.raw_data
          → Safe
              (λ t. IsManager class_count t (n ∷ held) dying)
              (destroy_found class_count notify d (record m {
                entities = erase_found class_count notify d m.entities;
                entity_list = k;
              }))
      destroyed l k n none v x f q same = done (record {
        nodes = x;
        table =
            forget-IsTable m.entities l.raw_data k.raw_data n none
              (IsTable-cong m.entities same w.table) (sym q) f;
        living = w.living;
        fresh = w.fresh;
        sized = w.sized;
      })
      destroyed l k n (some e) v x f q same =
          destroy-IsManager class_count notify e
            (record m { entities = set_entity e none m.entities; entity_list = k }) (n ∷ held) dying
            tame (detached-IsManager class_count m held dying (n ∷ held) l k n e w same x f (sym q))

  -- RemoveAllEntity touches no freed node or entity and keeps every entity accounted for, whatever
  -- tame listeners do.
  pub remove_all_entity-IsManager :
      (fuel : ℕ) (m : EntityManager) (held dying : List ℕ)
      → IsTame class_count notify
      → IsManager class_count m held dying
      → Safe (λ t. IsManager class_count t held dying) (remove_all_entity class_count notify fuel m)
  unfolding remove_all_entity
  remove_all_entity-IsManager fuel m held dying tame w =
      remove_entities_from-IsManager fuel (first m.entity_list.nodes) m held dying tame w
        (first-IsListed m.entity_list.nodes)
