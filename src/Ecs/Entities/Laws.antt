-- ===== src/Ecs/Entities/Laws.antt =====
-- Every entity that exists is either in the manager, once, or about to be deleted, once.
use mzx.Array.{length, get_elem?, set, length-set}
use mzx.Base.{
  ℕ, zero, suc, ◌+◌, ◌≤◌, ◌<◌, ◌≡◌, refl, sym, ap, ◌∙◌, true, Option, none, some, List, [], ◌∷◌,
  ◌==◌, arith, Bool-cases, Option-cases, inl, inr,
}
use mzx.Run.{Run, Safe, done, chain}
use mzx.SafeList.Laws.{count_in, IsCounted, owned}
use mzx.Ecs.Systems.Laws.{IsTable}
use mzx.Ecs.Entities.{
  Entity, EntityManager, Notice, entity_remove, component_remove, set_store, load_entity, load_slot,
  store_slot, remove_component, remove_components, remove_all_component, destroy,
}

abbrev pub stored : Option Entity → ℕ
stored none = 0
stored (some x) = 1

-- `held` are the nodes that loops hold, and `dying` the entities that are being destroyed
pub record IsManager (class_count : ℕ) (m : EntityManager) (held dying : List ℕ) : Type 0 where
  pub nodes : IsCounted m.entity_list held
  pub table : IsTable m.entities m.entity_list.raw_data
  pub living : (e : ℕ) → owned (m.entities e) + count_in e dying ≡ stored (m.store e)
  pub fresh : (e : ℕ) → m.next_entity ≤ e → m.store e ≡ none
  pub sized : (e : ℕ) (x : Entity) → m.store e ≡ some x → length x.component_list ≡ class_count

pub stored-some : (o : Option Entity) → 0 < stored o → (x : Entity) × (o ≡ some x)
stored-some none h = absurd (omega (arith, h))
stored-some (some x) h = (x, refl)

pub some_same : (a b : Entity) → some a ≡ some b → a ≡ b
some_same a b e = ap (λ o. elim o [ none ↦ a | some x ↦ x ]) e

slot_there :
    (l : List (Option ℕ)) (i : ℕ) → i < length l → (x : Option ℕ) × (get_elem? l i ≡ some x)
slot_there [] i h = absurd (omega (arith, h))
slot_there (x ∷ l) zero h = (x, refl)
slot_there (x ∷ l) (suc i) h = slot_there l i (omega (arith, h))

-- a slot of an entity that exists is written
pub store_slot-IsManager :
    (class_count : ℕ) (m : EntityManager) (held dying : List ℕ) (e class : ℕ) (slot : Option ℕ)
    (x : Entity)
    → IsManager class_count m held dying
    → m.store e ≡ some x
    → IsManager class_count (store_slot e class slot x m) held dying
store_slot-IsManager class_count m held dying e class slot x w h = record {
  nodes = w.nodes;
  table = w.table;
  living = λ k. elim (Bool-cases (k == e)) [
    | inl q ↦ let same : k ≡ e = ground arith in rw q (w.living k ∙ ap stored (ap m.store same ∙ h))
    | inr q ↦ rw q (w.living k)
  ];
  fresh = λ k u. elim (Bool-cases (k == e)) [
    | inl q ↦
        let same : k ≡ e = ground arith in
        absurd (let z = ap stored (sym (w.fresh k u) ∙ ap m.store same ∙ h) in omega (arith, z))
    | inr q ↦ rw q (w.fresh k u)
  ];
  sized = λ k y u. elim (Bool-cases (k == e)) [
    | inl q ↦
        let z : record x { component_list = set x.component_list class slot } ≡ y =
          some_same (record x { component_list = set x.component_list class slot }) y (rw q at u) in
        sym (ap (λ (i : Entity). length i.component_list) z)
        ∙ length-set x.component_list class slot
        ∙ w.sized e x h
    | inr q ↦ w.sized k y (rw q at u)
  ];
}

module _ (class_count : ℕ) (notify : Notice → EntityManager → Run EntityManager) where
  -- what the listeners of the manager's events may do
  abbrev pub IsTame : Type 0
  IsTame =
      (notice : Notice) (m : EntityManager) (held dying : List ℕ)
      → IsManager class_count m held dying
      → Safe (λ t. IsManager class_count t held dying) (notify notice m)

  -- the component is taken out and, when the listeners have been called, deleted
  pub remove_component-IsManager :
      (e class : ℕ) (m : EntityManager) (held dying : List ℕ)
      → IsTame
      → class < class_count
      → 0 < stored (m.store e)
      → IsManager class_count m held dying
      → Safe
          (λ t. IsManager class_count t.0 held dying)
          (remove_component class_count notify e class m)
  unfolding remove_component
  remove_component-IsManager e class m held dying tame inside exists w =
      let (x, h) = stored-some (m.store e) exists in
      let size = w.sized e x h in
      let (slot, q) = slot_there x.component_list class (omega (arith, size, inside)) in
      rw (remove_component, load_entity, h, load_slot, q)
        (elim (Option-cases slot) [
          | inl s ↦ rw s (done w)
          | inr (c, s) ↦ rw s (
              chain
                (tame (component_remove e c) (store_slot e class none x m) held dying
                  (store_slot-IsManager class_count m held dying e class none x w h))
                λ t v. done v)
        ])

  pub remove_components-IsManager :
      (rounds class e : ℕ) (m : EntityManager) (held dying : List ℕ)
      → IsTame
      → class + rounds ≡ class_count
      → 0 < count_in e dying
      → IsManager class_count m held dying
      → Safe
          (λ t. IsManager class_count t held dying)
          (remove_components class_count notify rounds class e m)
  unfolding remove_components
  remove_components-IsManager zero class e m held dying tame h d w = done w
  remove_components-IsManager (suc rounds) class e m held dying tame h d w =
      let l = w.living e in
      chain
        (remove_component-IsManager e class m held dying tame (omega (arith, h))
          (omega (arith, l, d)) w)
        λ (t, c) v.
          remove_components-IsManager rounds (suc class) e t held dying tame (omega (arith, h)) d v

  -- an entity that is about to be deleted is deleted
  deleted :
      (m : EntityManager) (held dying : List ℕ) (e : ℕ)
      → IsManager class_count m held (e ∷ dying)
      → IsManager class_count (set_store e none m) held dying
  deleted m held dying e w = record {
    nodes = w.nodes;
    table = w.table;
    living = λ k. elim (Bool-cases (k == e)) [
      | inl q ↦
          let same : k ≡ e = ground arith in
          let l = w.living k in
          let b = at_most_one (m.store k) in rw q (omega (arith, rw q at l, b))
      | inr q ↦ let l = rw q at (w.living k) in rw q (omega (arith, l))
    ];
    fresh = λ k u. elim (Bool-cases (k == e)) [ inl q ↦ rw q refl | inr q ↦ rw q (w.fresh k u) ];
    sized = λ k y u. elim (Bool-cases (k == e)) [
      | inl q ↦ absurd (let z = ap stored (rw q at u) in omega (arith, z))
      | inr q ↦ w.sized k y (rw q at u)
    ];
  }
    where
      at_most_one : (o : Option Entity) → stored o ≤ 1
      at_most_one none = omega arith
      at_most_one (some x) = omega arith

  pub destroy-IsManager :
      (e : ℕ) (m : EntityManager) (held dying : List ℕ)
      → IsTame
      → IsManager class_count m held (e ∷ dying)
      → Safe (λ t. IsManager class_count t held dying) (destroy class_count notify e m)
  unfolding destroy remove_all_component
  destroy-IsManager e m held dying tame w =
      let hit : (e == e) ≡ true = ground arith in
      let d : 0 < count_in e (e ∷ dying) = rw hit (omega arith) in
      let all = λ (t : EntityManager) (v : IsManager class_count t held (e ∷ dying)).
        remove_components-IsManager class_count 0 e t held (e ∷ dying) tame (omega arith) d v in
      chain (all m w) λ t v.
        chain (tame (entity_remove e) t held (e ∷ dying) v)
          λ u x. chain (all u x) λ y z. done (deleted y held dying e z)
