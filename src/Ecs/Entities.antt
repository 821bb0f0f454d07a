-- ===== src/Ecs/Entities.antt =====
-- src/ecs.cpp and include/mzx/ecs.h: EntityManager and Entity.
--
-- An entity is named by its id, which is its address and never given twice; a component is named by its address, and its
-- class is its place in component_list_. An entity that has been deleted is not in the store, and
-- to touch it is a fault. The four events of the manager are the parameter `notify`.
pub mod Visits
pub mod Laws
pub mod Removal
pub mod Adding
pub mod Dispatch
mod Tests
use mzx.Array.{length, get_elem?, set}
use mzx.Base.{
  ℕ, zero, suc, ◌+◌, ◌≡◌, Bool, true, false, Option, none, some, List, [], ◌∷◌, ◌++◌, ◌==◌, ltb,
  if◌then◌else◌,
}
use mzx.Run.{Run, ok, abort, fault, out_of_fuel, ◌>>=◌, ◌>>◌}
use mzx.SafeList.{SafeList, first, empty, alive, push_node, incr_ref, decr_ref, detach, leave}

pub record Entity : Type 0 where
  pub component_list : List (Option ℕ)

pub record EntityManager : Type 0 where
  pub entities : ℕ → Option ℕ
  pub entity_list : SafeList ℕ
  pub store : ℕ → Option Entity
  pub next_entity : ℕ

abbrev pub new_manager : EntityManager
new_manager = record {
  entities = λ id. none;
  entity_list = empty;
  store = λ e. none;
  next_entity = 0;
}

-- the events that the manager invokes
pub data Notice : Type 0 where
  entity_add entity_remove : ℕ → Notice
  component_add component_remove : ℕ → ℕ → Notice

abbrev pub set_entity : ℕ → Option ℕ → (ℕ → Option ℕ) → ℕ → Option ℕ
set_entity id n entities k = if k == id then n else entities k

abbrev pub set_store : ℕ → Option Entity → EntityManager → EntityManager
set_store e x m = record m { store = λ k. if k == e then x else m.store k }

-- the access through a pointer to an entity
abbrev pub load_entity : ℕ → EntityManager → Run Entity
load_entity e m = elim (m.store e) [ none ↦ fault | some x ↦ ok x ]

-- `component_list_[class_index]`
abbrev pub load_slot : ℕ → Entity → Run (Option ℕ)
load_slot class x = elim (get_elem? x.component_list class) [ none ↦ fault | some slot ↦ ok slot ]

-- `component_list_[class_index] = slot`
abbrev pub store_slot : ℕ → ℕ → Option ℕ → Entity → EntityManager → EntityManager
store_slot e class slot x m =
    set_store e (some (record x { component_list = set x.component_list class slot })) m

abbrev pub no_components : ℕ → List (Option ℕ)
no_components zero = []
no_components (suc n) = none ∷ no_components n

unfoldable pub get_entity : ℕ → EntityManager → Run (Option ℕ)
get_entity id m = elim (m.entities id) [
  | none ↦ ok none
  | some n ↦ alive n m.entity_list >> ok (m.entity_list.raw_data n)
]

module _ (class_count : ℕ) (notify : Notice → EntityManager → Run EntityManager) where
  -- AddComponent, CopyComponent and AttachComponent: the component, or nullptr when the listeners
  -- have changed the slot
  unfoldable pub add_component : ℕ → ℕ → ℕ → EntityManager → Run (EntityManager × Option ℕ)
  add_component e class component m = load_entity e m >>= λ x. load_slot class x >>= λ slot.
      elim slot [
        | some c ↦ abort
        | none ↦
            notify (component_add e component) (store_slot e class (some component) x m) >>= λ t.
            load_entity e t >>= λ y. load_slot class y >>= λ now.
            ok (
              t,
              elim now [ none ↦ none | some c ↦ if c == component then some component else none ],
            )
      ]

  -- RemoveComponent, and DetachComponent, which returns the component
  unfoldable pub remove_component : ℕ → ℕ → EntityManager → Run (EntityManager × Option ℕ)
  remove_component e class m = load_entity e m >>= λ x. load_slot class x >>= λ slot. elim slot [
    | none ↦ ok (m, none)
    | some component ↦ notify (component_remove e component) (store_slot e class none x m) >>= λ t.
        ok (t, some component)
  ]

  -- DetachComponent, where the caller gets the component
  unfoldable pub detach_component : ℕ → ℕ → EntityManager → Run (EntityManager × Option ℕ)
  unfolding remove_component
  detach_component e class m = remove_component e class m

  -- AttachComponent, whose class is that of the component
  unfoldable pub attach_component : ℕ → ℕ → ℕ → EntityManager → Run (EntityManager × Option ℕ)
  unfolding add_component
  attach_component e class component m = add_component e class component m

  -- CopyComponent, where `clone` is the image's Clone
  unfoldable pub copy_component :
      (ℕ → ℕ) → ℕ → ℕ → ℕ → EntityManager → Run (EntityManager × Option ℕ)
  unfolding add_component
  copy_component clone e class image m = add_component e class (clone image) m

  -- the `for` of RemoveAllComponent, with `rounds` classes left from `class` on
  unfoldable pub remove_components : ℕ → ℕ → ℕ → EntityManager → Run EntityManager
  unfolding remove_component
  remove_components zero class e m = ok m
  remove_components (suc rounds) class e m =
      remove_component e class m >>= λ (t, c). remove_components rounds (suc class) e t

  unfoldable pub remove_all_component : ℕ → EntityManager → Run EntityManager
  unfolding remove_components
  remove_all_component e m = remove_components class_count 0 e m

  -- `entity->RemoveAllComponent(); entity_remove_event_.Invoke(entity); delete entity;`
  unfoldable pub destroy : ℕ → EntityManager → Run EntityManager
  unfolding remove_all_component
  destroy e m = remove_all_component e m >>= λ t.
      notify (entity_remove e) t >>= λ u. remove_all_component e u >>= λ v. ok (set_store e none v)

  abbrev pub destroy_found : Option ℕ → EntityManager → Run EntityManager
  destroy_found none m = ok m
  destroy_found (some e) m = destroy e m

  unfoldable pub add_entity : EntityManager → Run (EntityManager × Option ℕ)
  add_entity m =
      let e = m.next_entity in
      let n = m.entity_list.next_name in
      let t = set_store e (some (record { component_list = no_components class_count })) m in
      incr_ref n (push_node e m.entity_list) >>= λ l.
      notify (entity_add e) (record t {
        entities = set_entity e (some n) m.entities;
        entity_list = l;
        next_entity = suc e;
      })
      >>= λ u. decr_ref n u.entity_list >>= λ v.
          ok (record u { entity_list = v }, u.entity_list.raw_data n)

  unfoldable pub remove_entity : ℕ → EntityManager → Run EntityManager
  unfolding destroy
  remove_entity id m = elim (m.entities id) [
    | none ↦ ok m
    | some n ↦ detach n m.entity_list >>= λ (l, d).
        destroy_found d (record m { entities = set_entity id none m.entities; entity_list = l })
  ]

  abbrev pub erase_found : Option ℕ → (ℕ → Option ℕ) → ℕ → Option ℕ
  erase_found none entities = entities
  erase_found (some e) entities = set_entity e none entities

  unfoldable pub remove_entities_from : ℕ → Option ℕ → EntityManager → Run EntityManager
  unfolding destroy
  remove_entities_from fuel none m = ok m
  remove_entities_from zero (some n) m = out_of_fuel
  remove_entities_from (suc fuel) (some n) m = incr_ref n m.entity_list >>= λ l.
      detach n l >>= λ (k, d).
      destroy_found d (record m { entities = erase_found d m.entities; entity_list = k }) >>= λ t.
      leave n t.entity_list >>= λ (u, next).
      remove_entities_from fuel next (record t { entity_list = u })

  unfoldable pub remove_all_entity : ℕ → EntityManager → Run EntityManager
  unfolding remove_entities_from
  remove_all_entity fuel m = remove_entities_from fuel (first m.entity_list.nodes) m
