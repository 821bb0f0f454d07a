-- ===== src/Ecs/Entities/Tests.antt =====
-- A manager with two classes of components, run and checked.
use mzx.Array.{set}
use mzx.Base.{ℕ, ◌≡◌, refl, Option, none, some, List, [], ◌∷◌, ◌==◌, if◌then◌else◌}
use mzx.Run.{Run, ok, fault, ◌>>=◌, Safe}
use mzx.SafeList.{
  push_node, set_ref, set_data, incr_ref, delete_node, decr_ref, detach, next_node, leave,
}
use mzx.SafeList.Detach.{empty-IsCounted}
use mzx.Ecs.Entities.{
  EntityManager, Notice, entity_add, entity_remove, component_add, component_remove, new_manager,
  add_entity, remove_entity, add_component, remove_component, remove_components,
  remove_all_component, destroy,
}
use mzx.Ecs.Entities.Laws.{IsManager}
use mzx.Ecs.Entities.Dispatch.{
  Call, add, remove, remove_all, remove_class, run_call, run_calls, run_listeners, notify_all,
  calls-IsManager,
}

new_manager-IsManager : IsManager 2 new_manager [] []
new_manager-IsManager = record {
  nodes = empty-IsCounted;
  table = record { there = λ c n e. absurd cc; back = λ c n e. absurd cc };
  living = λ e. refl;
  fresh = λ e h. refl;
  sized = λ e x h. absurd cc;
}

-- a new entity is removed at once by the first listener, and the second one adds another for each
-- that is removed
abbrev listeners : Notice → List (EntityManager → List Call)
listeners (entity_add e) = (λ m. if e == 0 then remove 0 ∷ [] else []) ∷ []
listeners (entity_remove e) = (λ m. if e == 0 then add ∷ remove_class 1 1 ∷ [] else []) ∷ []
listeners (component_add e c) = []
listeners (component_remove e c) = []

calls-IsManager_example :
    Safe
      (λ t. IsManager 2 t [] [])
      (run_calls 2 listeners
        (notify_all 2 listeners 5)
        5
        (add ∷ add ∷ remove 2 ∷ remove_all ∷ [])
        new_manager)
calls-IsManager_example =
    calls-IsManager 2 listeners 5 (add ∷ add ∷ remove 2 ∷ remove_all ∷ []) new_manager
      new_manager-IsManager

-- a listener removes the entity that gets a component
abbrev removing : Notice → List (EntityManager → List Call)
removing (component_add e c) = (λ m. remove e ∷ []) ∷ []
removing notice = []

abbrev silent : Notice → List (EntityManager → List Call)
silent notice = []

abbrev outcome : Run (EntityManager × Option ℕ) → Option (Option ℕ)
outcome (ok (m, c)) = some c
outcome r = none

abbrev add_both : (Notice → List (EntityManager → List Call)) → Run (EntityManager × Option ℕ)
add_both l = add_entity 2 (notify_all 2 l 3) new_manager >>= λ (m, e).
    add_component 2 (notify_all 2 l 3) 0 1 7 m

component_added : outcome (add_both silent) ≡ some (some 7)
unfolding add_entity add_component notify_all run_listeners run_calls run_call push_node set_ref
    set_data incr_ref leave next_node decr_ref delete_node set
component_added = refl

-- AddComponent reads the slots of the entity that its listener has deleted
freed_read : add_both removing ≡ fault
unfolding add_entity add_component remove_entity destroy remove_all_component remove_components
    remove_component notify_all run_listeners run_calls run_call push_node set_ref set_data incr_ref
    leave next_node decr_ref delete_node detach set
freed_read = refl
