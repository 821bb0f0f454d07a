-- ===== src/Ecs/Systems/Tests.antt =====
-- A manager with two systems.
use mzx.Base.{ℕ, ◌≡◌, refl, Option, none, some, List, [], ◌∷◌, ◌==◌, if◌then◌else◌}
use mzx.Run.{Run, ok, Returns, NoFault}
use mzx.SafeList.{push_node, set_ref, set_data, incr_ref, delete_node, decr_ref, next_node, leave}
use mzx.Ecs.Systems.{
  Systems, Action, add, remove, update, update_all, new_systems, add_system, remove_all_system,
  run_actions, update_node, update_target, update_all_systems, set_system,
}
use mzx.Ecs.Systems.Laws.{IsSystems, new_systems-IsSystems, add_system-IsSystems}
use mzx.Ecs.Systems.Loops.{remove_all_system-IsSystems}
use mzx.Ecs.Systems.Update.{update_all_systems-IsSystems}

abbrev with_system : ℕ → Systems → Systems
with_system class s = record s {
  system_list = push_node class s.system_list;
  systems = set_system class (some s.system_list.next_name) s.systems;
}

abbrev two : Systems
two = with_system 5 (with_system 3 new_systems)

added : {s : Systems} → NoFault (λ t. IsSystems t []) (ok s) → IsSystems s []
added (NoFault.finished w) = w

two-IsSystems : IsSystems two []
unfolding add_system push_node set_ref set_data
two-IsSystems = added (
    add_system-IsSystems 5 (with_system 3 new_systems) []
      (added (add_system-IsSystems 3 new_systems [] new_systems-IsSystems)))

remove_all_system-IsSystems_example :
    Returns
      (λ t.
        IsSystems t []
        × ((n : ℕ) → t.system_list.raw_data n ≡ none)
        × ((c : ℕ) → t.systems c ≡ none))
      (remove_all_system two)
remove_all_system-IsSystems_example = remove_all_system-IsSystems two [] two-IsSystems

-- the system 3 removes itself and adds the system 4, and the system 4 updates all
abbrev busy : ℕ → Systems → List Action
busy class s =
    if class == 3
    then remove 3 ∷ add 4 ∷ []
    else (if class == 4 then update 5 ∷ update_all ∷ [] else [])

update_all_systems-IsSystems_example : NoFault (λ t. IsSystems t []) (update_all_systems busy 4 two)
update_all_systems-IsSystems_example = update_all_systems-IsSystems busy 4 two [] two-IsSystems

abbrev calm : ℕ → Systems → List Action
calm class s = []

abbrev updates_of : Run Systems → Option (List ℕ)
updates_of (ok s) = some s.updates
updates_of r = none

in_order : updates_of (update_all_systems calm 3 two) ≡ some (3 ∷ 5 ∷ [])
unfolding update_all_systems update_target update_node run_actions push_node set_ref set_data
    incr_ref leave next_node decr_ref delete_node
in_order = refl
