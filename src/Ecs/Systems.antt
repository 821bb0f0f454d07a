-- ===== src/Ecs/Systems.antt =====
-- include/mzx/ecs.h, EntitySystemManager: one system for each class, updated in the order in which
-- they were added.
--
-- A system is its class. What the Update of a system calls of the manager is the parameter `act`.
pub mod Laws
pub mod Loops
pub mod Update
mod Tests
use mzx.Array.{length}
use mzx.Base.{
  ℕ, zero, suc, ◌≡◌, Bool, true, false, Option, none, some, List, [], ◌∷◌, ◌++◌, ◌==◌,
  if◌then◌else◌,
}
use mzx.Run.{Run, ok, abort, out_of_fuel, ◌>>=◌, ◌>>◌}
use mzx.SafeList.{SafeList, first, empty, alive, push_node, incr_ref, detach, leave}

-- the table of the nodes by class, the list of the systems, and the log of the updates
pub record Systems : Type 0 where
  pub systems : ℕ → Option ℕ
  pub system_list : SafeList ℕ
  pub updates : List ℕ

abbrev pub new_systems : Systems
new_systems = record { systems = λ class. none; system_list = empty; updates = [] }

abbrev pub set_system : ℕ → Option ℕ → (ℕ → Option ℕ) → ℕ → Option ℕ
set_system class n systems k = if k == class then n else systems k

-- MZX_CHECK fails for a class that has a system
unfoldable pub add_system : ℕ → Systems → Run Systems
add_system class s = elim (s.systems class) [
  | some n ↦ abort
  | none ↦ ok (record s {
    system_list = push_node class s.system_list;
    systems = set_system class (some s.system_list.next_name) s.systems;
  })
]

unfoldable pub remove_system : ℕ → Systems → Run Systems
remove_system class s = elim (s.systems class) [
  | none ↦ ok s
  | some n ↦ detach n s.system_list >>= λ (t, d).
      ok (record s { systems = set_system class none s.systems; system_list = t })
]

-- `if (system) { systems_[system->ClassIndex()] = nullptr; delete system; }`
abbrev pub forget : Option ℕ → (ℕ → Option ℕ) → ℕ → Option ℕ
forget none systems = systems
forget (some class) systems = set_system class none systems

unfoldable pub remove_systems_from : ℕ → Option ℕ → Systems → Run Systems
remove_systems_from fuel none s = ok s
remove_systems_from zero (some n) s = out_of_fuel
remove_systems_from (suc fuel) (some n) s = incr_ref n s.system_list >>= λ t.
    detach n t >>= λ (u, d). leave n u >>= λ (v, m).
    remove_systems_from fuel m (record s { systems = forget d s.systems; system_list = v })

unfoldable pub remove_all_system : Systems → Run Systems
unfolding remove_systems_from
remove_all_system s = remove_systems_from (length s.system_list.nodes) (first s.system_list.nodes) s

-- what a system calls of the manager
pub data Action : Type 0 where
  add remove update : ℕ → Action
  remove_all update_all : Action

-- what is updated: the system of a class, or the systems from the node at the cursor on
pub data Target : Type 0 where
  one : ℕ → Target
  from : Option ℕ → Target

module _ (act : ℕ → Systems → List Action) where
  -- the calls of a system's Update, where Update and UpdateAll of the manager are `again`
  unfoldable pub run_actions :
      (Target → Systems → Run Systems) → List Action → Systems → Run Systems
  unfolding add_system remove_system remove_all_system
  run_actions again [] s = ok s
  run_actions again (add class ∷ l) s = add_system class s >>= λ t. run_actions again l t
  run_actions again (remove class ∷ l) s = remove_system class s >>= λ t. run_actions again l t
  run_actions again (update class ∷ l) s = again (one class) s >>= λ t. run_actions again l t
  run_actions again (remove_all ∷ l) s = remove_all_system s >>= λ t. run_actions again l t
  run_actions again (update_all ∷ l) s =
      again (from (first s.system_list.nodes)) s >>= λ t. run_actions again l t

  -- `if (system_node->Get()) { system_node->Get()->Update(args...); }`
  unfoldable pub update_node : (Target → Systems → Run Systems) → Option ℕ → Systems → Run Systems
  unfolding run_actions
  update_node again none s = ok s
  update_node again (some class) s =
      let t = record s { updates = s.updates ++ class ∷ [] } in run_actions again (act class t) t

  -- Update of the manager
  unfoldable pub update_system : (Target → Systems → Run Systems) → ℕ → Systems → Run Systems
  unfolding update_node
  update_system again class s = elim (s.systems class) [
    | none ↦ ok s
    | some n ↦ alive n s.system_list >> update_node again (s.system_list.raw_data n) s
  ]

  unfoldable pub update_target : ℕ → Target → Systems → Run Systems
  unfolding update_node update_system
  update_target zero target s = out_of_fuel
  update_target (suc fuel) (one class) s = update_system (update_target fuel) class s
  update_target (suc fuel) (from none) s = ok s
  update_target (suc fuel) (from (some n)) s = incr_ref n s.system_list >>= λ t.
      update_node (update_target fuel) (t.raw_data n) (record s { system_list = t }) >>= λ u.
      leave n u.system_list >>= λ (v, m). update_target fuel (from m) (record u { system_list = v })

  unfoldable pub update_all_systems : ℕ → Systems → Run Systems
  unfolding update_target
  update_all_systems fuel s = update_target fuel (from (first s.system_list.nodes)) s
