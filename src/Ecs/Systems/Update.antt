-- ===== src/Ecs/Systems/Update.antt =====
-- Update and UpdateAll, with systems that add, remove and update systems.
use mzx.Base.{ℕ, zero, suc, Option, none, some, List, [], ◌∷◌, ◌++◌, Option-cases, inl, inr}
use mzx.Run.{Run, NoFault, finished, exhausted, no_fault, carry_on}
use mzx.SafeList.{first}
use mzx.SafeList.Laws.{ref_of_data, ref_of_node, alive-IsCounted, incr_ref-IsCounted}
use mzx.SafeList.Walk.{IsListed, first-IsListed, leave-IsCounted}
use mzx.Ecs.Systems.{
  Systems, Action, add, remove, update, remove_all, update_all, Target, one, from, run_actions,
  update_node, update_system, update_target, update_all_systems,
}
use mzx.Ecs.Systems.Laws.{IsSystems, add_system-IsSystems, remove_system-IsSystems}
use mzx.Ecs.Systems.Loops.{IsTable-cong, remove_all_system-IsSystems}

-- a class, or a place that is on the list
IsTarget : Target → Systems → Type 0
IsTarget (one class) s = Unit {0}
IsTarget (from cursor) s = IsListed cursor s.system_list.nodes

module _ (act : ℕ → Systems → List Action) where
  IsTame : (Target → Systems → Run Systems) → Type 0
  IsTame again =
      (target : Target) (s : Systems) (held : List ℕ)
      → IsSystems s held
      → IsTarget target s
      → NoFault (λ t. IsSystems t held) (again target s)

  run_actions-IsSystems :
      (again : Target → Systems → Run Systems)
      → IsTame again
      → (l : List Action) (s : Systems) (held : List ℕ) → IsSystems s held
      → NoFault (λ t. IsSystems t held) (run_actions act again l s)
  unfolding run_actions IsTame IsTarget
  run_actions-IsSystems again tame [] s held w = finished w
  run_actions-IsSystems again tame (add class ∷ l) s held w =
      carry_on (add_system-IsSystems class s held w)
        λ t v. run_actions-IsSystems again tame l t held v
  run_actions-IsSystems again tame (remove class ∷ l) s held w =
      carry_on (no_fault (remove_system-IsSystems class s held w))
        λ t v. run_actions-IsSystems again tame l t held v.0
  run_actions-IsSystems again tame (update class ∷ l) s held w =
      carry_on (tame (one class) s held w tt) λ t v. run_actions-IsSystems again tame l t held v
  run_actions-IsSystems again tame (remove_all ∷ l) s held w =
      carry_on (no_fault (remove_all_system-IsSystems s held w))
        λ t v. run_actions-IsSystems again tame l t held v.0
  run_actions-IsSystems again tame (update_all ∷ l) s held w =
      carry_on
        (tame (from (first s.system_list.nodes)) s held w (first-IsListed s.system_list.nodes))
        λ t v. run_actions-IsSystems again tame l t held v

  update_node-IsSystems :
      (again : Target → Systems → Run Systems)
      → IsTame again
      → (d : Option ℕ) (s : Systems) (held : List ℕ) → IsSystems s held
      → NoFault (λ t. IsSystems t held) (update_node act again d s)
  unfolding update_node
  update_node-IsSystems again tame none s held w = finished w
  update_node-IsSystems again tame (some class) s held w =
      let t = record s { updates = s.updates ++ class ∷ [] } in
      run_actions-IsSystems again tame (act class t) t held
        (record { nodes = w.nodes; table = w.table })

  update_system-IsSystems :
      (again : Target → Systems → Run Systems)
      → IsTame again
      → (class : ℕ) (s : Systems) (held : List ℕ) → IsSystems s held
      → NoFault (λ t. IsSystems t held) (update_system act again class s)
  unfolding update_system
  update_system-IsSystems again tame class s held w = elim (Option-cases (s.systems class)) [
    | inl e ↦ rw (e, update_system) (finished w)
    | inr (n, e) ↦
        let p = w.table.there class n e in
        let r = ref_of_data s.system_list held n class w.nodes p in
        rw (e, update_system, alive-IsCounted s.system_list held n w.nodes r)
          (update_node-IsSystems again tame (s.system_list.raw_data n) s held w)
  ]

  update_target-IsSystems : (fuel : ℕ) → IsTame (update_target act fuel)
  unfolding update_target IsTame IsTarget
  update_target-IsSystems zero target s held w l = exhausted
  update_target-IsSystems (suc fuel) (one class) s held w l =
      update_system-IsSystems (update_target act fuel) (update_target-IsSystems fuel) class s held w
  update_target-IsSystems (suc fuel) (from none) s held w l = finished w
  update_target-IsSystems (suc fuel) (from (some n)) s held w l =
      let r = ref_of_node s.system_list held n w.nodes l in
      carry_on (no_fault (incr_ref-IsCounted s.system_list held n w.nodes r)) λ t (v, _, q).
        carry_on
          (update_node-IsSystems (update_target act fuel) (update_target-IsSystems fuel)
            (t.raw_data n) (record s { system_list = t }) (n ∷ held)
            (record { nodes = v; table = IsTable-cong s.systems q w.table }))
          λ u x.
            carry_on (no_fault (leave-IsCounted u.system_list held n x.nodes))
              λ (y, m) (z, g, i, _, _, _).
                update_target-IsSystems fuel (from m) (record u { system_list = y }) held
                  (record { nodes = z; table = IsTable-cong u.systems g x.table }) i

  -- UpdateAll on a manager in order never touches a freed node, whatever the systems call: adding,
  -- removing and updating one or all of them. When it returns, the table and the list of the
  -- systems agree. A check can fail, as when a system is added twice, and the fuel can run out.
  pub update_all_systems-IsSystems :
      (fuel : ℕ) (s : Systems) (held : List ℕ)
      → IsSystems s held
      → NoFault (λ t. IsSystems t held) (update_all_systems act fuel s)
  unfolding update_all_systems IsTame IsTarget
  update_all_systems-IsSystems fuel s held w =
      update_target-IsSystems fuel (from (first s.system_list.nodes)) s held w
        (first-IsListed s.system_list.nodes)
