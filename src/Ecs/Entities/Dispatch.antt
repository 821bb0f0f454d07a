-- ===== src/Ecs/Entities/Dispatch.antt =====
-- The manager's events with listeners that call the manager by the ids of entities.
use mzx.Base.{
  ℕ, zero, suc, ap, none, some, List, [], ◌∷◌, ltb, if◌then◌else◌, arith, Bool-cases, Option-cases,
  inl, inr,
}
use mzx.Run.{Run, ok, out_of_fuel, ◌>>=◌, Safe, done, spent, chain}
use mzx.SafeList.Laws.{owned}
use mzx.Ecs.Entities.{
  EntityManager, Notice, add_entity, remove_entity, remove_all_entity, remove_component,
}
use mzx.Ecs.Entities.Laws.{IsManager, IsTame, remove_component-IsManager}
use mzx.Ecs.Entities.Removal.{remove_entity-IsManager, remove_all_entity-IsManager}
use mzx.Ecs.Entities.Adding.{add_entity-IsManager}

-- what a listener calls of the manager: a component is removed through GetEntity, and its class is
-- one of those that there are
pub data Call : Type 0 where
  add remove_all : Call
  remove : ℕ → Call
  remove_class : ℕ → ℕ → Call

-- the listeners of the four events: each decides what it calls when its turn comes
module _ (class_count : ℕ) (listeners : Notice → List (EntityManager → List Call)) where
  unfoldable pub run_call :
      (Notice → EntityManager → Run EntityManager) → ℕ → Call → EntityManager → Run EntityManager
  run_call notify fuel add m = add_entity class_count notify m >>= λ (t, e). ok t
  run_call notify fuel remove_all m = remove_all_entity class_count notify fuel m
  run_call notify fuel (remove id) m = remove_entity class_count notify id m
  run_call notify fuel (remove_class id class) m = elim (m.entities id) [
    | none ↦ ok m
    | some n ↦
        if ltb class class_count
        then (remove_component class_count notify id class m >>= λ (t, c). ok t)
        else ok m
  ]

  unfoldable pub run_calls :
      (Notice → EntityManager → Run EntityManager)
      → ℕ
      → List Call
      → EntityManager
      → Run EntityManager
  unfolding run_call
  run_calls notify fuel [] m = ok m
  run_calls notify fuel (c ∷ l) m = run_call notify fuel c m >>= λ t. run_calls notify fuel l t

  unfoldable pub run_listeners :
      (Notice → EntityManager → Run EntityManager)
      → ℕ
      → List (EntityManager → List Call)
      → EntityManager
      → Run EntityManager
  unfolding run_calls
  run_listeners notify fuel [] m = ok m
  run_listeners notify fuel (f ∷ l) m =
      run_calls notify fuel (f m) m >>= λ t. run_listeners notify fuel l t

  -- `entity_add_event_.Invoke(entity)` and the like, in calls nested to a depth of `fuel`
  unfoldable pub notify_all : ℕ → Notice → EntityManager → Run EntityManager
  unfolding run_listeners
  notify_all zero notice m = out_of_fuel
  notify_all (suc fuel) notice m = run_listeners (notify_all fuel) fuel (listeners notice) m

  run_call-IsManager :
      (notify : Notice → EntityManager → Run EntityManager) (fuel : ℕ) (c : Call)
      (m : EntityManager) (held dying : List ℕ)
      → IsTame class_count notify
      → IsManager class_count m held dying
      → Safe (λ t. IsManager class_count t held dying) (run_call notify fuel c m)
  unfolding run_call
  run_call-IsManager notify fuel add m held dying tame w =
      chain (add_entity-IsManager class_count notify m held dying tame w) λ t v. done v
  run_call-IsManager notify fuel remove_all m held dying tame w =
      remove_all_entity-IsManager class_count notify fuel m held dying tame w
  run_call-IsManager notify fuel (remove id) m held dying tame w =
      remove_entity-IsManager class_count notify id m held dying tame w
  run_call-IsManager notify fuel (remove_class id class) m held dying tame w =
      elim (Option-cases (m.entities id)) [
        | inl h ↦ rw (h, run_call) (done w)
        | inr (n, h) ↦
            let l = w.living id in
            let o = ap owned h in
            rw (h, run_call)
              (elim (Bool-cases (ltb class class_count)) [
                | inl q ↦ rw q (
                    chain
                      (remove_component-IsManager class_count notify id class m held dying tame
                        (ground (arith, q)) (omega (arith, l, o)) w)
                      λ t v. done v)
                | inr q ↦ rw q (done w)
              ])
      ]

  run_calls-IsManager :
      (notify : Notice → EntityManager → Run EntityManager) (fuel : ℕ) (l : List Call)
      (m : EntityManager) (held dying : List ℕ)
      → IsTame class_count notify
      → IsManager class_count m held dying
      → Safe (λ t. IsManager class_count t held dying) (run_calls notify fuel l m)
  unfolding run_calls
  run_calls-IsManager notify fuel [] m held dying tame w = done w
  run_calls-IsManager notify fuel (c ∷ l) m held dying tame w =
      chain (run_call-IsManager notify fuel c m held dying tame w)
        λ t v. run_calls-IsManager notify fuel l t held dying tame v

  run_listeners-IsManager :
      (notify : Notice → EntityManager → Run EntityManager) (fuel : ℕ)
      (l : List (EntityManager → List Call)) (m : EntityManager) (held dying : List ℕ)
      → IsTame class_count notify
      → IsManager class_count m held dying
      → Safe (λ t. IsManager class_count t held dying) (run_listeners notify fuel l m)
  unfolding run_listeners
  run_listeners-IsManager notify fuel [] m held dying tame w = done w
  run_listeners-IsManager notify fuel (f ∷ l) m held dying tame w =
      chain (run_calls-IsManager notify fuel (f m) m held dying tame w)
        λ t v. run_listeners-IsManager notify fuel l t held dying tame v

  pub notify_all-IsTame : (fuel : ℕ) → IsTame class_count (notify_all fuel)
  unfolding notify_all
  notify_all-IsTame zero notice m held dying w = spent
  notify_all-IsTame (suc fuel) notice m held dying w =
      run_listeners-IsManager (notify_all fuel) fuel (listeners notice) m held dying
        (notify_all-IsTame fuel) w

  -- A sequence of calls of AddEntity, RemoveEntity, RemoveAllEntity and RemoveComponent on a
  -- manager in order, with listeners of the manager's events that make such calls themselves, to
  -- any depth, touches no freed node or entity and fails no check. When it returns, every entity
  -- that exists is in the manager, once: none is lost and none is deleted twice. The only other
  -- outcome is that the fuel runs out.
  pub calls-IsManager :
      (fuel : ℕ) (l : List Call) (m : EntityManager)
      → IsManager class_count m [] []
      → Safe (λ t. IsManager class_count t [] []) (run_calls (notify_all fuel) fuel l m)
  calls-IsManager fuel l m w =
      run_calls-IsManager (notify_all fuel) fuel l m [] [] (notify_all-IsTame fuel) w
