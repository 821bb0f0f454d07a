-- ===== src/Event/Invoke.antt =====
-- Invoke with listeners that add and remove listeners and invoke the event again.
use mzx.Base.{
  ℕ, zero, suc, ◌≡◌, sym, ap, ◌∙◌, Option, none, some, List, [], ◌∷◌, ◌++◌, Option-cases, inl, inr,
}
use mzx.Run.{Run, Safe, done, spent, in_time, chain, weaken}
use mzx.SafeList.{SafeList, first}
use mzx.SafeList.Laws.{IsCounted, ref_of_node, incr_ref-IsCounted}
use mzx.SafeList.Walk.{IsListed, first-IsListed, leave-IsCounted}
use mzx.Event.{
  Event, ListenerInfo, Action, add, remove, remove_all, invoke_again, run_action, run_actions,
  call_listener, invoke_from, invoke,
}
use mzx.Event.Laws.{IsEvent, tagged, entries, remove_listener-IsEvent}
use mzx.Event.Adding.{add_listener-IsEvent}
use mzx.Event.RemoveAll.{remove_all_listener-IsEvent}

-- a list with the same data in the same places
pub IsEvent-cong :
    (e : Event) (s : SafeList ListenerInfo) (held : List ℕ)
    → IsCounted s held
    → s.raw_data ≡ e.listener_list.raw_data
    → ((key n : ℕ) → entries key n e.listener_index ≡ tagged key (e.listener_list.raw_data n))
    → IsEvent (record e { listener_list = s }) held
IsEvent-cong e s held w q i = record {
  nodes = w;
  indexed = λ key n. i key n ∙ ap (λ (f : ℕ → Option ListenerInfo). tagged key (f n)) (sym q);
}

module _ (address : ℕ → ℕ) where
  -- a nested Invoke that keeps an event in order
  IsTame : (Event → Run Event) → Type 0
  IsTame again = (t : Event) (held : List ℕ) → IsEvent t held → Safe (λ u. IsEvent u held) (again t)

  run_action-IsEvent :
      (again : Event → Run Event)
      → IsTame again
      → (a : Action) (e : Event) (held : List ℕ) → IsEvent e held
      → Safe (λ t. IsEvent t held) (run_action address again a e)
  unfolding run_action IsTame
  run_action-IsEvent again tame (add f identifier) e held w =
      chain (in_time (add_listener-IsEvent address f identifier e held w)) λ (t, id) v. done v.0
  run_action-IsEvent again tame (remove id) e held w =
      in_time (weaken (remove_listener-IsEvent id e held w) λ t v. v.0)
  run_action-IsEvent again tame remove_all e held w =
      in_time (weaken (remove_all_listener-IsEvent e held w) λ t v. v.0)
  run_action-IsEvent again tame invoke_again e held w = tame e held w

  run_actions-IsEvent :
      (again : Event → Run Event)
      → IsTame again
      → (l : List Action) (e : Event) (held : List ℕ) → IsEvent e held
      → Safe (λ t. IsEvent t held) (run_actions address again l e)
  unfolding run_actions
  run_actions-IsEvent again tame [] e held w = done w
  run_actions-IsEvent again tame (a ∷ l) e held w =
      chain (run_action-IsEvent again tame a e held w)
        λ t v. run_actions-IsEvent again tame l t held v

  module _ (act : ℕ → Event → List Action) where
    call_listener-IsEvent :
        (again : Event → Run Event)
        → IsTame again
        → (n : ℕ) (e : Event) (held : List ℕ) → IsEvent e held
        → Safe (λ t. IsEvent t held) (call_listener address act again n e)
    unfolding call_listener
    call_listener-IsEvent again tame n e held w = elim (Option-cases (e.listener_list.raw_data n)) [
      | inl q ↦ rw (q, call_listener) (done w)
      | inr (info, q) ↦
          let t = record e { calls = e.calls ++ info.listener ∷ [] } in
          rw (q, call_listener)
            (run_actions-IsEvent again tame (act info.listener t) t held
              (record { nodes = w.nodes; indexed = w.indexed }))
    ]

    invoke_from-IsEvent :
        (fuel : ℕ) (cursor : Option ℕ) (e : Event) (held : List ℕ)
        → IsEvent e held
        → IsListed cursor e.listener_list.nodes
        → Safe (λ t. IsEvent t held) (invoke_from address act fuel cursor e)
    unfolding invoke_from IsTame
    invoke_from-IsEvent zero none e held w l = done w
    invoke_from-IsEvent (suc fuel) none e held w l = done w
    invoke_from-IsEvent zero (some n) e held w l = spent
    invoke_from-IsEvent (suc fuel) (some n) e held w l =
        let r = ref_of_node e.listener_list held n w.nodes l in
        chain (in_time (incr_ref-IsCounted e.listener_list held n w.nodes r)) λ s (v, _, q).
          chain
            (call_listener-IsEvent _
              (λ t h x.
                invoke_from-IsEvent fuel (first t.listener_list.nodes) t h x
                  (first-IsListed t.listener_list.nodes))
              n (record e { listener_list = s }) (n ∷ held)
              (IsEvent-cong e s (n ∷ held) v q w.indexed))
            λ t x.
              chain (in_time (leave-IsCounted t.listener_list held n x.nodes))
                λ (u, m) (y, d, i, _, _, _).
                  invoke_from-IsEvent fuel m (record t { listener_list = u }) held
                    (IsEvent-cong t u held y d x.indexed) i

    -- Invoke on an event in order never touches a freed node and never fails a check, whatever the
    -- listeners do: add and remove listeners, remove them all, and invoke the event again, to any
    -- depth. When it returns, the event is in order, and the only other outcome is that the rounds
    -- that it is given run out.
    pub invoke-IsEvent :
        (fuel : ℕ) (e : Event) (held : List ℕ)
        → IsEvent e held
        → Safe (λ t. IsEvent t held) (invoke address act fuel e)
    unfolding invoke
    invoke-IsEvent fuel e held w =
        invoke_from-IsEvent fuel (first e.listener_list.nodes) e held w
          (first-IsListed e.listener_list.nodes)
