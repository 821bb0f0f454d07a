-- ===== src/Event/Tests.antt =====
-- Events with two listeners, run and checked.
use mzx.Base.{ℕ, ◌+◌, ◌≡◌, refl, Option, none, some, List, [], ◌∷◌, ◌++◌, ◌==◌, if◌then◌else◌}
use mzx.Array.{length}
use mzx.Run.{Run, ok, Returns, Safe, given}
use mzx.SafeList.{
  push_node, set_ref, set_data, incr_ref, delete_node, decr_ref, detach, next_node, leave,
}
use mzx.SafeList.View.{contents}
use mzx.Event.{
  ListenerInfo, Event, Action, add, remove, remove_all, invoke_again, new_event, add_listener,
  detach_range, remove_listener, run_action, run_actions, call_listener, invoke_from, invoke,
}
use mzx.Event.Laws.{IsEvent, new_event-IsEvent}
use mzx.Event.Adding.{add_listener-IsEvent}
use mzx.Event.Inert.{others, listeners, remove_listener-contents, invoke-contents}
use mzx.Event.Invoke.{invoke-IsEvent}
use mzx.Event.Order.{invoke-Returns}
use mzx.Event.Manager.{EventManager, listeners_of, add_event_listener}
use mzx.Event.Manager.Laws.{AreEvents, KeepsTypes}
use mzx.Event.Manager.Types.{add_event_listener-AreEvents}

abbrev address : ℕ → ℕ
address n = n + 1000

-- listener 7 with the identifier 40, then listener 8 without one
abbrev first_info : ListenerInfo
first_info = record { id = 40; listener = 7 }

abbrev second_info : ListenerInfo
second_info = record { id = 1001; listener = 8 }

abbrev one : Event
one = record {
  listener_list = push_node first_info new_event.listener_list;
  listener_index = (40, 0) ∷ [];
  calls = [];
}

abbrev two : Event
two = record {
  listener_list = push_node second_info one.listener_list;
  listener_index = (40, 0) ∷ (1001, 1) ∷ [];
  calls = [];
}

one-IsEvent : IsEvent one []
unfolding add_listener push_node set_ref set_data
one-IsEvent = (given (add_listener-IsEvent address 7 (some 40) new_event [] new_event-IsEvent)).0

two-IsEvent : IsEvent two []
unfolding add_listener push_node set_ref set_data
two-IsEvent = (given (add_listener-IsEvent address 8 none one [] one-IsEvent)).0

remove_listener-contents_example :
    Returns
      (λ t. IsEvent t [] × (contents t.listener_list ≡ others 40 (contents two.listener_list)))
      (remove_listener 40 two)
remove_listener-contents_example = remove_listener-contents 40 two [] two-IsEvent

-- listener 7 removes all listeners and adds listener 9, which invokes the event again
abbrev wild : ℕ → Event → List Action
wild f e =
    if f == 7
    then remove_all ∷ add 9 none ∷ []
    else (if f == 9 then remove 40 ∷ invoke_again ∷ [] else [])

invoke-IsEvent_example : Safe (λ t. IsEvent t []) (invoke address wild 6 two)
invoke-IsEvent_example = invoke-IsEvent address wild 6 two [] two-IsEvent

-- listener 7 removes itself and the other
abbrev removing : ℕ → Event → List Action
removing f e = remove 40 ∷ remove 1001 ∷ []

invoke-Returns_example :
    Returns (λ t. IsEvent t []) (invoke address removing (length two.listener_list.nodes) two)
invoke-Returns_example = invoke-Returns address removing two [] (λ f t. tt) two-IsEvent

abbrev inert : ℕ → Event → List Action
inert f e = []

invoke-contents_example :
    Returns
      (λ t.
        IsEvent t []
        × (t.calls ≡ listeners (contents two.listener_list))
        × (contents t.listener_list ≡ contents two.listener_list))
      (invoke address inert (length two.listener_list.nodes) two)
invoke-contents_example = invoke-contents address inert two [] (λ f t. refl) two-IsEvent

-- the calls of a run
abbrev calls_of : Run Event → Option (List ℕ)
calls_of (ok e) = some e.calls
calls_of r = none

both_called : calls_of (invoke address inert 2 two) ≡ some (7 ∷ 8 ∷ [])
unfolding invoke invoke_from call_listener run_actions push_node set_ref set_data incr_ref leave
    next_node decr_ref delete_node
both_called = refl

one_called : calls_of (invoke address removing 2 two) ≡ some (7 ∷ [])
unfolding invoke invoke_from call_listener run_actions run_action remove_listener detach_range
    detach push_node set_ref set_data incr_ref leave next_node decr_ref delete_node
one_called = refl

abbrev manager : EventManager
manager = record { event_list = (3, two) ∷ [] }

add_event_listener-AreEvents_example :
    Returns
      (λ (t, id).
        AreEvents t.event_list
        × KeepsTypes 4 manager t
        × (listeners_of 4 t ≡ listeners_of 4 manager ++ record { id = id; listener = 7 } ∷ []))
      (add_event_listener address 4 (some 7) none manager)
add_event_listener-AreEvents_example =
    add_event_listener-AreEvents address 4 7 none manager (two-IsEvent, refl, tt)
