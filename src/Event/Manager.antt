-- ===== src/Event/Manager.antt =====
-- include/mzx/event.h, EventManager: one event for each type that has had a listener.
--
-- The map is the list of its pairs. What a listener does to its own event is the parameter `act`;
-- it does nothing else to the manager.
pub mod Laws
pub mod Types
use mzx.Base.{ℕ, Option, none, some, List, [], ◌∷◌, ◌++◌, ◌==◌, if◌then◌else◌}
use mzx.Run.{Run, ok, ◌>>=◌}
use mzx.SafeList.View.{contents}
use mzx.Event.{
  ListenerInfo, Event, Action, new_event, add_listener, remove_listener, remove_all_listener,
  invoke,
}

pub record EventManager : Type 0 where
  pub event_list : List (ℕ × Event)

abbrev pub find_event : ℕ → List (ℕ × Event) → Option Event
find_event type [] = none
find_event type ((k, e) ∷ l) = let rest = find_event type l in if k == type then some e else rest

-- the event of the type has changed
abbrev pub set_event : ℕ → Event → List (ℕ × Event) → List (ℕ × Event)
set_event type e [] = []
set_event type e ((k, d) ∷ l) =
    let rest = set_event type e l in if k == type then (k, e) ∷ l else (k, d) ∷ rest

abbrev pub erase_event : ℕ → List (ℕ × Event) → List (ℕ × Event)
erase_event type [] = []
erase_event type ((k, d) ∷ l) =
    let rest = erase_event type l in if k == type then l else (k, d) ∷ rest

abbrev pub on_event : ℕ → EventManager → (Event → Run Event) → Run EventManager
on_event type m change = elim (find_event type m.event_list) [
  | none ↦ ok m
  | some e ↦ change e >>= λ t. ok (record { event_list = set_event type t m.event_list })
]

unfoldable pub remove_event_listener : ℕ → ℕ → EventManager → Run EventManager
remove_event_listener type id m = on_event type m (remove_listener id)

unfoldable pub remove_event : ℕ → EventManager → Run EventManager
remove_event type m = elim (find_event type m.event_list) [
  | none ↦ ok m
  | some e ↦
      remove_all_listener e >>= λ t. ok (record { event_list = erase_event type m.event_list })
]

unfoldable pub remove_events : List (ℕ × Event) → Run (List (ℕ × Event))
remove_events [] = ok []
remove_events ((type, e) ∷ l) = remove_all_listener e >>= λ t. remove_events l

unfoldable pub remove_all_event : EventManager → Run EventManager
unfolding remove_events
remove_all_event m = remove_events m.event_list >>= λ l. ok (record { event_list = l })

module _ (address : ℕ → ℕ) where
  unfoldable pub add_event_listener :
      ℕ → Option ℕ → Option ℕ → EventManager → Run (EventManager × ℕ)
  add_event_listener type f identifier m = elim (find_event type m.event_list) [
    | none ↦ add_listener address f identifier new_event >>= λ (e, id).
        ok (record { event_list = m.event_list ++ (type, e) ∷ [] }, id)
    | some e ↦ add_listener address f identifier e >>= λ (t, id).
        ok (record { event_list = set_event type t m.event_list }, id)
  ]

  unfoldable pub invoke_event : (ℕ → Event → List Action) → ℕ → ℕ → EventManager → Run EventManager
  invoke_event act fuel type m = on_event type m (invoke address act fuel)

abbrev pub listeners_in : Option Event → List ListenerInfo
listeners_in none = []
listeners_in (some e) = contents e.listener_list

-- the listeners of a type
abbrev pub listeners_of : ℕ → EventManager → List ListenerInfo
listeners_of type m = listeners_in (find_event type m.event_list)
