-- ===== src/Event.antt =====
-- include/mzx/event.h, Event: listeners that are called in their order, and that may add and remove
-- listeners, or call them all again, while they run.
--
-- A listener is a number, and what its call does to the event is the parameter `act`. The identifier
-- of a listener added without one is the address of its ListenerInfo, the parameter `address`.
pub mod Laws
pub mod Adding
pub mod RemoveAll
pub mod Invoke
pub mod Order
pub mod Manager
mod Tests
pub mod Inert
use mzx.Array.{length}
use mzx.Base.{ℕ, zero, suc, ◌≡◌, Bool, true, false, Option, none, some, List, [], ◌∷◌, ◌++◌, ◌==◌}
use mzx.Run.{Run, ok, abort, out_of_fuel, ◌>>=◌}
use mzx.SafeList.{SafeList, first, empty, push_node, incr_ref, detach, next_node, leave}

pub record ListenerInfo : Type 0 where
  pub id : ℕ
  pub listener : ℕ

-- the multimap is the list of its entries, those of one key in the order in which they were added;
-- `calls` is the log of the listeners' calls
pub record Event : Type 0 where
  pub listener_list : SafeList ListenerInfo
  pub listener_index : List (ℕ × ℕ)
  pub calls : List ℕ

abbrev pub new_event : Event
new_event = record { listener_list = empty; listener_index = []; calls = [] }

-- the listeners of the range `equal_range(id)`: the data is deleted and the entry erased
unfoldable pub detach_range :
    ℕ → List (ℕ × ℕ) → SafeList ListenerInfo → Run (SafeList ListenerInfo × List (ℕ × ℕ))
detach_range id [] s = ok (s, [])
detach_range id ((key, n) ∷ rest) s = elim (key == id) [
  | true ↦ detach n s >>= λ (t, d). detach_range id rest t
  | false ↦ detach_range id rest s >>= λ (t, kept). ok (t, (key, n) ∷ kept)
]

unfoldable pub remove_listener : ℕ → Event → Run Event
unfolding detach_range
remove_listener id e = detach_range id e.listener_index e.listener_list >>= λ (s, kept).
    ok (record e { listener_list = s; listener_index = kept })

unfoldable pub remove_from : ℕ → Option ℕ → SafeList ListenerInfo → Run (SafeList ListenerInfo)
remove_from fuel none s = ok s
remove_from zero (some n) s = out_of_fuel
remove_from (suc fuel) (some n) s =
    next_node n s >>= λ m. detach n s >>= λ (t, d). remove_from fuel m t

unfoldable pub remove_all_listener : Event → Run Event
unfolding remove_from
remove_all_listener e =
    remove_from (length e.listener_list.nodes) (first e.listener_list.nodes) e.listener_list
    >>= λ s. ok (record e { listener_list = s; listener_index = [] })

-- what a listener calls of the event
pub data Action : Type 0 where
  add : ℕ → Option ℕ → Action
  remove : ℕ → Action
  remove_all : Action
  invoke_again : Action

module _ (address : ℕ → ℕ) where
  abbrev pub chosen_id : Option ℕ → ℕ → ℕ
  chosen_id none n = address n
  chosen_id (some identifier) n = identifier

  unfoldable pub add_listener : Option ℕ → Option ℕ → Event → Run (Event × ℕ)
  add_listener none identifier e = abort
  add_listener (some f) identifier e =
      let n = e.listener_list.next_name in
      let id = chosen_id identifier n in
      ok (
        record e {
          listener_list = push_node (record { id = id; listener = f }) e.listener_list;
          listener_index = e.listener_index ++ (id, n) ∷ [];
        },
        id,
      )

  unfoldable pub run_action : (Event → Run Event) → Action → Event → Run Event
  unfolding add_listener remove_listener remove_all_listener
  run_action again (add f identifier) e = add_listener (some f) identifier e >>= λ (t, id). ok t
  run_action again (remove id) e = remove_listener id e
  run_action again remove_all e = remove_all_listener e
  run_action again invoke_again e = again e

  unfoldable pub run_actions : (Event → Run Event) → List Action → Event → Run Event
  unfolding run_action
  run_actions again [] e = ok e
  run_actions again (a ∷ rest) e = run_action again a e >>= λ t. run_actions again rest t

  module _ (act : ℕ → Event → List Action) where
    -- `if (listener_node->Get())`: the call of the node's listener
    unfoldable pub call_listener : (Event → Run Event) → ℕ → Event → Run Event
    unfolding run_actions
    call_listener again n e = elim (e.listener_list.raw_data n) [
      | none ↦ ok e
      | some info ↦
          let t = record e { calls = e.calls ++ info.listener ∷ [] } in
          run_actions again (act info.listener t) t
    ]

    unfoldable pub invoke_from : ℕ → Option ℕ → Event → Run Event
    unfolding call_listener
    invoke_from fuel none e = ok e
    invoke_from zero (some n) e = out_of_fuel
    invoke_from (suc fuel) (some n) e = incr_ref n e.listener_list >>= λ s.
        call_listener (λ t. invoke_from fuel (first t.listener_list.nodes) t) n
          (record e { listener_list = s })
        >>= λ t. leave n t.listener_list >>= λ (u, m).
            invoke_from fuel m (record t { listener_list = u })

    unfoldable pub invoke : ℕ → Event → Run Event
    unfolding invoke_from
    invoke fuel e = invoke_from fuel (first e.listener_list.nodes) e
