-- ===== src/Event/Manager/Types.antt =====
-- Each operation of the manager changes the event of its type alone.
use mzx.Base.{
  ℕ, ◌≡◌, refl, true, false, ap, ◌∙◌, Option, none, some, List, [], ◌∷◌, ◌++◌, arith, Option-cases,
  inl, inr, ◌==◌,
}
use mzx.Run.{Returns, returns, and_then, Safe, done, chain}
use mzx.Event.{Event, Action, new_event}
use mzx.Event.Laws.{new_event-IsEvent}
use mzx.Event.Adding.{add_listener-IsEvent}
use mzx.Event.RemoveAll.{remove_all_listener-IsEvent}
use mzx.Event.Inert.{others, remove_listener-contents}
use mzx.Event.Invoke.{invoke-IsEvent}
use mzx.Event.Manager.{
  EventManager, find_event, on_event, remove_event_listener, remove_event, remove_events,
  remove_all_event, add_event_listener, invoke_event, listeners_in, listeners_of,
}
use mzx.Event.Manager.Laws.{
  AreEvents, KeepsTypes, found-IsEvent, find-set_event, find-set_event_other, AreEvents-set_event,
  find-append, AreEvents-append, find-erase_event, AreEvents-erase_event,
}

-- RemoveListener of the manager returns and removes the listeners of the identifier from the event
-- of its type alone; every event stays in order.
pub remove_event_listener-AreEvents :
    (type id : ℕ) (m : EventManager)
    → AreEvents m.event_list
    → Returns
        (λ t.
          AreEvents t.event_list
          × KeepsTypes type m t
          × (listeners_of type t ≡ others id (listeners_of type m)))
        (remove_event_listener type id m)
unfolding remove_event_listener
remove_event_listener-AreEvents type id m w = elim (Option-cases (find_event type m.event_list)) [
  | inl h ↦ rw (h, on_event) (returns (w, (λ k o. refl), ap listeners_in h))
  | inr (e, h) ↦
      rw (h, on_event)
        (and_then (remove_listener-contents id e [] (found-IsEvent type e m.event_list w h))
          λ t (v, c). returns (
            AreEvents-set_event type t m.event_list w v,
            (λ k other. find-set_event_other type k t m.event_list other),
            ap listeners_in (find-set_event type e t m.event_list h) ∙ c,
          ))
]

-- RemoveEvent returns and leaves every type but its own as it was, and its own without an event.
pub remove_event-AreEvents :
    (type : ℕ) (m : EventManager)
    → AreEvents m.event_list
    → Returns
        (λ t. AreEvents t.event_list × KeepsTypes type m t × (find_event type t.event_list ≡ none))
        (remove_event type m)
unfolding remove_event
remove_event-AreEvents type m w = elim (Option-cases (find_event type m.event_list)) [
  | inl h ↦ rw (h, remove_event) (returns (w, (λ k o. refl), h))
  | inr (e, h) ↦
      rw (h, remove_event)
        (and_then (remove_all_listener-IsEvent e [] (found-IsEvent type e m.event_list w h)) λ t _.
          returns (
            AreEvents-erase_event type m.event_list w,
            (λ k other.
                let miss : (k == type) ≡ false = ground (arith, other) in
                find-erase_event type k m.event_list w ∙ rw miss refl),
            (let hit : (type == type) ≡ true = ground arith in
                find-erase_event type type m.event_list w ∙ rw hit refl),
          ))
]

-- RemoveAllEvent returns and leaves no event.
pub remove_all_event_lem :
    (m : EventManager)
    → AreEvents m.event_list
    → Returns (λ t. t.event_list ≡ []) (remove_all_event m)
unfolding remove_all_event
remove_all_event_lem m w = and_then (all m.event_list w) λ l h. returns h
  where
    all : (l : List (ℕ × Event)) → AreEvents l → Returns (λ t. t ≡ []) (remove_events l)
    all [] v = returns refl
    all ((k, e) ∷ l) (a, _, c) = and_then (remove_all_listener-IsEvent e [] a) λ t _. all l c

module _ (address : ℕ → ℕ) where
  -- AddListener of a manager whose events are in order, with a listener that is not nullptr,
  -- returns and appends the listener to the event of its type, which it creates for the first one.
  -- The events stay in order, and those of the other types are left alone.
  pub add_event_listener-AreEvents :
      (type f : ℕ) (identifier : Option ℕ) (m : EventManager)
      → AreEvents m.event_list
      → Returns
          (λ (t, id).
            AreEvents t.event_list
            × KeepsTypes type m t
            × (listeners_of type t ≡ listeners_of type m ++ record { id = id; listener = f } ∷ []))
          (add_event_listener address type (some f) identifier m)
  unfolding add_event_listener
  add_event_listener-AreEvents type f identifier m w =
      elim (Option-cases (find_event type m.event_list)) [
        | inl h ↦
            rw (h, add_event_listener)
              (and_then (add_listener-IsEvent address f identifier new_event [] new_event-IsEvent)
                λ (t, id) (v, _, _, c). returns (
                  AreEvents-append type t m.event_list w v h,
                  (λ k other. (find-append type k t m.event_list h).1 other),
                  ap listeners_in (find-append type type t m.event_list h).0 ∙ c,
                ))
        | inr (e, h) ↦
            rw (h, add_event_listener)
              (and_then
                (add_listener-IsEvent address f identifier e []
                  (found-IsEvent type e m.event_list w h))
                λ (t, id) (v, _, _, c). returns (
                  AreEvents-set_event type t m.event_list w v,
                  (λ k other. find-set_event_other type k t m.event_list other),
                  ap listeners_in (find-set_event type e t m.event_list h) ∙ c,
                ))
      ]

  -- Invoke of the manager touches no freed node and fails no check, and changes the event of its
  -- type alone.
  pub invoke_event-AreEvents :
      (act : ℕ → Event → List Action) (fuel type : ℕ) (m : EventManager)
      → AreEvents m.event_list
      → Safe
          (λ t. AreEvents t.event_list × KeepsTypes type m t)
          (invoke_event address act fuel type m)
  unfolding invoke_event
  invoke_event-AreEvents act fuel type m w = elim (Option-cases (find_event type m.event_list)) [
    | inl h ↦ rw (h, on_event) (done (w, λ k o. refl))
    | inr (e, h) ↦
        rw (h, on_event)
          (chain (invoke-IsEvent address act fuel e [] (found-IsEvent type e m.event_list w h))
            λ t v. done (
              AreEvents-set_event type t m.event_list w v,
              λ k other. find-set_event_other type k t m.event_list other,
            ))
  ]
