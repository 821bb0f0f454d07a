-- ===== src/Event/Order.antt =====
-- Invoke with listeners that only remove listeners returns, and with listeners that leave the event
-- alone it calls each of them once, in their order.
use mzx.Array.{length}
use mzx.Base.{
  ℕ, zero, suc, ◌≤◌, ◌<◌, ◌≡◌, ap, true, Option, none, some, List, [], ◌∷◌, ◌++◌, ◌==◌, arith,
  Option-cases, inl, inr,
}
use mzx.Run.{Run, Returns, returns, and_then, weaken}
use mzx.SafeList.{first}
use mzx.SafeList.Laws.{count_in, ref_of_node, incr_ref-IsCounted}
use mzx.SafeList.Detaches.{steps, IsLater, IsLater-trans}
use mzx.SafeList.Walk.{
  IsListed, steps_of, steps_of-first, first-IsListed, steps_listed, leave-IsCounted,
}
use mzx.Event.{
  Event, Action, add, remove, remove_all, invoke_again, run_action, run_actions, call_listener,
  invoke_from, invoke,
}
use mzx.Event.Laws.{IsEvent, remove_listener-IsEvent}
use mzx.Event.RemoveAll.{remove_all_listener-IsEvent}
use mzx.Event.Invoke.{IsEvent-cong}

abbrev pub AreRemovals : List Action → Type 0
AreRemovals [] = Unit {0}
AreRemovals (add f identifier ∷ l) = ⊥
AreRemovals (remove id ∷ l) = AreRemovals l
AreRemovals (remove_all ∷ l) = AreRemovals l
AreRemovals (invoke_again ∷ l) = ⊥

held_listed :
    (t : Event) (held : List ℕ) (n : ℕ)
    → IsEvent t (n ∷ held)
    → 0 < count_in n t.listener_list.nodes
held_listed t held n w =
    let l = w.nodes.listed n in
    let c = w.nodes.counted n in
    let hit : (n == n) ≡ true = ground arith in ground (arith, l, c, hit)

later_steps :
    (n : ℕ) (a b c : List ℕ) → b ≡ a → IsLater b c → 0 < count_in n c → steps n c ≤ steps n a
later_steps n a b c e later p =
    let (_, q) = later n p in let o = ap (steps n) e in omega (arith, q, o)

module _ (address : ℕ → ℕ) where
  -- in order, and no node is further from the end than it was
  IsShrunk : Event → List ℕ → Event → Type 0
  IsShrunk e held t = IsEvent t held × IsLater e.listener_list.nodes t.listener_list.nodes

  run_actions-IsShrunk :
      (again : Event → Run Event) (l : List Action) (e : Event) (held : List ℕ)
      → AreRemovals l
      → IsEvent e held
      → Returns (IsShrunk e held) (run_actions address again l e)
  unfolding run_actions run_action IsShrunk
  run_actions-IsShrunk again [] e held r w = returns (w, λ n p. (p, omega arith))
  run_actions-IsShrunk again (add f identifier ∷ l) e held r w = absurd r
  run_actions-IsShrunk again (invoke_again ∷ l) e held r w = absurd r
  run_actions-IsShrunk again (remove id ∷ l) e held r w =
      and_then (remove_listener-IsEvent id e held w) λ t (v, d, _, _).
        weaken (run_actions-IsShrunk again l t held r v)
          λ u (x, s). (x, IsLater-trans _ _ _ d.later s)
  run_actions-IsShrunk again (remove_all ∷ l) e held r w =
      and_then (remove_all_listener-IsEvent e held w) λ t (v, d, _, _).
        weaken (run_actions-IsShrunk again l t held r v)
          λ u (x, s). (x, IsLater-trans _ _ _ d.later s)

  module _ (act : ℕ → Event → List Action) where
    call_listener-IsShrunk :
        (again : Event → Run Event)
        → ((f : ℕ) (t : Event) → AreRemovals (act f t))
        → (n : ℕ) (e : Event) (held : List ℕ) → IsEvent e held
        → Returns (IsShrunk e held) (call_listener address act again n e)
    unfolding call_listener IsShrunk
    call_listener-IsShrunk again removals n e held w =
        elim (Option-cases (e.listener_list.raw_data n)) [
          | inl q ↦ rw (q, call_listener) (returns (w, λ k p. (p, omega arith)))
          | inr (info, q) ↦
              let t = record e { calls = e.calls ++ info.listener ∷ [] } in
              rw (q, call_listener)
                (run_actions-IsShrunk again (act info.listener t) t held (removals info.listener t)
                  (record { nodes = w.nodes; indexed = w.indexed }))
        ]

    invoke_from-Returns :
        (fuel : ℕ) (cursor : Option ℕ) (e : Event) (held : List ℕ)
        → ((f : ℕ) (t : Event) → AreRemovals (act f t))
        → IsEvent e held
        → IsListed cursor e.listener_list.nodes
        → steps_of cursor e.listener_list.nodes ≤ fuel
        → Returns (λ t. IsEvent t held) (invoke_from address act fuel cursor e)
    unfolding invoke_from IsShrunk
    invoke_from-Returns zero none e held removals w l h = returns w
    invoke_from-Returns (suc fuel) none e held removals w l h = returns w
    invoke_from-Returns zero (some n) e held removals w l h =
        let p = steps_listed n e.listener_list.nodes l in absurd (omega (arith, h, p))
    invoke_from-Returns (suc fuel) (some n) e held removals w l h =
        let r = ref_of_node e.listener_list held n w.nodes l in
        and_then (incr_ref-IsCounted e.listener_list held n w.nodes r) λ s (v, o, q).
          and_then
            (call_listener-IsShrunk _ removals n (record e { listener_list = s }) (n ∷ held)
              (IsEvent-cong e s (n ∷ held) v q w.indexed))
            λ t (x, later).
              and_then (leave-IsCounted t.listener_list held n x.nodes)
                λ (u, m) (y, d, i, less, _, _).
                  invoke_from-Returns fuel m (record t { listener_list = u }) held removals
                    (IsEvent-cong t u held y d x.indexed) i
                    (let le =
                        later_steps n e.listener_list.nodes s.nodes t.listener_list.nodes o later
                          (held_listed t held n x) in
                      omega (arith, less, le, h))

    -- Invoke on an event in order, with listeners that do nothing but remove listeners, one or all,
    -- returns within one round for each node, and the event is in order then.
    pub invoke-Returns :
        (e : Event) (held : List ℕ)
        → ((f : ℕ) (t : Event) → AreRemovals (act f t))
        → IsEvent e held
        → Returns (λ t. IsEvent t held) (invoke address act (length e.listener_list.nodes) e)
    unfolding invoke
    invoke-Returns e held removals w =
        let l = e.listener_list.nodes in
        invoke_from-Returns (length l) (first l) e held removals w (first-IsListed l)
          (steps_of-first l)
