-- ===== src/Event/Inert.antt =====
-- Invoke with listeners that leave the event alone calls each of them once, in their order; and the
-- removals as operations on the sequence of the listeners.
use mathlib.Core.List.{append_assoc, append-nil}
use mzx.Array.{length}
use mzx.Base.{
  ℕ, ◌≡◌, refl, sym, ap, ◌∙◌, Option, none, some, List, [], ◌∷◌, ◌++◌, ◌==◌, if◌then◌else◌,
  Bool-cases, Option-cases, inl, inr,
}
use mzx.Run.{Run, ok, Returns, returns, and_then, weaken}
use mzx.SafeList.{first}
use mzx.SafeList.Laws.{incr_ref-IsCounted}
use mzx.SafeList.View.{put, collect, collect-ext, contents}
use mzx.SafeList.Walk.{leave_lem}
use mzx.Event.{
  Event, ListenerInfo, Action, remove_listener, remove_all_listener, run_actions, call_listener,
  invoke_from, invoke,
}
use mzx.Event.Laws.{IsEvent, without_id, remove_listener-IsEvent}
use mzx.SafeList.Split.{at_node}
use mzx.Event.RemoveAll.{remove_all_listener-IsEvent}
use mzx.Event.Invoke.{IsEvent-cong}

abbrev pub listeners : List ListenerInfo → List ℕ
listeners [] = []
listeners (info ∷ l) = info.listener ∷ listeners l

-- the listeners without those of `id`
abbrev pub others : ℕ → List ListenerInfo → List ListenerInfo
others id [] = []
others id (info ∷ l) = if info.id == id then others id l else info ∷ others id l

collect-without_id :
    (id : ℕ) (f : ℕ → Option ListenerInfo) (l : List ℕ)
    → collect (λ n. without_id id (f n)) l ≡ others id (collect f l)
collect-without_id id f [] = refl
collect-without_id id f (n ∷ l) =
    ap (put (without_id id (f n))) (collect-without_id id f l) ∙ put_one (f n)
  where
    put_one :
        (o : Option ListenerInfo)
        → put (without_id id o) (others id (collect f l)) ≡ others id (put o (collect f l))
    put_one none = refl
    put_one (some info) = elim (Bool-cases (info.id == id)) [
      | inl h ↦ rw h refl
      | inr h ↦ rw h refl
    ]

-- RemoveListener returns on every event in order, while listeners run or not, and takes out exactly
-- the listeners of the identifier; the others keep their order.
pub remove_listener-contents :
    (id : ℕ) (e : Event) (held : List ℕ)
    → IsEvent e held
    → Returns
        (λ t. IsEvent t held × (contents t.listener_list ≡ others id (contents e.listener_list)))
        (remove_listener id e)
remove_listener-contents id e held w =
    weaken (remove_listener-IsEvent id e held w) λ t (v, d, _, f). (
      v,
      d.same t.listener_list.raw_data (λ n h. h)
          ∙ collect-ext _ _ e.listener_list.nodes f
          ∙ collect-without_id id e.listener_list.raw_data e.listener_list.nodes,
    )

collect_nothing :
    (f : ℕ → Option ListenerInfo) (l : List ℕ) → ((n : ℕ) → f n ≡ none) → collect f l ≡ []
collect_nothing f [] h = refl
collect_nothing f (n ∷ l) h = rw (h n) (collect_nothing f l h)

-- RemoveAllListener returns on every event in order, while listeners run or not, and leaves no
-- listener and no entry of the index.
pub remove_all_listener-contents :
    (e : Event) (held : List ℕ)
    → IsEvent e held
    → Returns (λ t. IsEvent t held × (contents t.listener_list ≡ [])) (remove_all_listener e)
remove_all_listener-contents e held w =
    weaken (remove_all_listener-IsEvent e held w)
      λ t (v, d, _, f). (v, collect_nothing t.listener_list.raw_data t.listener_list.nodes f)

module _ (address : ℕ → ℕ) (act : ℕ → Event → List Action) where
  call_listener-inert :
      (again : Event → Run Event) (n : ℕ) (e : Event)
      → ((f : ℕ) (t : Event) → act f t ≡ [])
      → call_listener address act again n e
        ≡ ok (record e { calls = e.calls ++ listeners (put (e.listener_list.raw_data n) []) })
  unfolding call_listener run_actions
  call_listener-inert again n e inert = elim (Option-cases (e.listener_list.raw_data n)) [
    | inl q ↦
        rw (q, call_listener) (ap (λ l. ok (record e { calls = l })) (sym (append-nil e.calls)))
    | inr (info, q) ↦ rw (q, call_listener, inert) refl
  ]

  listeners-put :
      (o : Option ListenerInfo) (l : List ListenerInfo)
      → listeners (put o l) ≡ listeners (put o []) ++ listeners l
  listeners-put none l = refl
  listeners-put (some info) l = refl

  invoke_from-inert :
      (b a : List ℕ) (e : Event) (held : List ℕ)
      → ((f : ℕ) (t : Event) → act f t ≡ [])
      → IsEvent e held
      → e.listener_list.nodes ≡ a ++ b
      → Returns
          (λ t.
            IsEvent t held
            × (t.calls ≡ e.calls ++ listeners (collect e.listener_list.raw_data b))
            × (t.listener_list.nodes ≡ e.listener_list.nodes)
            × (t.listener_list.raw_data ≡ e.listener_list.raw_data))
          (invoke_from address act (length b) (first b) e)
  unfolding invoke_from
  invoke_from-inert [] a e held inert w h = returns (w, sym (append-nil e.calls), refl, refl)
  invoke_from-inert (n ∷ b) a e held inert w h =
      let (r, one, next) = at_node e.listener_list held n a b w.nodes h in
      and_then (incr_ref-IsCounted e.listener_list held n w.nodes r) λ s (v, o, q).
        rw
          (call_listener-inert
            (λ t. invoke_from address act (length b) (first t.listener_list.nodes) t) n
            (record e { listener_list = s }) inert)
          (and_then (leave_lem e.listener_list s held n w.nodes r v o q) λ (u, m) (x, d, keep, at).
            rw (at ∙ next) (
              weaken
                (invoke_from-inert b (a ++ n ∷ [])
                  (record e {
                    listener_list = u;
                    calls = e.calls ++ listeners (put (s.raw_data n) []);
                  })
                  held inert
                  (IsEvent-cong (record e { calls = e.calls ++ listeners (put (s.raw_data n) []) })
                    u held x d w.indexed)
                  (keep ∙ h ∙ sym (append_assoc a (n ∷ []) b)))
                λ t (y, calls, nodes, values). (
                  y,
                  calls
                      ∙ append_assoc e.calls (listeners (put (s.raw_data n) []))
                          (listeners (collect u.raw_data b))
                      ∙ ap (λ l. e.calls ++ l)
                          (logged n b e.listener_list.raw_data s.raw_data u.raw_data q d),
                  nodes ∙ keep,
                  values ∙ d,
                )))
    where
      logged :
          (n : ℕ) (b : List ℕ) (f g h : ℕ → Option ListenerInfo)
          → g ≡ f
          → h ≡ f
          → listeners (put (g n) []) ++ listeners (collect h b)
            ≡ listeners (put (f n) (collect f b))
      logged n b f g h p q =
          ap (λ (x : ℕ → Option ListenerInfo). listeners (put (x n) []) ++ listeners (collect h b))
            p
          ∙ ap
              (λ (x : ℕ → Option ListenerInfo). listeners (put (f n) []) ++ listeners (collect x b))
              q
          ∙ sym (listeners-put (f n) (collect f b))

  -- Invoke on an event in order, with listeners that leave the event alone, returns within one
  -- round for each node, calls each live listener once in their order, and leaves the event in
  -- order with the same listeners.
  pub invoke-contents :
      (e : Event) (held : List ℕ)
      → ((f : ℕ) (t : Event) → act f t ≡ [])
      → IsEvent e held
      → Returns
          (λ t.
            IsEvent t held
            × (t.calls ≡ e.calls ++ listeners (contents e.listener_list))
            × (contents t.listener_list ≡ contents e.listener_list))
          (invoke address act (length e.listener_list.nodes) e)
  unfolding invoke
  invoke-contents e held inert w =
      weaken (invoke_from-inert e.listener_list.nodes [] e held inert w refl)
        λ t (v, calls, nodes, values). (
          v,
          calls,
          ap (collect t.listener_list.raw_data) nodes
              ∙ ap (λ f. collect f e.listener_list.nodes) values,
        )
