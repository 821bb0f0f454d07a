-- ===== src/Event/Adding.antt =====
-- AddListener.
use mathlib.Core.Path.{subst}
use mzx.Base.{ℕ, ◌≡◌, refl, Option, some, List, [], ◌∷◌, ◌++◌, ◌==◌, arith, Bool-cases, inl, inr}
use mzx.Run.{Returns, returns}
use mzx.SafeList.{push_node, set_ref, set_data}
use mzx.SafeList.Detach.{push_node-IsCounted}
use mzx.SafeList.View.{contents, contents-push_node}
use mzx.Event.{Event, add_listener, chosen_id}
use mzx.Event.Laws.{entries, entries-append, tagged, unowned, IsEvent}

pushed :
    (id f : ℕ) (e : Event) (held : List ℕ)
    → IsEvent e held
    → (key m : ℕ)
    → entries key m (e.listener_index ++ (id, e.listener_list.next_name) ∷ [])
      ≡ tagged key ((push_node (record { id = id; listener = f }) e.listener_list).raw_data m)
unfolding push_node set_ref set_data
pushed id f e held w key m =
    let n = e.listener_list.next_name in
    let a = entries-append key m e.listener_index ((id, n) ∷ []) in
    let q = w.indexed key m in
    elim (Bool-cases (m == n)) [
      | inl h ↦
          let same : m ≡ n = ground arith in
          let c = w.nodes.counted n in
          let u = w.nodes.unnamed n (omega arith) in
          let bare = unowned key (e.listener_list.raw_data n) (omega (arith, c, u)) in
          let q' =
            subst (λ i. entries key m e.listener_index ≡ tagged key (e.listener_list.raw_data i))
              same q in
          rw h (ground (arith, a, q', bare, same))
      | inr h ↦ rw h (ground (arith, a, q, h))
    ]

module _ (address : ℕ → ℕ) where
  -- AddListener of a listener that is not nullptr returns on every event in order, which it keeps
  -- so, appends the listener to the others, and returns its id: the identifier, or else the address.
  pub add_listener-IsEvent :
      (f : ℕ) (identifier : Option ℕ) (e : Event) (held : List ℕ)
      → IsEvent e held
      → Returns
          (λ (t, id).
            IsEvent t held
            × (t.calls ≡ e.calls)
            × (id ≡ chosen_id address identifier e.listener_list.next_name)
            × (contents t.listener_list
                ≡ contents e.listener_list ++ record { id = id; listener = f } ∷ []))
          (add_listener address (some f) identifier e)
  unfolding add_listener
  add_listener-IsEvent f identifier e held w =
      let n = e.listener_list.next_name in
      let id = chosen_id address identifier n in
      returns (
        record {
          nodes =
              push_node-IsCounted e.listener_list held (record { id = id; listener = f }) w.nodes;
          indexed = λ key m. pushed id f e held w key m;
        },
        refl,
        refl,
        contents-push_node e.listener_list held (record { id = id; listener = f }) w.nodes,
      )
