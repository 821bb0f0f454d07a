-- ===== src/Event/RemoveAll.antt =====
-- RemoveAllListener, and what the removals leave of the listeners.
use mzx.Array.{length}
use mzx.Base.{
  ℕ, ◌<◌, ◌≡◌, refl, ◌∙◌, none, List, [], ◌∷◌, ◌++◌, ◌==◌, ltb, arith, Bool-cases, inl, inr,
}
use mzx.Run.{Returns, returns, and_then, weaken}
use mzx.SafeList.{SafeList, first, next_node}
use mzx.SafeList.Laws.{count_in, IsCounted, unowned_none, alive-IsCounted}
use mzx.SafeList.Detaches.{Detaches, Detaches-refl, Detaches-trans, detach-Detaches}
use mzx.SafeList.Split.{split_after, at_node}
use mzx.Event.{ListenerInfo, Event, remove_from, remove_all_listener}
use mzx.Event.Laws.{IsEvent}

remove_from_lem :
    (b a : List ℕ) (s : SafeList ListenerInfo) (held : List ℕ)
    → IsCounted s held
    → s.nodes ≡ a ++ b
    → Returns
        (λ t. Detaches s held t × ((k : ℕ) → 0 < count_in k b → t.raw_data k ≡ none))
        (remove_from (length b) (first b) s)
unfolding remove_from next_node
remove_from_lem [] a s held w e = returns (Detaches-refl s held w, λ k p. absurd (omega (arith, p)))
remove_from_lem (n ∷ b) a s held w e =
    let (r, one, next) = at_node s held n a b w e in
    rw (remove_from, alive-IsCounted s held n w r, next)
      (and_then (detach-Detaches s held n w r) λ (t, _) (v, f, l, _).
        let (c, q) = split_after n a b s.nodes t.nodes e one l in
        weaken (remove_from_lem b c t held v.counted q) λ u (v', none_of). (
          Detaches-trans v v',
          λ k p. elim (Bool-cases (k == n)) [
            | inl h ↦ v'.fades k (f k ∙ rw h refl)
            | inr h ↦ none_of k (ground (arith, p, h))
          ],
        ))

-- RemoveAllListener returns on every event in order, also while listeners run, and no listener is
-- left.
pub remove_all_listener-IsEvent :
    (e : Event) (held : List ℕ)
    → IsEvent e held
    → Returns
        (λ t.
          IsEvent t held
          × Detaches e.listener_list held t.listener_list
          × (t.calls ≡ e.calls)
          × ((n : ℕ) → t.listener_list.raw_data n ≡ none))
        (remove_all_listener e)
unfolding remove_all_listener
remove_all_listener-IsEvent e held w =
    and_then (remove_from_lem e.listener_list.nodes [] e.listener_list held w.nodes refl)
      λ t (v, f).
        let gone = λ (n : ℕ). cleared n t v f in
        returns (record { nodes = v.counted; indexed = λ key n. rw (gone n) refl }, v, refl, gone)
  where
    cleared :
        (n : ℕ) (t : SafeList ListenerInfo)
        → Detaches e.listener_list held t
        → ((k : ℕ) → 0 < count_in k e.listener_list.nodes → t.raw_data k ≡ none)
        → t.raw_data n ≡ none
    cleared n t v f = elim (Bool-cases (ltb 0 (count_in n e.listener_list.nodes))) [
      | inl h ↦ f n (ground (arith, h))
      | inr h ↦
          let l = w.nodes.listed n in
          let c = w.nodes.counted n in
          v.fades n (unowned_none (e.listener_list.raw_data n) (ground (arith, l, c, h)))
    ]
