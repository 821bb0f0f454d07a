-- ===== src/Ecs/Systems/Loops.antt =====
-- RemoveAllSystem and UpdateAll, with systems that add, remove and update systems.
use mathlib.Core.Path.{subst}
use mzx.Array.{length}
use mzx.Base.{
  ℕ, ◌≤◌, ◌<◌, ◌≡◌, refl, sym, ap, ◌∙◌, true, Option, none, List, [], ◌∷◌, ◌++◌, ◌==◌, ltb, arith,
  Bool-cases, Option-cases, inl, inr,
}
use mzx.Run.{Returns, returns, and_then, weaken}
use mzx.SafeList.{first, next_in}
use mzx.SafeList.Laws.{count_in, unowned_none, ref_of_held, incr_ref-IsCounted}
use mzx.SafeList.Detaches.{detach-Detaches}
use mzx.SafeList.Walk.{leave-IsCounted}
use mzx.SafeList.Split.{at_node, split_after, held-KeepsOthers}
use mzx.Ecs.Systems.{Systems, forget, remove_systems_from, remove_all_system}
use mzx.Ecs.Systems.Laws.{IsTable, IsSystems, forget-IsTable}

pub IsTable-cong :
    (systems : ℕ → Option ℕ) {f g : ℕ → Option ℕ} → g ≡ f → IsTable systems f → IsTable systems g
IsTable-cong systems e w = subst (IsTable systems) (sym e) w

remove_systems_from_lem :
    (b a : List ℕ) (s : Systems) (held : List ℕ)
    → IsSystems s held
    → s.system_list.nodes ≡ a ++ b
    → Returns
        (λ t.
          IsSystems t held
          × ((k : ℕ) → s.system_list.raw_data k ≡ none → t.system_list.raw_data k ≡ none)
          × ((k : ℕ) → 0 < count_in k b → t.system_list.raw_data k ≡ none))
        (remove_systems_from (length b) (first b) s)
unfolding remove_systems_from
remove_systems_from_lem [] a s held w e = returns (w, (λ k q. q), λ k p. absurd (omega (arith, p)))
remove_systems_from_lem (n ∷ b) a s held w e =
    let l = s.system_list in
    let (r, single, next) = at_node l held n a b w.nodes e in
    and_then (incr_ref-IsCounted l held n w.nodes r) λ t (v, o, q).
      let hit : (n == n) ≡ true = ground arith in
      let r' = ref_of_held t (n ∷ held) n v (rw hit (omega arith)) in
      and_then (detach-Detaches t (n ∷ held) n v r') λ (u, d) (x, f, keeps, same).
        let stays = held-KeepsOthers t u held n x.counted keeps ∙ o in
        and_then (leave-IsCounted u held n x.counted) λ (y, m) (z, g, _, _, keeps', at).
          let table = IsTable-cong (forget d s.systems) g (
            forget-IsTable s.systems t.raw_data u.raw_data n d (IsTable-cong s.systems q w.table)
              (sym same) f) in
          let (c, split) =
            split_after n a b u.nodes y.nodes (stays ∙ e) (ap_le (count_in n) stays single)
              keeps' in
          let gone = λ (k : ℕ) (h : (s.system_list.raw_data k ≡ none)).
            ap (λ (p : ℕ → Option ℕ). p k) g ∙ x.fades k (ap (λ (p : ℕ → Option ℕ). p k) q ∙ h) in
          rw (at ∙ ap (next_in n) stays ∙ next) (
            weaken
              (remove_systems_from_lem b c
                (record s { systems = forget d s.systems; system_list = y }) held
                (record { nodes = z; table = table }) split)
              λ i (j, fades, none_of). (
                j,
                (λ k h. fades k (gone k h)),
                λ k p. elim (Bool-cases (k == n)) [
                  | inl h ↦ fades k (ap (λ (p : ℕ → Option ℕ). p k) g ∙ f k ∙ rw h refl)
                  | inr h ↦ none_of k (ground (arith, p, h))
                ],
              ))
  where
    ap_le : (f : List ℕ → ℕ) {x y : List ℕ} → y ≡ x → f x ≤ 1 → f y ≤ 1
    ap_le f e h = let q = ap f e in omega (arith, q, h)

-- RemoveAllSystem returns on every manager in order, also while systems are updated, and leaves no
-- system, neither on the list nor in the table.
pub remove_all_system-IsSystems :
    (s : Systems) (held : List ℕ)
    → IsSystems s held
    → Returns
        (λ t.
          IsSystems t held
          × ((n : ℕ) → t.system_list.raw_data n ≡ none)
          × ((c : ℕ) → t.systems c ≡ none))
        (remove_all_system s)
unfolding remove_all_system
remove_all_system-IsSystems s held w =
    let l = s.system_list in
    weaken (remove_systems_from_lem l.nodes [] s held w refl) λ t (v, fades, none_of).
      let gone = λ (n : ℕ). cleared n t fades none_of in (v, gone, λ c. untabled t v gone c)
  where
    cleared :
        (n : ℕ) (t : Systems)
        → ((k : ℕ) → s.system_list.raw_data k ≡ none → t.system_list.raw_data k ≡ none)
        → ((k : ℕ) → 0 < count_in k s.system_list.nodes → t.system_list.raw_data k ≡ none)
        → t.system_list.raw_data n ≡ none
    cleared n t fades none_of = elim (Bool-cases (ltb 0 (count_in n s.system_list.nodes))) [
      | inl h ↦ none_of n (ground (arith, h))
      | inr h ↦
          let l = w.nodes.listed n in
          let c = w.nodes.counted n in
          fades n (unowned_none (s.system_list.raw_data n) (ground (arith, l, c, h)))
    ]

    untabled :
        (t : Systems)
        → IsSystems t held
        → ((n : ℕ) → t.system_list.raw_data n ≡ none)
        → (c : ℕ) → t.systems c ≡ none
    untabled t v gone c = elim (Option-cases (t.systems c)) [
      | inl h ↦ h
      | inr (n, h) ↦ absurd (let q = sym (gone n) ∙ v.table.there c n h in cc)
    ]
