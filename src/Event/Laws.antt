-- ===== src/Event/Laws.antt =====
-- The index names each live listener once, and the operations keep it so.
use mathlib.Core.Path.{subst}
use mzx.Base.{
  ℕ, ◌+◌, ◌<◌, ◌≡◌, refl, sym, ap, ◌∙◌, true, false, Option, none, some, List, [], ◌∷◌, ◌++◌, ◌==◌,
  if◌then◌else◌, arith, Bool-cases, inl, inr,
}
use mzx.Run.{Returns, returns, and_then, weaken}
use mzx.SafeList.{SafeList}
use mzx.SafeList.Laws.{IsCounted, owned, ref_of_data}
use mzx.SafeList.Detach.{without, empty-IsCounted}
use mzx.SafeList.Detaches.{Detaches, Detaches-refl, Detaches-trans, detach-Detaches}
use mzx.Event.{ListenerInfo, Event, new_event, detach_range, remove_listener}

-- the entries of the node `n` under `key`
abbrev pub entries : ℕ → ℕ → List (ℕ × ℕ) → ℕ
entries key n [] = 0
entries key n ((k, m) ∷ l) = (if k == key then (if m == n then 1 else 0) else 0) + entries key n l

abbrev pub tagged : ℕ → Option ListenerInfo → ℕ
tagged key none = 0
tagged key (some info) = if info.id == key then 1 else 0

pub record IsEvent (e : Event) (held : List ℕ) : Type 0 where
  pub nodes : IsCounted e.listener_list held
  pub indexed :
      (key n : ℕ) → entries key n e.listener_index ≡ tagged key (e.listener_list.raw_data n)

-- what is left of a listener when those of `id` are removed
abbrev pub without_id : ℕ → Option ListenerInfo → Option ListenerInfo
without_id id none = none
without_id id (some info) = if info.id == id then none else some info

pub entries-append :
    (key n : ℕ) (a b : List (ℕ × ℕ)) → entries key n (a ++ b) ≡ entries key n a + entries key n b
entries-append key n [] b = omega arith
entries-append key n ((k, m) ∷ a) b = let h = entries-append key n a b in omega (arith, h)

pub new_event-IsEvent : IsEvent new_event []
new_event-IsEvent = record { nodes = empty-IsCounted; indexed = λ key n. refl }

pub tagged-some :
    (key : ℕ) (o : Option ListenerInfo)
    → 0 < tagged key o
    → (i : ListenerInfo) × (o ≡ some i) × (i.id ≡ key)
tagged-some key none h = absurd (omega (arith, h))
tagged-some key (some i) h = (i, refl, ground (arith, h))

untagged : (id : ℕ) (o : Option ListenerInfo) → tagged id o ≡ 0 → o ≡ without_id id o
untagged id none h = refl
untagged id (some i) h = let other : (i.id == id) ≡ false = ground (arith, h) in rw other refl

pub unowned : (key : ℕ) (o : Option ListenerInfo) → owned o ≡ 0 → tagged key o ≡ 0
unowned key none h = refl
unowned key (some i) h = absurd (omega (arith, h))

tagged_once :
    (id key : ℕ) (o : Option ListenerInfo)
    → 0 < tagged id o
    → tagged key o ≡ (if key == id then 1 else 0)
tagged_once id key none h = absurd (omega (arith, h))
tagged_once id key (some i) h = ground (arith, h)

without_tagged : (id : ℕ) (o : Option ListenerInfo) → 0 < tagged id o → without_id id o ≡ none
without_tagged id none h = refl
without_tagged id (some i) h = let hit : (i.id == id) ≡ true = ground (arith, h) in rw hit refl

-- `left` and the entries that `extra` counts are the index of `t`, which is `s` without the
-- listeners of `id`
record IsRemoved (id : ℕ) (held : List ℕ) (extra : ℕ → ℕ → ℕ) (s t : SafeList ListenerInfo)
    (left : List (ℕ × ℕ)) : Type 0 where
  list : Detaches s held t
  removed : (n : ℕ) → t.raw_data n ≡ without_id id (s.raw_data n)
  indexed : (key n : ℕ) → extra key n + entries key n left ≡ tagged key (t.raw_data n)

removed_twice :
    (id n : ℕ) (f : ℕ → Option ListenerInfo)
    → 0 < tagged id (f n)
    → (k : ℕ) → without_id id (without n f k) ≡ without_id id (f k)
removed_twice id n f h k = elim (Bool-cases (k == n)) [
  | inl e ↦
      let same : k ≡ n = ground arith in
      rw e (sym (ap (λ i. without_id id (f i)) same ∙ without_tagged id (f n) h))
  | inr e ↦ rw e refl
]

-- the entry of a listener goes with its data
entry_removed :
    (id n : ℕ) (f : ℕ → Option ListenerInfo) (extra : ℕ → ℕ → ℕ) (rest : List (ℕ × ℕ))
    → ((key m : ℕ) → extra key m + entries key m ((id, n) ∷ rest) ≡ tagged key (f m))
    → (key m : ℕ) → extra key m + entries key m rest ≡ tagged key (without n f m)
entry_removed id n f extra rest h key m = elim (Bool-cases (m == n)) [
  | inl e ↦
      let same : m ≡ n = ground arith in
      let hit : 0 < tagged id (f n) = ground (arith, h id n) in
      let q = h key n in
      let o = tagged_once id key (f n) hit in
      rw e (subst (λ i. extra key i + entries key i rest ≡ 0) (sym same) (ground (arith, q, o)))
  | inr e ↦ rw e (let q = h key m in ground (arith, q, e))
]

detach_range_lem :
    (id : ℕ) (l : List (ℕ × ℕ)) (s : SafeList ListenerInfo) (held : List ℕ) (extra : ℕ → ℕ → ℕ)
    → IsCounted s held
    → ((n : ℕ) → extra id n ≡ 0)
    → ((key n : ℕ) → extra key n + entries key n l ≡ tagged key (s.raw_data n))
    → Returns (λ (t, left). IsRemoved id held extra s t left) (detach_range id l s)
unfolding detach_range
detach_range_lem id [] s held extra w none_of h = returns (record {
  list = Detaches-refl s held w;
  removed =
      λ n. let q = h id n in let z = none_of n in untagged id (s.raw_data n) (omega (arith, q, z));
  indexed = h;
})
detach_range_lem id ((key, n) ∷ rest) s held extra w none_of h = elim (Bool-cases (key == id)) [
  | inl e ↦
      let same : key ≡ id = ground arith in
      let h' =
        subst (λ i. (k m : ℕ) → extra k m + entries k m ((i, n) ∷ rest) ≡ tagged k (s.raw_data m))
          same h in
      let q = h' id n in
      let hit : 0 < tagged id (s.raw_data n) = ground (arith, q) in
      let (i, d, _) = tagged-some id (s.raw_data n) hit in
      rw (e, detach_range)
        (and_then (detach-Detaches s held n w (ref_of_data s held n i w d)) λ (t, _) (v, f, _, _).
          weaken
            (detach_range_lem id rest t held extra v.counted none_of
              λ k m. entry_removed id n s.raw_data extra rest h' k m ∙ ap (tagged k) (sym (f m)))
            λ (u, left) r. record {
              list = Detaches-trans v r.list;
              removed =
                  λ k. r.removed k ∙ ap (without_id id) (f k) ∙ removed_twice id n s.raw_data hit k;
              indexed = r.indexed;
            })
  | inr e ↦
      rw (e, detach_range)
        (and_then
          (detach_range_lem id rest s held
            (λ k m. extra k m + (if key == k then (if n == m then 1 else 0) else 0)) w
            (λ m. rw e (let z = none_of m in omega (arith, z)))
            λ k m. let q = h k m in omega (arith, q))
          λ (t, left) r. returns (record {
            list = r.list;
            removed = r.removed;
            indexed = λ k m. let q = r.indexed k m in omega (arith, q);
          }))
]

-- RemoveListener returns on every event in order and takes exactly the listeners of `id` out of it.
pub remove_listener-IsEvent :
    (id : ℕ) (e : Event) (held : List ℕ)
    → IsEvent e held
    → Returns
        (λ t.
          IsEvent t held
          × Detaches e.listener_list held t.listener_list
          × (t.calls ≡ e.calls)
          × ((n : ℕ) → t.listener_list.raw_data n ≡ without_id id (e.listener_list.raw_data n)))
        (remove_listener id e)
unfolding remove_listener
remove_listener-IsEvent id e held w =
    and_then
      (detach_range_lem id e.listener_index e.listener_list held (λ k n. 0) w.nodes (λ n. refl)
        λ k n. let q = w.indexed k n in omega (arith, q))
      λ (t, left) r. returns (
        record {
          nodes = r.list.counted;
          indexed = λ k n. let q = r.indexed k n in omega (arith, q);
        },
        r.list,
        refl,
        r.removed,
      )
