-- ===== src/Ecs/Systems/Laws.antt =====
-- The table of the systems and their list stay together.
use mzx.Base.{
  ℕ, ◌≡◌, ◌≢◌, refl, sym, ap, ◌∙◌, true, false, Option, none, some, List, [], ◌==◌, arith,
  Bool-cases, Option-cases, inl, inr,
}
use mzx.Run.{Returns, returns, and_then, NoFault, finished, stopped}
use mzx.SafeList.{SafeList, push_node, set_ref, set_data}
use mzx.SafeList.Laws.{IsCounted, unowned_none, ref_of_data}
use mzx.SafeList.Detach.{without, push_node-IsCounted, empty-IsCounted}
use mzx.SafeList.Detaches.{detach-Detaches}
use mzx.Ecs.Systems.{Systems, new_systems, set_system, forget, add_system, remove_system}

-- a class has the node whose data is its system
pub record IsTable (systems raw : ℕ → Option ℕ) : Type 0 where
  pub there : (class n : ℕ) → systems class ≡ some n → raw n ≡ some class
  pub back : (class n : ℕ) → raw n ≡ some class → systems class ≡ some n

pub record IsSystems (s : Systems) (held : List ℕ) : Type 0 where
  pub nodes : IsCounted s.system_list held
  pub table : IsTable s.systems s.system_list.raw_data

same_some : (a b : ℕ) → some a ≡ some b → a ≡ b
same_some a b e = ap (λ o. elim o [ none ↦ a | some x ↦ x ]) e

without_other : (n k : ℕ) (raw : ℕ → Option ℕ) → k ≢ n → without n raw k ≡ raw k
without_other n k raw h = let miss : (k == n) ≡ false = ground (arith, h) in rw miss refl

without-some :
    (n k c : ℕ) (raw : ℕ → Option ℕ) → without n raw k ≡ some c → (k ≢ n) × (raw k ≡ some c)
without-some n k c raw e = elim (Bool-cases (k == n)) [
  | inl h ↦ absurd (let q = rw h at e in cc)
  | inr h ↦ (ground (arith, h), rw h at e)
]

-- the nodes with different data are different
apart : (raw : ℕ → Option ℕ) (k n : ℕ) → raw k ≢ raw n → k ≢ n
apart raw k n h same = h (ap raw same)

some_apart : (a b : ℕ) → a ≢ b → some a ≢ some b
some_apart a b h e = h (same_some a b e)

set_other :
    (class c : ℕ) (n : Option ℕ) (systems : ℕ → Option ℕ)
    → c ≢ class
    → set_system class n systems c ≡ systems c
set_other class c n systems h = let miss : (c == class) ≡ false = ground (arith, h) in rw miss refl

set_some :
    (class c k : ℕ) (systems : ℕ → Option ℕ)
    → set_system class none systems c ≡ some k
    → (c ≢ class) × (systems c ≡ some k)
set_some class c k systems e = elim (Bool-cases (c == class)) [
  | inl h ↦ absurd (let q = rw h at e in cc)
  | inr h ↦ (ground (arith, h), rw h at e)
]

-- the system of the node `n` has been detached and forgotten
pub forget-IsTable :
    (systems raw t : ℕ → Option ℕ) (n : ℕ) (d : Option ℕ)
    → IsTable systems raw
    → raw n ≡ d
    → ((k : ℕ) → t k ≡ without n raw k)
    → IsTable (forget d systems) t
forget-IsTable systems raw t n none w e f = record {
  there = λ c k q.
      let p = w.there c k q in f k ∙ without_other n k raw (apart raw k n (λ s. absurd cc)) ∙ p;
  back = λ c k q. w.back c k (without-some n k c raw (sym (f k) ∙ q)).1;
}
forget-IsTable systems raw t n (some class) w e f = record {
  there = λ c k q.
      let (other, r) = set_some class c k systems q in
      let p = w.there c k r in
      f k
      ∙ without_other n k raw (apart raw k n (λ s. some_apart c class other (sym p ∙ s ∙ e)))
      ∙ p;
  back = λ c k q.
      let (other, p) = without-some n k c raw (sym (f k) ∙ q) in
      set_other class c none systems
        (λ s. other (same_some k n (sym (w.back c k p) ∙ ap systems s ∙ w.back class n e)))
      ∙ w.back c k p;
}

pub new_systems-IsSystems : IsSystems new_systems []
new_systems-IsSystems = record {
  nodes = empty-IsCounted;
  table = record { there = λ c n e. absurd cc; back = λ c n e. absurd cc };
}

other_test : (a b : ℕ) → a ≢ b → (a == b) ≡ false
other_test a b h = ground (arith, h)

not_none : (a : ℕ) → some a ≢ none
not_none a e = absurd cc

-- a system is added for a class that has none
pub push_node-IsTable :
    (class : ℕ) (systems : ℕ → Option ℕ) (l : SafeList ℕ)
    → IsTable systems l.raw_data
    → systems class ≡ none
    → l.raw_data l.next_name ≡ none
    → IsTable (set_system class (some l.next_name) systems) (push_node class l).raw_data
unfolding push_node set_ref set_data
push_node-IsTable class systems l w e z = record {
  there = λ c k q. elim (Bool-cases (c == class)) [
    | inl h ↦
        let k_new : l.next_name ≡ k = same_some l.next_name k (rw h at q) in
        let hit : (k == l.next_name) ≡ true = ground (arith, k_new) in
        let c_new : class ≡ c = ground (arith, h) in rw hit (ap some c_new)
    | inr h ↦
        let p = w.there c k (rw h at q) in
        let miss : (k == l.next_name) ≡ false =
          other_test k l.next_name
            (apart l.raw_data k l.next_name (λ s. not_none c (sym p ∙ s ∙ z))) in
        rw miss p
  ];
  back = λ c k q. elim (Bool-cases (k == l.next_name)) [
    | inl h ↦
        let c_new : class ≡ c = same_some class c (rw h at q) in
        let hit : (c == class) ≡ true = ground (arith, c_new) in
        let k_new : l.next_name ≡ k = ground (arith, h) in rw hit (ap some k_new)
    | inr h ↦
        let p = w.back c k (rw h at q) in
        let miss : (c == class) ≡ false =
          other_test c class (apart systems c class (λ s. not_none k (sym p ∙ s ∙ e))) in
        rw miss p
  ];
}

pub add_system-IsSystems :
    (class : ℕ) (s : Systems) (held : List ℕ)
    → IsSystems s held
    → NoFault (λ t. IsSystems t held) (add_system class s)
unfolding add_system
add_system-IsSystems class s held w = elim (Option-cases (s.systems class)) [
  | inr (n, e) ↦ rw (e, add_system) stopped
  | inl e ↦
      let l = s.system_list in
      let c = w.nodes.counted l.next_name in
      let u = w.nodes.unnamed l.next_name (omega arith) in
      rw (e, add_system)
        (finished (record {
          nodes = push_node-IsCounted l held class w.nodes;
          table =
              push_node-IsTable class s.systems l w.table e
                (unowned_none (l.raw_data l.next_name) (omega (arith, c, u)));
        }))
]

pub remove_system-IsSystems :
    (class : ℕ) (s : Systems) (held : List ℕ)
    → IsSystems s held
    → Returns
        (λ t.
          IsSystems t held
          × (t.systems class ≡ none)
          × ((c : ℕ) → c ≢ class → t.systems c ≡ s.systems c))
        (remove_system class s)
unfolding remove_system
remove_system-IsSystems class s held w = elim (Option-cases (s.systems class)) [
  | inl e ↦ rw (e, remove_system) (returns (w, e, λ c o. refl))
  | inr (n, e) ↦
      let p = w.table.there class n e in
      rw (e, remove_system)
        (and_then
          (detach-Detaches s.system_list held n w.nodes
            (ref_of_data s.system_list held n class w.nodes p))
          λ (t, d) (v, f, _, _). returns (
            record {
              nodes = v.counted;
              table =
                  forget-IsTable s.systems s.system_list.raw_data t.raw_data n (some class) w.table
                    p f;
            },
            (let hit : (class == class) ≡ true = ground arith in rw hit refl),
            λ c o. set_other class c none s.systems o,
          ))
]
