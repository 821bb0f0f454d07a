-- ===== src/SafeList/View.antt =====
-- The data of a list's nodes in their order, which is what its users see.
use mzx.Base.{
  ℕ, ◌≡◌, refl, sym, ap, ◌∙◌, true, false, Option, none, some, List, [], ◌∷◌, ◌++◌, ◌==◌,
  if◌then◌else◌, arith, Bool-cases, inl, inr,
}
use mzx.SafeList.{SafeList, remove, push_node, set_ref, set_data}
use mzx.SafeList.Laws.{count_in, KeepsOthers, IsCounted}

module _ {ℓ} {D : Type ℓ} where
  abbrev pub put : Option D → List D → List D
  put none l = l
  put (some d) l = d ∷ l

  abbrev pub collect : (ℕ → Option D) → List ℕ → List D
  collect f [] = []
  collect f (n ∷ l) = put (f n) (collect f l)

  -- the data in the order of the nodes
  abbrev pub contents : SafeList D → List D
  contents s = collect s.raw_data s.nodes

  pub collect-ext :
      (f g : ℕ → Option D) (l : List ℕ) → ((k : ℕ) → f k ≡ g k) → collect f l ≡ collect g l
  collect-ext f g [] e = refl
  collect-ext f g (n ∷ l) e = rw (e n) (ap (put (g n)) (collect-ext f g l e))

  put-append : (o : Option D) (a b : List D) → put o (a ++ b) ≡ put o a ++ b
  put-append none a b = refl
  put-append (some d) a b = refl

  pub collect-append :
      (f : ℕ → Option D) (a b : List ℕ) → collect f (a ++ b) ≡ collect f a ++ collect f b
  collect-append f [] b = refl
  collect-append f (n ∷ a) b =
      ap (put (f n)) (collect-append f a b) ∙ put-append (f n) (collect f a) (collect f b)

  pub collect-remove :
      (f : ℕ → Option D) (n : ℕ) (l : List ℕ) → f n ≡ none → collect f (remove n l) ≡ collect f l
  collect-remove f n [] e = refl
  collect-remove f n (x ∷ l) e = elim (Bool-cases (n == x)) [
    | inl h ↦
        let same : x ≡ n = ground (arith, h) in
        rw h (collect-remove f n l e ∙ ap (λ o. put o (collect f l)) (sym (ap f same ∙ e)))
    | inr h ↦ rw h (ap (put (f x)) (collect-remove f n l e))
  ]

  -- to free a node without data changes nothing
  pub collect-KeepsOthers :
      (f : ℕ → Option D) (n : ℕ) (a b : List ℕ)
      → f n ≡ none
      → KeepsOthers n a b
      → collect f b ≡ collect f a
  collect-KeepsOthers f n a b e (inl h) = ap (collect f) h
  collect-KeepsOthers f n a b e (inr h) = ap (collect f) h ∙ collect-remove f n a e

  collect_unlisted :
      (f : ℕ → Option D) (n : ℕ) (d : Option D) (l : List ℕ)
      → count_in n l ≡ 0
      → collect (λ k. if k == n then d else f k) l ≡ collect f l
  collect_unlisted f n d [] z = refl
  collect_unlisted f n d (x ∷ l) z =
      let other : (x == n) ≡ false = ground (arith, z) in
      rw other (ap (put (f x)) (collect_unlisted f n d l (ground (arith, z))))

  -- a new node's data comes last
  pub contents-push_node :
      (s : SafeList D) (held : List ℕ) (d : D)
      → IsCounted s held
      → contents (push_node d s) ≡ contents s ++ d ∷ []
  unfolding push_node set_ref set_data
  contents-push_node s held d w =
      let z = w.unnamed s.next_name (omega arith) in
      let l = w.listed s.next_name in
      let new : (s.next_name == s.next_name) ≡ true = ground arith in
      let f : ℕ → Option D = λ k. if k == s.next_name then some d else s.raw_data k in
      collect-append f s.nodes (s.next_name ∷ [])
      ∙ rw new (
          ap (λ t. t ++ d ∷ [])
            (collect_unlisted s.raw_data s.next_name (some d) s.nodes (ground (arith, l, z))))
