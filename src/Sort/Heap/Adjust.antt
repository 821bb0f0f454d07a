-- ===== src/Sort/Heap/Adjust.antt =====
-- __AdjustHeap restores a heap.
use mathlib.Core.List.Perm
use mzx.Base.{
  ℕ, zero, suc, ◌+◌, ◌-◌, ◌*◌, ◌/◌, ◌≤◌, ◌<◌, ◌≡◌, ◌≢◌, Bool, false, List, Perm, arith, ltb,
  Bool-cases, inl, inr, if◌then◌else◌, ◌==◌, ◌⊎◌,
}
use mzx.Array.{
  length, get_or, load-ok, iter_swap-ok, swapped, get_or-swapped, length-swapped, swapped-perm,
  iter_swap,
}
use mzx.Order.{IsWeakOrder}
use mzx.Run.{◌>>=◌, ok, Returns, returns, weaken, on_test}
use mzx.Sort.Heap.{larger, adjust_loop, adjust_heap}

abbrev pub parent : ℕ → ℕ
parent c = (c - 1) / 2

module _ {ℓ} {A : Type ℓ} (comp : A → A → Bool) (order : IsWeakOrder comp) (d : A) where
  pub irrefl : (x : A) → comp x x ≡ false
  irrefl x = ground (arith, order.asymm x x)

  -- no child among the first `n` goes after its parent, where the parent is at `lo` or later
  abbrev pub IsHeapFrom : ℕ → ℕ → List A → Type 0
  IsHeapFrom lo n a =
      (c : ℕ) → 0 < c → c < n → lo ≤ parent c → comp (get_or a (parent c) d) (get_or a c d) ≡ false

  -- the same, but for the edges below `i`; these are in order with the parent of `i`
  pub record IsSinking (lo n i : ℕ) (a : List A) : Type 0 where
    pub edges :
        (c : ℕ)
        → 0 < c
        → c < n
        → lo ≤ parent c
        → parent c ≢ i
        → comp (get_or a (parent c) d) (get_or a c d) ≡ false
    pub bridged :
        (c : ℕ)
        → 0 < c
        → c < n
        → parent c ≡ i
        → 0 < i
        → lo ≤ parent i
        → comp (get_or a (parent i) d) (get_or a c d) ≡ false

  -- what stands at `n` and past it is sorted, and goes after all that stands before it
  abbrev pub IsTaken : ℕ → List A → Type 0
  IsTaken n a =
      (i j : ℕ) → i < j → n ≤ j → j < length a → comp (get_or a j d) (get_or a i d) ≡ false

  IsTaken-swapped :
      (n i j : ℕ) (a : List A)
      → n ≤ length a
      → i < n
      → j < n
      → IsTaken n a
      → IsTaken n (swapped d a i j)
  IsTaken-swapped n i j a h hi hj t p q lt nq ql =
      let size = length-swapped d a i j in
      let at = get_or-swapped d a i j (omega arith) (omega arith) in
      ground (arith, size, at p, at q, t p q lt, t i q, t j q)

  -- `m` is the place of a last one among `i` and its children
  record IsLast (a : List A) (n i m : ℕ) : Type 0 where
    inside : m < n
    place : (m ≡ i) ⊎ ((m ≡ 2 * i + 1) ⊎ (m ≡ 2 * i + 2))
    self : comp (get_or a m d) (get_or a i d) ≡ false
    kids : (c : ℕ) → 0 < c → c < n → parent c ≡ i → comp (get_or a m d) (get_or a c d) ≡ false

  -- the place that `larger` keeps
  pick : List A → ℕ → ℕ → ℕ → ℕ
  pick a n s c = if ltb c n then (if comp (get_or a s d) (get_or a c d) then c else s) else s

  larger-pick :
      (a : List A) (n s c : ℕ) → n ≤ length a → s < n → larger comp a n s c ≡ ok (pick a n s c)
  unfolding larger pick
  larger-pick a n s c h hs = elim (Bool-cases (ltb c n)) [
    | inl e ↦ rw (e, load-ok d a s (omega arith), load-ok d a c (ground arith))
    | inr e ↦ rw e
  ]

  record IsPick (a : List A) (n s c m : ℕ) : Type 0 where
    place : (m ≡ s) ⊎ (m ≡ c)
    inside : m < n
    self : comp (get_or a m d) (get_or a s d) ≡ false
    child : c < n → comp (get_or a m d) (get_or a c d) ≡ false

  pick-IsPick : (a : List A) (n s c : ℕ) → s < n → IsPick a n s c (pick a n s c)
  unfolding pick
  pick-IsPick a n s c h =
      let same_s = irrefl (get_or a s d) in
      let same_c = irrefl (get_or a c d) in
      let flip = order.asymm (get_or a s d) (get_or a c d) in
      record {
        place = ground arith;
        inside = ground arith;
        self = ground (arith, same_s, flip);
        child = λ k. ground (arith, same_c, flip);
      }

  swap_place : List A → ℕ → ℕ → ℕ
  swap_place a n i = pick a n (pick a n i (2 * i + 1)) (2 * i + 2)

  swap_place-IsLast : (a : List A) (n i : ℕ) → i < n → IsLast a n i (swap_place a n i)
  unfolding swap_place
  swap_place-IsLast a n i h =
      let m1 = pick a n i (2 * i + 1) in
      let v1 : IsPick a n i (2 * i + 1) m1 = pick-IsPick a n i (2 * i + 1) h in
      let m2 = pick a n m1 (2 * i + 2) in
      let v2 : IsPick a n m1 (2 * i + 2) m2 = pick-IsPick a n m1 (2 * i + 2) v1.inside in
      let up = λ (c : ℕ). order.trans (get_or a c d) (get_or a m1 d) (get_or a m2 d) in
      record {
        inside = v2.inside;
        place = omega (arith, v1.place, v2.place);
        self = up i v1.self v2.self;
        kids = λ c p q r.
            let side : (c ≡ 2 * i + 1) ⊎ (c ≡ 2 * i + 2) = omega arith in
            elim side [
              | inl e ↦ up c (rw e (v1.child (omega arith))) v2.self
              | inr e ↦ rw e (v2.child (omega arith))
            ];
      }

  IsSinking-swapped :
      (lo n i m : ℕ) (a : List A)
      → n ≤ length a
      → i < n
      → lo ≤ i
      → m ≢ i
      → IsLast a n i m
      → IsSinking lo n i a
      → IsSinking lo n m (swapped d a m i)
  IsSinking-swapped lo n i m a h hi lo_i ne last v =
      let at = get_or-swapped d a m i (omega (arith, last.inside)) (omega arith) in
      record {
        edges = λ c p q r s. ground (
          arith,
          at c,
          at (parent c),
          v.edges c,
          v.bridged m,
          last.self,
          last.kids c,
          last.place,
          v.bridged c,
        );
        bridged = λ c p q r s t. ground (arith, at c, at (parent m), v.edges c, last.place);
      }

  abbrev pub Sifted : ℕ → ℕ → List A → List A → Type ℓ
  Sifted lo n a b = IsHeapFrom lo n b × Perm b a × (IsTaken n a → IsTaken n b)

  adjust_loop-swap_place :
      (fuel n i : ℕ) (a : List A)
      → n ≤ length a
      → i < n
      → adjust_loop comp (suc fuel) a n i ≡ (
          if swap_place a n i == i
          then ok a
          else iter_swap a (swap_place a n i) i >>= λ b.
              adjust_loop comp fuel b n (swap_place a n i))
  unfolding adjust_loop swap_place
  adjust_loop-swap_place fuel n i a h hi =
      let one = pick-IsPick a n i (2 * i + 1) hi in
      rw (
        larger-pick a n i (2 * i + 1) h hi,
        larger-pick a n (pick a n i (2 * i + 1)) (2 * i + 2) h one.inside,
      )

  adjust_loop-Sifted :
      (fuel lo n i : ℕ) (a : List A)
      → n - i < fuel
      → n ≤ length a
      → i < n
      → lo ≤ i
      → IsSinking lo n i a
      → Returns (Sifted lo n a) (adjust_loop comp fuel a n i)
  adjust_loop-Sifted zero lo n i a f h hi lo_i v = absurd (omega arith)
  adjust_loop-Sifted (suc fuel) lo n i a f h hi lo_i v =
      let m = swap_place a n i in
      let last : IsLast a n i m = swap_place-IsLast a n i hi in
      let hm : m < length a = omega (arith, last.inside) in
      let hi' : i < length a = omega arith in
      rw (adjust_loop-swap_place fuel n i a h hi) (
        on_test (m == i)
          (λ e. returns ((λ c p q r. ground (arith, v.edges c, last.kids c)), Perm.rfl, λ t. t))
          λ e. rw (iter_swap-ok d a m i hm hi') (
            weaken
              (adjust_loop-Sifted fuel lo n m (swapped d a m i) (ground (arith, last.place))
                (omega (arith, length-swapped d a m i)) last.inside (ground (arith, last.place))
                (IsSinking-swapped lo n i m a h hi lo_i (ground arith) last v))
              λ b (heap, perm, keep). (
                heap,
                Perm.trans perm (swapped-perm d a m i hm hi'),
                λ t. keep (IsTaken-swapped n m i a h last.inside hi t),
              )))

  pub adjust_heap-Sifted :
      (lo n i : ℕ) (a : List A)
      → n ≤ length a
      → i < n
      → lo ≤ i
      → IsSinking lo n i a
      → Returns (Sifted lo n a) (adjust_heap comp a n i)
  unfolding adjust_heap
  adjust_heap-Sifted lo n i a h hi lo_i v =
      adjust_loop-Sifted (suc n) lo n i a (omega arith) h hi lo_i v
