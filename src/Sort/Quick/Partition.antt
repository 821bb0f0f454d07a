-- ===== src/Sort/Quick/Partition.antt =====
-- The outer `while` of __QuickSort.
use mzx.Base.{
  ℕ, zero, suc, ◌-◌, ◌≤◌, ◌<◌, ◌≡◌, Bool, true, false, ◌&&◌, List, arith, ltb, inl, inr, ltb→lt,
  not-ltb→le, ◌≢◌, ◌⊎◌, ◌∙◌,
}
use mzx.Array.{length, get_or, set, load-ok, store-ok, get_or-set, length-set, move-swapped}
use mzx.Order.{IsWeakOrder}
use mzx.Run.{Returns, returns, and_then, weaken, on_test}
use mzx.Sort.Moves.{Moves}
use mzx.Sort.Quick.{scan_down, scan_up, move_down, move_up, partition}

module _ {ℓ} {A : Type ℓ} (comp : A → A → Bool) (order : IsWeakOrder comp) (d : A) where
  -- where `--iter_last` stops
  record StopsDown (tmp : A) (first last : ℕ) (a : List A) (m : ℕ) : Type 0 where
    low : first ≤ m
    high : m ≤ last
    passed : (j : ℕ) → m < j → j ≤ last → comp tmp (get_or a j d) ≡ true
    stop : first < m → comp tmp (get_or a m d) ≡ false

  scan_down-StopsDown :
      (tmp : A) (first last : ℕ) (a : List A)
      → first ≤ last
      → last < length a
      → Returns (StopsDown tmp first last a) (scan_down comp tmp first last a)
  unfolding scan_down
  scan_down-StopsDown tmp first zero a h k = rw (load-ok d a zero k) (
      returns (record {
        low = omega arith;
        high = omega arith;
        passed = λ j p q. absurd (omega arith);
        stop = λ p. absurd (omega arith);
      }))
  scan_down-StopsDown tmp first (suc last) a h k = rw (load-ok d a (suc last) k) (
      on_test (comp tmp (get_or a (suc last) d) && ltb first (suc last))
        (λ e. weaken (scan_down-StopsDown tmp first last a (ground arith) (omega arith)) λ m v.
          record {
            low = v.low;
            high = omega (arith, v.high);
            passed = λ j p q. ground (arith, v.passed j p);
            stop = v.stop;
          })
        (λ e. returns (record {
          low = h;
          high = omega arith;
          passed = λ j p q. absurd (omega arith);
          stop = λ p. ground arith;
        })))

  -- where `++iter_first` stops
  record StopsUp (tmp : A) (first last : ℕ) (a : List A) (m : ℕ) : Type 0 where
    low : first ≤ m
    high : m ≤ last
    passed : (j : ℕ) → first ≤ j → j < m → comp (get_or a j d) tmp ≡ true
    stop : m < last → comp (get_or a m d) tmp ≡ false

  scan_up-StopsUp :
      (fuel : ℕ) (tmp : A) (first last : ℕ) (a : List A)
      → last - first < fuel
      → first ≤ last
      → last < length a
      → Returns (StopsUp tmp first last a) (scan_up comp fuel tmp first last a)
  unfolding scan_up
  scan_up-StopsUp zero tmp first last a f h k = absurd (omega arith)
  scan_up-StopsUp (suc fuel) tmp first last a f h k = rw (load-ok d a first (omega arith)) (
      on_test (comp (get_or a first d) tmp && ltb first last)
        (λ e.
          weaken (scan_up-StopsUp fuel tmp (suc first) last a (ground arith) (ground arith) k)
            λ m v. record {
              low = omega (arith, v.low);
              high = v.high;
              passed = λ j p q. ground (arith, v.passed j);
              stop = v.stop;
            })
        (λ e. returns (record {
          low = omega arith;
          high = h;
          passed = λ j p q. absurd (omega arith);
          stop = λ p. ground arith;
        })))

  -- the hole is at `hole`; with `tmp` in it the list is a rearrangement of `start`
  pub record IsParted (start : List A) (tmp : A) (lo hi first last hole : ℕ) (a : List A)
      : Type ℓ where
    pub size : length a ≡ length start
    pub bound : hi ≤ length start
    pub begin : lo ≤ first
    pub within : first ≤ last
    pub end : last < hi
    pub left : (i : ℕ) → lo ≤ i → i < first → comp tmp (get_or a i d) ≡ false
    pub right : (j : ℕ) → last < j → j < hi → comp (get_or a j d) tmp ≡ false
    pub moves : Moves d lo hi start (set a hole tmp)

  module _ (start : List A) (tmp : A) (lo hi : ℕ) where
    -- what a hole that is carried from `i` to `j` leaves of the rearrangement
    carry :
        (i j : ℕ) (a : List A)
        → length a ≡ length start
        → hi ≤ length start
        → lo ≤ i
        → i < hi
        → lo ≤ j
        → j < hi
        → i ≢ j
        → Moves d lo hi start (set a i tmp)
        → Moves d lo hi start (set (set a i (get_or a j d)) j tmp)
    carry i j a size bound p q r s ne m =
        rw (← move-swapped d a i j tmp (omega arith) (omega arith) ne) (Moves.swap i j p q r s m)

    move_down-IsParted :
        (first last m : ℕ) (a : List A)
        → IsParted start tmp lo hi first last first a
        → StopsDown tmp first last a m
        → Returns
            (λ r. IsParted start tmp lo hi r.0 m m r.1 × ((first < r.0) ⊎ (r.0 ≡ m)))
            (move_down first m a)
    unfolding move_down
    move_down-IsParted first last m a v w =
        let hm : m < length a = omega (arith, v.size, v.bound, v.end, w.high) in
        let hf : first < length a = omega (arith, w.low) in
        let past : (j : ℕ) → m < j → j < hi → comp (get_or a j d) tmp ≡ false =
          λ j p q. ground (arith, w.passed j p, v.right j, order.asymm tmp (get_or a j d)) in
        on_test (ltb first m)
          (λ e.
            let lt = ltb→lt first m e in
            let at = λ (j : ℕ). get_or-set d a first j (get_or a m d) hf in
            rw (load-ok d a m hm, store-ok a first (get_or a m d) hf)
              (returns (
                record {
                  size = length-set a first (get_or a m d) ∙ v.size;
                  bound = v.bound;
                  begin = omega (arith, v.begin);
                  within = lt;
                  end = omega (arith, w.high, v.end);
                  left = λ i p q. ground (arith, at i, v.left i, w.stop lt);
                  right = λ j p q. ground (arith, at j, past j);
                  moves =
                      carry first m a v.size v.bound v.begin (omega (arith, v.within, v.end))
                        (omega (arith, v.begin)) (omega (arith, w.high, v.end)) (omega arith)
                        v.moves;
                },
                inl (omega arith),
              )))
          λ e.
            let eq : first ≡ m = omega (arith, not-ltb→le first m e, w.low) in
            returns (
              record {
                size = v.size;
                bound = v.bound;
                begin = v.begin;
                within = w.low;
                end = omega (arith, w.high, v.end);
                left = v.left;
                right = past;
                moves = rw eq at v.moves;
              },
              inr eq,
            )

    move_up-IsParted :
        (first last m : ℕ) (a : List A)
        → IsParted start tmp lo hi first last last a
        → StopsUp tmp first last a m
        → Returns (λ r. IsParted start tmp lo hi m r.0 m r.1 × (r.0 ≤ last)) (move_up m last a)
    unfolding move_up
    move_up-IsParted first last m a v w =
        let hl : last < length a = omega (arith, v.size, v.bound, v.end) in
        let hm : m < length a = omega (arith, w.high) in
        let before : (i : ℕ) → lo ≤ i → i < m → comp tmp (get_or a i d) ≡ false =
          λ i p q. ground (arith, w.passed i, v.left i p, order.asymm (get_or a i d) tmp) in
        on_test (ltb m last)
          (λ e.
            let lt = ltb→lt m last e in
            let at = λ (j : ℕ). get_or-set d a last j (get_or a m d) hl in
            rw (load-ok d a m hm, store-ok a last (get_or a m d) hl)
              (returns (
                record {
                  size = length-set a last (get_or a m d) ∙ v.size;
                  bound = v.bound;
                  begin = omega (arith, v.begin, w.low);
                  within = omega arith;
                  end = omega (arith, v.end);
                  left = λ i p q. ground (arith, at i, before i);
                  right = λ j p q. ground (arith, at j, v.right j, w.stop lt);
                  moves =
                      carry last m a v.size v.bound (omega (arith, v.begin, v.within)) v.end
                        (omega (arith, v.begin, w.low)) (omega (arith, v.end)) (omega arith)
                        v.moves;
                },
                omega arith,
              )))
          λ e.
            let eq : last ≡ m = omega (arith, not-ltb→le m last e, w.high) in
            returns (
              record {
                size = v.size;
                bound = v.bound;
                begin = omega (arith, v.begin, w.low);
                within = w.high;
                end = v.end;
                left = before;
                right = v.right;
                moves = rw eq at v.moves;
              },
              omega arith,
            )

    pub partition-IsParted :
        (fuel first last : ℕ) (a : List A)
        → last - first < fuel
        → IsParted start tmp lo hi first last first a
        → Returns
            (λ r. IsParted start tmp lo hi r.0 r.0 r.0 r.1)
            (partition comp fuel tmp first last a)
    unfolding partition
    partition-IsParted zero first last a f v = absurd (omega arith)
    partition-IsParted (suc fuel) first last a f v =
        let inside : last < length a = omega (arith, v.size, v.bound, v.end) in
        on_test (ltb first last)
          (λ e.
            let lt = ltb→lt first last e in
            and_then (scan_down-StopsDown tmp first last a v.within inside) λ last1 w.
              and_then (move_down-IsParted first last last1 a v w) λ r (v1, moved).
                and_then
                  (scan_up-StopsUp (suc (last1 - r.0)) tmp r.0 last1 r.1 (omega arith) v1.within
                    (omega (arith, v1.size, v1.bound, v1.end)))
                  λ first2 u. and_then (move_up-IsParted r.0 last1 first2 r.1 v1 u) λ s (v2, less).
                    partition-IsParted fuel first2 s.0 s.1
                      (omega (arith, w.high, w.low, u.low, u.high, v2.within)) v2)
          λ e.
            let eq : last ≡ first = omega (arith, not-ltb→le first last e, v.within) in
            returns (rw eq at v)
