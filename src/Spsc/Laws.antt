-- ===== src/Spsc/Laws.antt =====
-- Each operation of the ring, as an operation on the queue.
use mzx.Base.{
  ℕ, zero, suc, ◌+◌, ◌≤◌, ◌<◌, ◌≡◌, refl, sym, ap, ◌∙◌, true, false, Option, none, some, List, [],
  ◌∷◌, ◌++◌, ◌==◌, ltb, if◌then◌else◌, arith, Bool-cases, inl, inr,
}
use mzx.Array.{length, get_elem?}
use mzx.Run.{ok, Returns, returns}
use mzx.Spsc.Ops.{SpscQueue, push, pop, object, set_slot, next_index}
use mzx.Spsc.Ring.{
  IsQueue, slot, next_index_lem, slot_lt, slot_eqb, slot_suc, slot_full, slot_shift, slot_round,
  slot_zero, slot_later,
}

module _ {ℓ} {T : Type ℓ} where
  pub length-snoc : (l : List T) (x : T) → length (l ++ x ∷ []) ≡ length l + 1
  length-snoc [] x = refl
  length-snoc (y ∷ l) x = let n = length-snoc l x in ground (arith, n)

  pub get_elem?-snoc :
      (l : List T) (x : T) (k : ℕ)
      → get_elem? (l ++ x ∷ []) k ≡ (if k == length l then some x else get_elem? l k)
  get_elem?-snoc [] x zero = refl
  get_elem?-snoc [] x (suc k) = ground arith
  get_elem?-snoc (y ∷ l) x zero = ground arith
  get_elem?-snoc (y ∷ l) x (suc k) = let n = get_elem?-snoc l x k in ground (arith, n)

  -- the state after an object has been put behind the last one
  pub stored-IsQueue :
      (x : T) (q : SpscQueue T) (l : List T)
      → IsQueue q l
      → length l + 1 < q.max_size
      → IsQueue
          (record (set_slot q.write_index (some x) q) {
            write_index = slot q.max_size q.write_index 1;
          })
          (l ++ x ∷ [])
  unfolding set_slot
  stored-IsQueue x q l w room = record {
    sized = w.sized;
    room = let n = length-snoc l x in omega (arith, n, room);
    reads = w.reads;
    writes =
        ap (λ i. slot q.max_size i 1) w.writes
        ∙ (slot_suc q.max_size q.read_index (length l) w.reads room
            ∙ ap (slot q.max_size q.read_index) (sym (length-snoc l x)));
    holds = λ k h.
        rw
          (
            w.writes,
            slot_eqb q.max_size q.read_index k (length l) w.reads h w.room,
            get_elem?-snoc l x k,
            w.holds k h,
          )
          refl;
  }

  -- Push on a ring that holds the queue `l` returns. The result is false exactly when all slots
  -- but one are taken, and the ring is then the same as before; when it is true, the ring holds
  -- `l` with the object behind it.
  pub push-IsQueue :
      (x : T) (q : SpscQueue T) (l : List T)
      → IsQueue q l
      → Returns
          (λ (t, stored).
            (stored ≡ ltb (length l + 1) q.max_size)
            × (stored ≡ false → t ≡ q)
            × (stored ≡ true → IsQueue t (l ++ x ∷ [])))
          (push x q)
  unfolding push
  push-IsQueue x q l w =
      let next : next_index q.max_size q.write_index ≡ ok (slot q.max_size q.write_index 1) =
        next_index_lem q.max_size q.write_index w.sized.1
          (rw w.writes (slot_lt q.max_size q.read_index (length l) w.reads w.room)) in
      let full : (slot q.max_size q.write_index 1 == q.read_index) ≡ (length l + 1 == q.max_size) =
        rw w.writes (slot_full q.max_size q.read_index (length l) w.reads w.room w.sized.0) in
      rw (next, full)
        (elim (Bool-cases (length l + 1 == q.max_size)) [
          | inl e ↦ rw e (returns (ground arith, λ _. refl, λ h. absurd (ground arith)))
          | inr e ↦
              let m = w.room in
              let room : length l + 1 < q.max_size = ground arith in
              rw e (
                returns
                  (ground arith, λ h. absurd (ground arith), λ h. stored-IsQueue x q l w room))
        ])

  pub get_elem?-none : (l : List T) (k : ℕ) → length l ≤ k → get_elem? l k ≡ none
  get_elem?-none [] k h = refl
  get_elem?-none (x ∷ l) zero h = absurd (ground arith)
  get_elem?-none (x ∷ l) (suc k) h = get_elem?-none l k (ground arith)

  -- the state after the first object has been taken out
  pub taken-IsQueue :
      (x : T) (q : SpscQueue T) (l : List T)
      → IsQueue q (x ∷ l)
      → IsQueue
          (record (set_slot q.read_index none q) { read_index = slot q.max_size q.read_index 1 })
          l
  unfolding set_slot
  taken-IsQueue x q l w =
      let room = w.room in
      let one = w.sized.0 in
      record {
        sized = w.sized;
        room = omega arith;
        reads = slot_lt q.max_size q.read_index 1 w.reads w.sized.0;
        writes = w.writes ∙ sym (slot_shift q.max_size q.read_index (length l) w.reads room);
        holds = λ k h. elim (Bool-cases (suc k == q.max_size)) [
          | inl e ↦
              let last : suc k ≡ q.max_size = ground arith in
              let hit : (q.read_index == q.read_index) ≡ true = ground arith in
              rw (slot_round q.max_size q.read_index k w.reads w.sized.0 last, hit)
                (sym (get_elem?-none l k (ground arith)))
          | inr e ↦
              let inner : suc k < q.max_size = ground arith in
              rw
                (
                  slot_shift q.max_size q.read_index k w.reads inner,
                  slot_later q.max_size q.read_index k w.reads inner,
                )
                (w.holds (suc k) inner)
        ];
      }

  pub first_object :
      (x : T) (q : SpscQueue T) (l : List T) → IsQueue q (x ∷ l) → object q q.read_index ≡ ok x
  unfolding object
  first_object x q l w =
      let held : q.slots q.read_index ≡ some x =
        ap q.slots (sym (slot_zero q.max_size q.read_index w.reads))
        ∙ w.holds 0 (let one = w.sized.0 in omega arith) in
      rw (object, held) refl

  abbrev pub Popped : (T → T) → List T → SpscQueue T → SpscQueue T × Option T → Type ℓ
  Popped deref [] q (t, out) = (t ≡ q) × (out ≡ none)
  Popped deref (x ∷ l) q (t, out) = (out ≡ some (deref x)) × IsQueue t l

  -- Pop on a ring that holds a queue returns, for an object type with any `operator*`. For the empty
  -- queue it finds nothing and changes nothing; else it stores what `operator*` gives for the first
  -- object, and the ring holds the others.
  pub pop-IsQueue :
      (deref : T → T) (q : SpscQueue T) (l : List T)
      → IsQueue q l
      → Returns (Popped deref l q) (pop deref q)
  unfolding pop
  pop-IsQueue deref q [] w =
      let empty : (q.write_index == q.read_index) ≡ true =
        let e = w.writes ∙ slot_zero q.max_size q.read_index w.reads in ground arith in
      rw empty (returns (refl, refl))
  pop-IsQueue deref q (x ∷ l) w =
      let some_object : (q.write_index == q.read_index) ≡ false =
        rw w.writes (slot_later q.max_size q.read_index (length l) w.reads w.room) in
      rw
        (
          some_object,
          first_object x q l w,
          next_index_lem q.max_size q.read_index w.sized.1 w.reads,
        )
        (returns (refl, taken-IsQueue x q l w))
