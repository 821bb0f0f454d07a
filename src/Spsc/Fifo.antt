-- ===== src/Spsc/Fifo.antt =====
-- What the steps of the two threads keep, and that the steps of the writing thread keep it.
use mathlib.Core.List.{append_assoc}
use mzx.Base.{
  ℕ, ◌+◌, ◌<◌, ◌≡◌, refl, sym, ap, ◌∙◌, Bool, true, false, ◌&&◌, Option, none, some, List, [], ◌∷◌,
  ◌++◌, ◌==◌, if◌then◌else◌, arith, Bool-cases, inl, inr,
}
use mzx.Array.{length, get_elem?}
use mzx.Run.{ok, Returns, returns}
use mzx.Spsc.Ops.{SpscQueue, size_mod, set_slot, next_index, new}
use mzx.Spsc.Ring.{slot, next_index_lem, slot_lt, slot_eqb, slot_suc, slot_full}
use mzx.Spsc.Laws.{length-snoc, get_elem?-snoc, get_elem?-none}
use mzx.Spsc.Threads.{
  Producer, outside, not_full, built, Consumer, not_empty, copied, destroyed, Threads, push_step,
}

module _ {ℓ} {T : Type ℓ} where
  -- the object in the slot at the write position
  abbrev pub made : Producer T → Option T
  made outside = none
  made (not_full x next) = none
  made (built x next) = some x

  -- the first object has been destroyed, and its slot is not free yet
  abbrev pub gone : Consumer T → Bool
  gone outside = false
  gone not_empty = false
  gone (copied x) = false
  gone (destroyed x) = true

  -- what the slot `k` places after the read position holds
  abbrev pub cell : Bool → Option T → List T → ℕ → Option T
  cell empty new l k =
      if empty && (k == 0) then none else (if k == length l then new else get_elem? l k)

  abbrev pub PushesTo : ℕ → ℕ → List T → Producer T → Type 0
  PushesTo n write l outside = Unit
  PushesTo n write l (not_full x next) = (length l + 1 < n) × (next ≡ slot n write 1)
  PushesTo n write l (built x next) = (length l + 1 < n) × (next ≡ slot n write 1)

  abbrev pub state : SpscQueue T → Producer T → Consumer T → List T → List T → Threads T
  state q p c pushed popped = record {
    queue = q;
    producer = p;
    consumer = c;
    pushed = pushed;
    popped = popped;
  }

  -- what Pop stores for each of some objects
  abbrev pub stored : (T → T) → List T → List T
  stored deref [] = []
  stored deref (x ∷ l) = deref x ∷ stored deref l

  pub stored-snoc :
      (deref : T → T) (l : List T) (x : T)
      → stored deref (l ++ x ∷ []) ≡ stored deref l ++ deref x ∷ []
  stored-snoc deref [] x = refl
  stored-snoc deref (y ∷ l) x = ap (λ m. deref y ∷ m) (stored-snoc deref l x)

module _ {ℓ} {T : Type ℓ} (deref : T → T) where
  -- where the reading thread is within Pop, the queue has a first object, and from `copied` on that
  -- thread has stored what `operator*` gives for it
  abbrev Pops : List T → Consumer T → Type ℓ
  Pops l outside = Unit
  Pops l not_empty = (x : T) × (rest : List T) × (l ≡ x ∷ rest)
  Pops l (copied y) = (x : T) × (rest : List T) × (l ≡ x ∷ rest) × (y ≡ deref x)
  Pops l (destroyed y) = (x : T) × (rest : List T) × (l ≡ x ∷ rest) × (y ≡ deref x)

  -- The queue `l` is in the ring: it has a place fewer than there are slots, its object `k` is in the
  -- slot `k` places after the read position, but for the first where Pop has destroyed it, the slot
  -- after the last has the object that Push has built there, if any, and the others have none. The
  -- objects that were pushed are some that Pop has taken, `seen`, and then `l`, and what Pop has
  -- stored is what `operator*` gives for each of `seen`.
  pub record IsFifo (q : SpscQueue T) (p : Producer T) (c : Consumer T) (pushed popped l : List T)
      : Type ℓ where
    pub sized : (1 < q.max_size) × (q.max_size < size_mod)
    pub room : length l < q.max_size
    pub reads : q.read_index < q.max_size
    pub writes : q.write_index ≡ slot q.max_size q.read_index (length l)
    pub holds :
        (k : ℕ)
        → k < q.max_size
        → q.slots (slot q.max_size q.read_index k) ≡ cell (gone c) (made p) l k
    pub pushes : PushesTo q.max_size q.write_index l p
    pub pops : Pops l c
    pub seen : List T
    pub history : pushed ≡ seen ++ l
    pub results : popped ≡ stored deref seen

  -- the same of the whole state, for some queue
  abbrev pub Fifo : Threads T → Type ℓ
  Fifo s = (l : List T) × IsFifo s.queue s.producer s.consumer s.pushed s.popped l

  -- an object behind the last one does not touch the first
  cell-build :
      (c : Consumer T) (x : T) (l : List T) (k : ℕ)
      → Pops l c
      → (if k == length l then some x else cell (gone c) none l k) ≡ cell (gone c) (some x) l k
  cell-build outside x l k h = ground arith
  cell-build not_empty x l k h = ground arith
  cell-build (copied y) x l k h = ground arith
  cell-build (destroyed y) x l k (z, rest, e, _) = rw e (ground arith)

  cell-store :
      (c : Consumer T) (x : T) (l : List T) (k : ℕ)
      → cell (gone c) (some x) l k ≡ cell (gone c) none (l ++ x ∷ []) k
  cell-store c x l k =
      rw (get_elem?-snoc l x k, length-snoc l x) (let z = get_elem?-none l k in ground (arith, z))

  Pops-store : (c : Consumer T) (x : T) (l : List T) → Pops l c → Pops (l ++ x ∷ []) c
  Pops-store outside x l h = tt
  Pops-store not_empty x l (y, rest, e) = (y, rest ++ x ∷ [], ap (λ m. m ++ x ∷ []) e)
  Pops-store (copied y) x l (z, rest, e, o) = (z, rest ++ x ∷ [], ap (λ m. m ++ x ∷ []) e, o)
  Pops-store (destroyed y) x l (z, rest, e, o) = (z, rest ++ x ∷ [], ap (λ m. m ++ x ∷ []) e, o)

  pub push_step-Fifo :
      (x : T) (q : SpscQueue T) (p : Producer T) (c : Consumer T) (pushed popped l : List T)
      → IsFifo q p c pushed popped l
      → Returns Fifo (push_step x (state q p c pushed popped))
  unfolding push_step set_slot
  push_step-Fifo x q outside c pushed popped l w =
      let next : next_index q.max_size q.write_index ≡ ok (slot q.max_size q.write_index 1) =
        next_index_lem q.max_size q.write_index w.sized.1
          (rw w.writes (slot_lt q.max_size q.read_index (length l) w.reads w.room)) in
      let full : (slot q.max_size q.write_index 1 == q.read_index) ≡ (length l + 1 == q.max_size) =
        rw w.writes (slot_full q.max_size q.read_index (length l) w.reads w.room w.sized.0) in
      rw (next, full)
        (elim (Bool-cases (length l + 1 == q.max_size)) [
          | inl e ↦ rw e (returns (l, w))
          | inr e ↦
              let m = w.room in
              rw e (
                returns (
                  l,
                  record {
                    sized = w.sized;
                    room = w.room;
                    reads = w.reads;
                    writes = w.writes;
                    holds = w.holds;
                    pushes = (ground arith, refl);
                    pops = w.pops;
                    seen = w.seen;
                    history = w.history;
                    results = w.results;
                  },
                ))
        ])
  push_step-Fifo x q (not_full y next) c pushed popped l w = returns (
    l,
    record {
      sized = w.sized;
      room = w.room;
      reads = w.reads;
      writes = w.writes;
      holds = λ k h.
          rw (w.writes, slot_eqb q.max_size q.read_index k (length l) w.reads h w.room, w.holds k h)
            (cell-build c y l k w.pops);
      pushes = w.pushes;
      pops = w.pops;
      seen = w.seen;
      history = w.history;
      results = w.results;
    },
  )
  push_step-Fifo x q (built y next) c pushed popped l w = returns (
    l ++ y ∷ [],
    record {
      sized = w.sized;
      room = let n = length-snoc l y in let r = w.pushes.0 in omega (arith, n, r);
      reads = w.reads;
      writes =
          w.pushes.1
          ∙ (ap (λ i. slot q.max_size i 1) w.writes
              ∙ (slot_suc q.max_size q.read_index (length l) w.reads w.pushes.0
                  ∙ ap (slot q.max_size q.read_index) (sym (length-snoc l y))));
      holds = λ k h. w.holds k h ∙ cell-store c y l k;
      pushes = tt;
      pops = Pops-store c y l w.pops;
      seen = w.seen;
      history = ap (λ m. m ++ y ∷ []) w.history ∙ append_assoc w.seen l (y ∷ []);
      results = w.results;
    },
  )
