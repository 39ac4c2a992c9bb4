-- ===== src/Kernel/Sched/Refine.antt =====
-- The linked queues of sched.c behave as the queues of `Queues`.
use grapes.Prelude.{
  ℕ, zero, suc, ◌+◌, ◌≡◌, refl, ◌≢◌, inl, inr, true, false, Option, some, List, [], ◌∷◌, ◌++◌, ◌==◌,
  if◌then◌else◌, arith, Bool-cases, sym, ap,
}
use mathlib.Core.Path.{subst}
use grapes.Prelude.Pointers.{
  Ptr, null, update, Chain, last, has, has-append, Chain-update, last-has, last-snoc, Chain-snoc,
  Distinct-snoc,
}
use grapes.Kernel.Sched.{
  Sched, enqueue_in, dequeue_from, enqueue, dequeue_loop, dequeue, priorities,
}
use grapes.Kernel.Sched.Queues
use grapes.Kernel.Sched.Queues.{Queues, Holds, Represents, put}

-- A thread that is in no queue.
abbrev Waits : Ptr → Queues → Type 0
Waits t qs = (i : ℕ) → has t (qs i) ≡ false

enqueue_in_full :
    (s : Sched) (t : Ptr) (i : ℕ)
    → (s.queue i == null) ≡ false
    → enqueue_in t i s ≡ record s {
      queue_next = update (update s.queue_next t null) (s.last i) t;
      last = update s.last i t;
    }
unfolding enqueue_in
enqueue_in_full s t i e = rw e

enqueue_in_empty :
    (s : Sched) (t : Ptr) (i : ℕ)
    → (s.queue i == null) ≡ true
    → enqueue_in t i s ≡ record s {
      queue_next = update s.queue_next t null;
      queue = update s.queue i t;
      last = update s.last i t;
    }
unfolding enqueue_in
enqueue_in_empty s t i e = rw e

-- The queue that a thread is put into.
enqueue_in-Holds :
    (s : Sched) (t : Ptr) (i : ℕ) (xs : List Ptr)
    → Holds s i xs
    → t ≢ null
    → has t xs ≡ false
    → Holds (enqueue_in t i s) i (xs ++ t ∷ [])
enqueue_in-Holds s t i [] h ne out =
    let empty : (s.queue i == null) ≡ true = ground (arith, h.chain) in
    rw (enqueue_in_empty s t i empty)
      (record { chain = ground arith; tail = ground arith; distinct = (refl, tt) })
enqueue_in-Holds s t i (x ∷ xs) h ne out =
    let linked = Chain-snoc s.queue_next (s.queue i) t x xs ne out h.distinct h.chain in
    let full : (s.queue i == null) ≡ false = ground (arith, h.chain) in
    rw (enqueue_in_full s t i full) (record {
      chain =
          subst
            (λ l. Chain (update (update s.queue_next t null) l t) (s.queue i) ((x ∷ xs) ++ t ∷ []))
            (sym h.tail) linked;
      tail = ground (arith, last-snoc (x ∷ xs) t);
      distinct = Distinct-snoc t (x ∷ xs) out h.distinct;
    })

-- The other queues keep theirs.
enqueue_in-other :
    (s : Sched) (t : Ptr) (i j : ℕ) (xs ys : List Ptr)
    → Holds s i xs
    → Holds s j ys
    → i ≢ j
    → has t ys ≡ false
    → ((u : Ptr) → has u xs ≡ true → has u ys ≡ false)
    → Holds (enqueue_in t i s) j ys
enqueue_in-other s t i j [] ys h k ne out apart =
    let empty : (s.queue i == null) ≡ true = ground (arith, h.chain) in
    rw (enqueue_in_empty s t i empty) (record {
      chain = ground (arith, Chain-update s.queue_next (s.queue j) t null ys out k.chain);
      tail = ground (arith, k.tail);
      distinct = k.distinct;
    })
enqueue_in-other s t i j (x ∷ xs) ys h k ne out apart =
    let full : (s.queue i == null) ≡ false = ground (arith, h.chain) in
    let kept = Chain-update s.queue_next (s.queue j) t null ys out k.chain in
    let far = apart (last (x ∷ xs)) (last-has x xs) in
    rw (enqueue_in_full s t i full) (record {
      chain =
          subst (λ l. Chain (update (update s.queue_next t null) l t) (s.queue j) ys) (sym h.tail)
            (Chain-update (update s.queue_next t null) (s.queue j) (last (x ∷ xs)) t ys far kept);
      tail = ground (arith, k.tail);
      distinct = k.distinct;
    })

enqueue_in-apart :
    (t : Ptr) (i : ℕ) (qs : Queues) (j k : ℕ) (u : Ptr)
    → ((j k : ℕ) (u : Ptr) → has u (qs j) ≡ true → j ≢ k → has u (qs k) ≡ false)
    → Waits t qs
    → has u (put qs i (qs i ++ t ∷ []) j) ≡ true
    → j ≢ k
    → has u (put qs i (qs i ++ t ∷ []) k) ≡ false
enqueue_in-apart t i qs j k u apart out here ne = ground (
  arith,
  has-append u (qs i) (t ∷ []),
  apart j k u,
  apart i k u,
  apart j i u,
  out j,
  out k,
  out i,
)

enqueue_in-Represents :
    (s : Sched) (t : Ptr) (i : ℕ) (qs : Queues)
    → Represents s qs
    → t ≢ null
    → Waits t qs
    → Represents (enqueue_in t i s) (put qs i (qs i ++ t ∷ []))
enqueue_in-Represents s t i qs r ne out = record {
  holds = λ j. elim (Bool-cases (i == j)) [
    | inl same ↦
        let e : i ≡ j = ground arith in
        rw same (rw (← e) (enqueue_in-Holds s t i (qs i) (r.holds i) ne (out i)))
    | inr other ↦ rw other (
        enqueue_in-other s t i j (qs i) (qs j) (r.holds i) (r.holds j) (ground arith) (out j)
          (λ u here. r.apart i j u here (ground arith)))
  ];
  apart = λ j k u. enqueue_in-apart t i qs j k u r.apart out;
}

-- `sched_enqueue` of a thread that is in no queue puts it behind the others of its priority, and
-- does nothing for the idle thread.
pub enqueue_refines :
    (priority : Ptr → ℕ) (idle t : Ptr) (s : Sched) (qs : Queues)
    → Represents s qs
    → t ≢ null
    → Waits t qs
    → Represents (enqueue priority idle t s) (Queues.enqueue priority idle t qs)
unfolding enqueue Queues.enqueue
enqueue_refines priority idle t s qs r ne out = elim (Bool-cases (t == idle)) [
  | inl same ↦ rw same r
  | inr other ↦ rw other (enqueue_in-Represents s t (priority t) qs r ne out)
]

-- `sched_dequeueFrom` on an empty queue.
dequeue_from-nil : (s : Sched) (i : ℕ) → Holds s i [] → dequeue_from i s ≡ some (null, s)
unfolding dequeue_from
dequeue_from-nil s i h = ground (arith, h.chain)

abbrev popped : ℕ → Sched → Sched
popped i s =
    let rest = s.queue_next (s.queue i) in
    record s {
      queue = update s.queue i rest;
      last = if rest == null then update s.last i null else s.last;
    }

-- The ASSERT holds.
dequeue_from-cons :
    (s : Sched) (i : ℕ) (x : Ptr) (xs : List Ptr)
    → Holds s i (x ∷ xs)
    → dequeue_from i s ≡ some (x, popped i s)
unfolding dequeue_from
dequeue_from-cons s i x [] h = ground (arith, h.chain, h.tail)
dequeue_from-cons s i x (y ∷ xs) h = ground (arith, h.chain, h.tail, h.distinct, last-has y xs)

popped-Holds :
    (s : Sched) (i : ℕ) (x : Ptr) (xs : List Ptr) → Holds s i (x ∷ xs) → Holds (popped i s) i xs
popped-Holds s i x [] h = record {
  chain = ground (arith, h.chain);
  tail = ground (arith, h.chain);
  distinct = tt;
}
popped-Holds s i x (y ∷ xs) h = record {
  chain = let e : s.queue i ≡ x = h.chain.0 in ground (arith, h.chain);
  tail = ground (arith, h.chain, h.tail);
  distinct = h.distinct.1;
}

popped-other :
    (s : Sched) (i j : ℕ) (ys : List Ptr) → i ≢ j → Holds s j ys → Holds (popped i s) j ys
popped-other s i j ys ne h = record {
  chain = ground (arith, h.chain);
  tail = ground (arith, h.tail);
  distinct = h.distinct;
}

popped-Represents :
    (s : Sched) (i : ℕ) (qs : Queues) (x : Ptr) (xs : List Ptr)
    → Represents s qs
    → qs i ≡ x ∷ xs
    → Represents (popped i s) (put qs i xs)
popped-Represents s i qs x xs r e =
    let whole : Holds s i (x ∷ xs) = subst (λ l. Holds s i l) e (r.holds i) in
    record {
      holds = λ j. elim (Bool-cases (i == j)) [
        | inl same ↦
            let ij : i ≡ j = ground arith in rw same (rw (← ij) (popped-Holds s i x xs whole))
        | inr other ↦ rw other (popped-other s i j (qs j) (ground arith) (r.holds j))
      ];
      apart = λ j k u here ne.
          ground (arith, r.apart j k u, r.apart i k u, r.apart j i u, e, ap (has u) e);
    }

-- The run ends with no failed ASSERT, and its result and state stand for those of `Queues`.
abbrev Refines : Option (Ptr × Sched) → Ptr × Queues → Type 0
Refines r (t, qs) = (s : Sched) × (r ≡ some (t, s)) × Represents s qs

module _ (priority : Ptr → ℕ) (idle : Ptr) where
  dequeue_loop_nil :
      (n i : ℕ) (s : Sched)
      → Holds s i []
      → dequeue_loop priority idle (suc n) i s ≡ dequeue_loop priority idle n (i + 1) s
  unfolding dequeue_loop
  dequeue_loop_nil n i s h = rw (dequeue_from-nil s i h, dequeue_loop)

  dequeue_loop_cons :
      (n i : ℕ) (s : Sched) (x : Ptr) (xs : List Ptr)
      → Holds s i (x ∷ xs)
      → dequeue_loop priority idle (suc n) i s ≡ some (x, popped i s)
  unfolding dequeue_loop
  dequeue_loop_cons n i s x xs h =
      let found : (x == null) ≡ false = ground (arith, h.chain) in
      rw (dequeue_from-cons s i x xs h, dequeue_loop) (rw (found, dequeue_loop))

  spec_nil :
      (n i : ℕ) (qs : Queues)
      → qs i ≡ []
      → Queues.dequeue_loop idle (suc n) i qs ≡ Queues.dequeue_loop idle n (i + 1) qs
  unfolding Queues.dequeue_loop
  spec_nil n i qs e = rw (e, Queues.dequeue_loop)

  spec_cons :
      (n i : ℕ) (qs : Queues) (x : Ptr) (xs : List Ptr)
      → qs i ≡ x ∷ xs
      → Queues.dequeue_loop idle (suc n) i qs ≡ (x, put qs i xs)
  unfolding Queues.dequeue_loop
  spec_cons n i qs x xs e = rw (e, Queues.dequeue_loop)

  dequeue_round :
      (n i : ℕ) (s : Sched) (qs : Queues) (l : List Ptr)
      → Represents s qs
      → qs i ≡ l
      → ((i : ℕ) → Refines (dequeue_loop priority idle n i s) (Queues.dequeue_loop idle n i qs))
      → Refines (dequeue_loop priority idle (suc n) i s) (Queues.dequeue_loop idle (suc n) i qs)
  dequeue_round n i s qs [] r e rest =
      rw (dequeue_loop_nil n i s (subst (λ l. Holds s i l) e (r.holds i)), spec_nil n i qs e)
        (rest (i + 1))
  dequeue_round n i s qs (x ∷ xs) r e rest =
      rw
        (
          dequeue_loop_cons n i s x xs (subst (λ l. Holds s i l) e (r.holds i)),
          spec_cons n i qs x xs e,
        )
        (popped i s, refl, popped-Represents s i qs x xs r e)

  dequeue_loop-Refines :
      (n i : ℕ) (s : Sched) (qs : Queues)
      → Represents s qs
      → Refines (dequeue_loop priority idle n i s) (Queues.dequeue_loop idle n i qs)
  unfolding dequeue_loop Queues.dequeue_loop
  dequeue_loop-Refines zero i s qs r = (s, refl, r)
  dequeue_loop-Refines (suc n) i s qs r =
      dequeue_round n i s qs (qs i) r refl (λ k. dequeue_loop-Refines n k s qs r)

  -- `sched_dequeue` never meets its failed ASSERT. It takes the first thread of the first queue
  -- that is not empty, or returns the idle thread if all four are, and keeps the other threads in
  -- their queues and in order.
  pub dequeue_refines :
      (s : Sched) (qs : Queues)
      → Represents s qs
      → (s' : Sched) × (dequeue priority idle s ≡ some ((Queues.dequeue idle qs).0, s'))
        × Represents s' (Queues.dequeue idle qs).1
  unfolding dequeue Queues.dequeue
  dequeue_refines s qs r = dequeue_loop-Refines priorities 0 s qs r
