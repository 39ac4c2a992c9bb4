-- ===== src/Kernel/Process/Exit/Leaves.antt =====
-- What `thread_delete` does to the list of the threads, and where `process_delete` stops.
use grapes.Prelude.{
  ℕ, zero, suc, ◌+◌, ◌≡◌, ◌≢◌, refl, ◌∙◌, ◌<◌, ◌≤◌, inl, inr, Bool, true, false, List, [], ◌∷◌,
  ◌==◌, if◌then◌else◌, length, arith, Bool-cases,
}
use mathlib.Core.Path.{subst}
use grapes.Prelude.Pointers.{Ptr, null, update, has, Chain, Distinct, Chain-update, remove}
use grapes.Prelude.Runs.{Ran, done, failed, done-same}
use grapes.Word.{u32, sub32}
use grapes.Kernel.Segments.{Segments, seg_unmap}
use grapes.Kernel.Process.{Machine}
use grapes.Kernel.Process.Counted.{AllLive, Counted}
use grapes.Kernel.Process.Exit.{
  leave_loop, leave_threads, unmap_stack, thread_delete, delete_threads, process_delete,
}

leave_loop_lem :
    (fuel : ℕ) (t x : Ptr) (xs : List Ptr) (alive : Ptr → Bool) (links : Ptr → Ptr)
    → Chain links (links x) xs
    → x ≢ null
    → Distinct (x ∷ xs)
    → AllLive alive (x ∷ xs)
    → has t xs ≡ true
    → length xs ≤ fuel
    → (links' : Ptr → Ptr) × (leave_loop fuel t x alive links ≡ done tt links')
      × Chain links' (links' x) (remove t xs)
      × ((q : Ptr) → has q (x ∷ xs) ≡ false → links' q ≡ links q)
unfolding leave_loop
leave_loop_lem fuel t x [] alive links chain ne apart ls there enough = absurd (cc)
leave_loop_lem zero t x (y ∷ ys) alive links chain ne apart ls there enough = absurd (omega arith)
leave_loop_lem (suc fuel) t x (y ∷ ys) alive links (is_y, ne', chain) ne (out, apart) (l, ls) there
      enough =
    let not_null : (x == null) ≡ false = ground (arith, ne) in
    elim (Bool-cases (y == t)) [
      | inl here ↦
          let is_t : y ≡ t = ground (arith, here) in
          (
            update links x (links t),
            rw (not_null, l, is_y, here) refl,
            rw here (
                subst (λ z. Chain (update links x (links t)) z ys) (ground (arith, is_t))
                  (Chain-update links (links y) x (links t) ys (ground arith) chain)),
            λ q o. ground arith,
          )
      | inr later ↦
          let (links', run, chain', same) =
            leave_loop_lem fuel t y ys alive links chain ne' apart ls (ground (arith, later, there))
              (omega arith) in
          (
            links',
            rw (not_null, l, is_y, later) run,
            rw later (same x out ∙ is_y, ne', chain'),
            λ q o. same q (ground arith),
          )
    ]

leave_threads_lem :
    (fuel : ℕ) (t p : Ptr) (ts : List Ptr) (s : Machine)
    → s.process t ≡ p
    → Chain s.next (s.first_thread p) ts
    → Distinct ts
    → AllLive s.thread_live ts
    → has t ts ≡ true
    → length ts ≤ fuel
    → (links heads : Ptr → Ptr) × (leave_threads fuel t s
        ≡ done tt (record s { next = links; first_thread = heads }))
      × Chain links (heads p) (remove t ts)
unfolding leave_threads
leave_threads_lem fuel t p [] s is_p chain apart ls there enough = absurd (cc)
leave_threads_lem fuel t p (x ∷ xs) s is_p (is_x, ne, chain) apart ls there enough =
    elim (Bool-cases (x == t)) [
      | inl here ↦
          let is_t : x ≡ t = ground (arith, here) in
          (
            s.next,
            update s.first_thread p (s.next t),
            rw (is_p, is_x, here) refl,
            rw here (subst (λ z. Chain s.next z xs) (ground (arith, is_t)) chain),
          )
      | inr later ↦
          let (links, run, chain', same) =
            leave_loop_lem fuel t x xs s.thread_live s.next chain ne apart ls
              (ground (arith, later, there)) (omega arith) in
          (links, s.first_thread, rw (is_p, is_x, later, run) refl, rw later (is_x, ne, chain'))
    ]

AllLive-remove :
    (alive : Ptr → Bool) (t : Ptr) (ts : List Ptr)
    → Distinct ts
    → AllLive alive ts
    → AllLive (update alive t false) (remove t ts)
AllLive-remove alive t [] d l = tt
AllLive-remove alive t (x ∷ xs) (out, d) (l, ls) = elim (Bool-cases (x == t)) [
  | inl here ↦ rw here (kept xs (subst (λ z. has z xs ≡ false) (ground (arith, here)) out) ls)
  | inr later ↦ rw later (ground (arith, l, later), AllLive-remove alive t xs d ls)
]
  where
    kept : (ys : List Ptr) → has t ys ≡ false → AllLive alive ys → AllLive (update alive t false) ys
    kept [] o h = tt
    kept (y ∷ ys) o (h, hs) = (ground arith, kept ys (ground arith) hs)

has-remove : (q t : Ptr) (ts : List Ptr) → has q ts ≡ false → has q (remove t ts) ≡ false
has-remove q t [] h = refl
has-remove q t (x ∷ xs) h = ground (arith, has-remove q t xs)

Distinct-remove : (t : Ptr) (ts : List Ptr) → Distinct ts → Distinct (remove t ts)
Distinct-remove t [] d = tt
Distinct-remove t (x ∷ xs) (out, d) = ground (arith, has-remove x t xs out, Distinct-remove t xs d)

length-remove : (t : Ptr) (ts : List Ptr) → has t ts ≡ true → length (remove t ts) + 1 ≡ length ts
length-remove t [] h = absurd (cc)
length-remove t (x ∷ xs) h = ground (arith, length-remove t xs)

-- What happens to the user stack when the thread goes.
abbrev stack_run : (fuel : ℕ) → (map : Ptr) → Segments → Ran Segments (Unit {0})
stack_run fuel map g = if map == null then done tt g else seg_unmap fuel map g

unmap_stack_lem :
    (fuel : ℕ) (map : Ptr) (s : Machine) (g : Segments)
    → stack_run fuel map s.segments ≡ done tt g
    → unmap_stack fuel map s ≡ done tt (record s { segments = g })
unfolding unmap_stack
unmap_stack_lem fuel map s g run = elim (Bool-cases (map == null)) [
  | inl no_stack ↦
      let same : s.segments ≡ g =
        (done-same (
          subst (λ b. (if b then done tt s.segments else seg_unmap fuel map s.segments) ≡ done tt g)
            no_stack run)).1 in
      rw (no_stack, ← same) refl
  | inr stack ↦
      let run' : seg_unmap fuel map s.segments ≡ done tt g =
        subst (λ b. (if b then done tt s.segments else seg_unmap fuel map s.segments) ≡ done tt g)
          stack run in
      rw (stack, run') refl
]

-- `thread_delete` of a thread of a process, if its user stack can be unmapped: it leaves the list,
-- which the process counts, and is dead; it is no longer the current thread.
pub thread_delete-Counted :
    (fuel : ℕ) (t p : Ptr) (ts : List Ptr) (s : Machine) (g : Segments)
    → Counted p ts s
    → s.process t ≡ p
    → has t ts ≡ true
    → s.thread_live t ≡ true
    → length ts ≤ fuel
    → length ts < u32
    → stack_run fuel (s.user_stack t) s.segments ≡ done tt g
    → (u : Machine) × (thread_delete fuel t s ≡ done tt u)
      × Counted p (remove t ts) u
      × (u.thread_live t ≡ false)
      × (u.segments ≡ g)
      × (u.current_thread ≡ (if s.current_thread == t then null else s.current_thread))
unfolding thread_delete
thread_delete-Counted fuel t p ts s g c is_p there alive enough few unmapped =
    let (links, heads, left, chain) =
      leave_threads_lem fuel t p ts s is_p c.chain c.apart c.alive there enough in
    let s1 : Machine = record s {
      next = links;
      first_thread = heads;
      current_thread = if s.current_thread == t then null else s.current_thread;
      thread_count = update s.thread_count p (sub32 (s.thread_count p) 1);
    } in
    (
      record s1 { segments = g; thread_live = update s.thread_live t false },
      rw (alive, is_p, c.lives, left, unmap_stack_lem fuel (s.user_stack t) s1 g unmapped) refl,
      record {
        lives = c.lives;
        chain = chain;
        apart = Distinct-remove t ts c.apart;
        alive = AllLive-remove s.thread_live t ts c.apart c.alive;
        count = ground (arith, c.count, length-remove t ts there);
      },
      ground arith,
      refl,
      refl,
    )

delete_threads-failed :
    (n fuel : ℕ) (t p : Ptr) (ts : List Ptr) (s : Machine) (g : Segments)
    → Counted p (t ∷ ts) s
    → s.process t ≡ p
    → length ts < fuel
    → fuel < u32
    → stack_run fuel (s.user_stack t) s.segments ≡ done tt g
    → delete_threads (suc n) fuel t s ≡ failed
unfolding delete_threads
delete_threads-failed n fuel t p ts s g c is_p enough few unmapped =
    let some_thread : (t == null) ≡ false = ground (arith, c.chain) in
    let (u, run, _, dead, _, _) =
      thread_delete-Counted fuel t p (t ∷ ts) s g c is_p (ground arith) (c.alive.0) (omega arith)
        (omega arith) unmapped in
    rw (some_thread, run, dead) refl

-- `process_delete` of a process that has a thread, whose user stack can be unmapped, reads the link
-- of that thread after `thread_delete` has freed it.
pub process_delete-failed :
    (fuel : ℕ) (kernel_pagedir tables_physical t p : Ptr) (ts : List Ptr) (s : Machine)
    (g : Segments)
    → Counted p (t ∷ ts) s
    → s.process t ≡ p
    → length ts < fuel
    → fuel < u32
    → stack_run fuel (s.user_stack t) s.segments ≡ done tt g
    → process_delete fuel kernel_pagedir tables_physical p s ≡ failed
unfolding process_delete
process_delete-failed zero kernel_pagedir tables_physical t p ts s g c is_p enough few unmapped =
    absurd (omega arith)
process_delete-failed (suc n) kernel_pagedir tables_physical t p ts s g c is_p enough few unmapped =
    let stops = delete_threads-failed n (suc n) t p ts s g c is_p enough few unmapped in
    rw (c.lives, c.chain.0, stops) refl
