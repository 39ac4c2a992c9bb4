-- ===== src/Kernel/Process/Counted.antt =====
-- The list of the threads of a process, as `thread_new` extends it.
use grapes.Prelude.{
  ℕ, zero, suc, ◌+◌, ◌≡◌, ◌≢◌, refl, sym, ap, ◌∙◌, ◌<◌, ◌≤◌, ◌⊎◌, inl, inr, Bool, true, false, List,
  [], ◌∷◌, ◌++◌, leb, ◌==◌, length, arith, Bool-cases,
}
use mathlib.Core.Path.{subst}
use grapes.Prelude.Pointers.{
  Ptr, null, update, has, last, Chain, Distinct, Chain-update, Chain-snoc, Distinct-snoc,
}
use grapes.Prelude.Runs.{done}
use grapes.Word.{u32, add32, sub32}
use grapes.Kernel.Thread.{running}
use grapes.Kernel.Segments.{Segments}
use grapes.Kernel.Segments.Created.{Created, seg_map-simpleseg_make}
use grapes.Kernel.Process.{
  Machine, append_loop, join_threads, make_stack, thread_new, user_stack_size,
}

-- All threads of a list are live.
abbrev pub AllLive : (Ptr → Bool) → List Ptr → Type 0
AllLive alive [] = Unit
AllLive alive (t ∷ ts) = (alive t ≡ true) × AllLive alive ts

-- The threads of the process `p` are `ts`, as its list and its counter have it.
pub record Counted (p : Ptr) (ts : List Ptr) (s : Machine) : Type 0 where
  pub lives : s.process_live p ≡ true
  pub chain : Chain s.next (s.first_thread p) ts
  pub apart : Distinct ts
  pub alive : AllLive s.thread_live ts
  pub count : s.thread_count p ≡ length ts

append_loop_lem :
    (fuel : ℕ) (t it : Ptr) (alive : Ptr → Bool) (links : Ptr → Ptr) (x : Ptr) (xs : List Ptr)
    → Chain links it (x ∷ xs)
    → AllLive alive (x ∷ xs)
    → length xs < fuel
    → append_loop fuel t it alive links ≡ done tt (update links (last (x ∷ xs)) t)
unfolding append_loop
append_loop_lem zero t it alive links x xs c l h = absurd (omega arith)
append_loop_lem (suc fuel) t it alive links x [] (is_x, ne, at_end) (l, _) h =
    rw (is_x, l, at_end) refl
append_loop_lem (suc fuel) t it alive links x (y ∷ ys) (is_x, ne, (is_y, ne', c)) (l, ls) h =
    let more : (y == null) ≡ false = ground (arith, ne') in
    rw (is_x, l, is_y, more)
      (append_loop_lem fuel t y alive links y ys (refl, ne', c) ls (omega arith))

AllLive-update :
    (alive : Ptr → Bool) (t : Ptr) (ts : List Ptr)
    → AllLive alive ts
    → AllLive (update alive t true) ts
AllLive-update alive t [] l = tt
AllLive-update alive t (x ∷ xs) (l, ls) = (ground arith, AllLive-update alive t xs ls)

AllLive-snoc :
    (alive : Ptr → Bool) (t : Ptr) (ts : List Ptr)
    → alive t ≡ true
    → AllLive alive ts
    → AllLive alive (ts ++ t ∷ [])
AllLive-snoc alive t [] h l = (h, tt)
AllLive-snoc alive t (x ∷ xs) h (l, ls) = (l, AllLive-snoc alive t xs h ls)

length-snoc : (t : Ptr) (ts : List Ptr) → length (ts ++ t ∷ []) ≡ length ts + 1
length-snoc t [] = refl
length-snoc t (x ∷ xs) = omega (arith, length-snoc t xs)

-- A new thread at the end of the list.
join_threads_lem :
    (fuel : ℕ) (t p : Ptr) (ts : List Ptr) (before : Ptr → Ptr) (s : Machine)
    → s.next ≡ update before t null
    → t ≢ null
    → has t ts ≡ false
    → Chain before (s.first_thread p) ts
    → Distinct ts
    → AllLive s.thread_live ts
    → length ts ≤ fuel
    → (links heads : Ptr → Ptr) × (join_threads fuel t p s
        ≡ done tt (record s { next = links; first_thread = heads }))
      × Chain links (heads p) (ts ++ t ∷ [])
unfolding join_threads
join_threads_lem fuel t p [] before s is_next ne out empty d ls enough =
    (s.next, update s.first_thread p t, rw empty refl, rw is_next (ground arith))
join_threads_lem fuel t p (x ∷ xs) before s is_next ne out c d ls enough =
    let links = update (update before t null) (last (x ∷ xs)) t in
    let some_first : (s.first_thread p == null) ≡ false = ground (arith, c) in
    let now : Chain s.next (s.first_thread p) (x ∷ xs) =
      subst (λ f. Chain f (s.first_thread p) (x ∷ xs)) (sym is_next)
        (Chain-update before (s.first_thread p) t null (x ∷ xs) out c) in
    let run : append_loop fuel t (s.first_thread p) s.thread_live s.next ≡ done tt links =
      append_loop_lem fuel t (s.first_thread p) s.thread_live s.next x xs now ls (omega arith)
      ∙ ap (λ f. done tt (update f (last (x ∷ xs)) t)) is_next in
    (
      links,
      s.first_thread,
      rw (some_first, run) refl,
      Chain-snoc before (s.first_thread p) t x xs ne out d c,
    )

-- The user stack of a new thread, and what that does not change.
make_stack_lem :
    (seg map garbage t p : Ptr) (s : Machine)
    → (g : Segments) × (bottoms stacks : Ptr → ℕ) × (make_stack seg map garbage t p s
        ≡ done tt (record s { segments = g; stacks_bottom = bottoms; user_stack = stacks }))
      × (((leb 2 (s.privilege p) ≡ true)
            × (stacks t ≡ map)
            × Created seg map
                (s.pagedir p)
                (sub32 (s.stacks_bottom p) user_stack_size)
                user_stack_size
                s.segments
                g)
          ⊎ ((leb 2 (s.privilege p) ≡ false) × (stacks t ≡ garbage) × (g ≡ s.segments)))
unfolding make_stack
make_stack_lem seg map garbage t p s =
    let bottom = sub32 (s.stacks_bottom p) user_stack_size in
    elim (Bool-cases (leb 2 (s.privilege p))) [
      | inl user ↦
          let (g, run, created) =
            seg_map-simpleseg_make seg map (s.pagedir p) bottom user_stack_size s.segments in
          (
            g,
            update s.stacks_bottom p bottom,
            update s.user_stack t map,
            rw (user, run) refl,
            inl (user, ground arith, created),
          )
      | inr kernel ↦ (
        s.segments,
        s.stacks_bottom,
        update s.user_stack t garbage,
        rw kernel refl,
        inr (kernel, ground arith, refl),
      )
    ]

-- `thread_new` puts the thread `t`, whose block is new, at the end of the list of a process that is
-- live and counts it. In a process of privilege `PL_SERVICE` or `PL_USER` its user stack is a new
-- simple segment of 0x8000 bytes below the lowest stack.
pub thread_new-Counted :
    (fuel : ℕ) (t seg map garbage p : Ptr) (ts : List Ptr) (s : Machine)
    → Counted p ts s
    → t ≢ null
    → has t ts ≡ false
    → length ts ≤ fuel
    → length ts + 1 < u32
    → (u : Machine) × (thread_new fuel t seg map garbage p s ≡ done t u)
      × Counted p (ts ++ t ∷ []) u
      × (u.process t ≡ p)
      × (u.threads.state t ≡ running)
      × (u.threads.enqueued ≡ t ∷ s.threads.enqueued)
      × (((leb 2 (s.privilege p) ≡ true)
            × (u.user_stack t ≡ map)
            × Created seg map
                (s.pagedir p)
                (sub32 (s.stacks_bottom p) user_stack_size)
                user_stack_size
                s.segments
                u.segments)
          ⊎ ((leb 2 (s.privilege p) ≡ false)
              × (u.user_stack t ≡ garbage)
              × (u.segments ≡ s.segments)))
unfolding thread_new
thread_new-Counted fuel t seg map garbage p ts s c ne out enough few =
    let s1 : Machine = record s {
      thread_live = update s.thread_live t true;
      process = update s.process t p;
      next = update s.next t null;
      thread_count = update s.thread_count p (add32 (s.thread_count p) 1);
    } in
    let (g, bottoms, stacks, made, stack) = make_stack_lem seg map garbage t p s1 in
    let s2 : Machine = record s1 { segments = g; stacks_bottom = bottoms; user_stack = stacks } in
    let s3 : Machine = record s2 {
      threads = record s2.threads {
        state = update s2.threads.state t running;
        enqueued = t ∷ s2.threads.enqueued;
      };
    } in
    let alive = AllLive-update s.thread_live t ts c.alive in
    let (links, heads, joined, chain) =
      join_threads_lem fuel t p ts s.next s3 refl ne out c.chain c.apart alive enough in
    (
      record s3 { next = links; first_thread = heads },
      rw (c.lives, made, joined) refl,
      record {
        lives = c.lives;
        chain = chain;
        apart = Distinct-snoc t ts out c.apart;
        alive = AllLive-snoc s1.thread_live t ts (ground arith) alive;
        count = ground (arith, c.count, length-snoc t ts);
      },
      ground arith,
      ground arith,
      refl,
      stack,
    )
