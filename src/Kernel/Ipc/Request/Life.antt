-- ===== src/Kernel/Ipc/Request/Life.antt =====
-- The life of a request at its object, from the owner's side.
use grapes.Prelude.{
  ℕ, zero, suc, ◌+◌, ◌/◌, ◌^◌, ◌≡◌, ◌≢◌, refl, ◌∙◌, Bool, true, false, ◌&&◌, not, none, some, ◌==◌,
  arith,
}
use grapes.Prelude.Pointers.{Ptr, null, update}
use grapes.Kernel.Thread.{Threads, running, wakewait, wake_up}
use grapes.Kernel.Ipc.Store.{ok, Cmd}
use grapes.Kernel.Ipc.Object.{objdesc_read}
use grapes.Kernel.Ipc.Request.{
  Request, Sys, Ran, done, user_request, rs_pending, rs_processed, rs_finished, mutex_locked,
  mutex_unlocked, hand_over, get_loop, request_has, has_object, get_object, answer_on, request_get,
  request_answer, forget_request, finish_request, close_params, answer_value, in_store,
  with_request,
}

-- `id` is a descriptor, in process `p`, of the live object `o` that `p` owns.
pub record Serves (p : Ptr) (id : ℕ) (o : Ptr) (s : Sys) : Type 0 where
  pub reads : objdesc_read p id s.store ≡ ok o s.store
  pub object : o ≢ null
  pub alive : s.store.obj_live o ≡ true
  pub owned : s.store.owner o ≡ p

-- The object is busy with the request `q` at `r`.
pub record Busy (o r : Ptr) (q : Request) (s : Sys) : Type 0 where
  pub at : s.store.request o ≡ r
  pub there : r ≢ null
  pub is : s.requests r ≡ some q
  pub locked : s.store.busy_mutex o ≡ mutex_locked

-- a request handed to the owner
abbrev pub processed : Ptr → Request → Sys → Sys
processed r q s = record s {
  requests = update s.requests r (some (record q { acknowledged = rs_processed }));
}

pub in_store_ok :
    {A B : Type 0} (m : Cmd A) (s : Sys) (k : A → Sys → Ran B) (a : A)
    → m s.store ≡ ok a s.store
    → in_store m s k ≡ k a s
in_store_ok m s k a e = rw (e, in_store) refl

and_false : (b : Bool) → (b && false) ≡ false
and_false true = refl
and_false false = refl

handed :
    (current o r : Ptr) (q : Request) (s : Sys)
    → s.store.obj_live o ≡ true
    → Busy o r q s
    → (q.requester == null) ≡ false
    → get_loop current o s ≡ done (0, some (user_request q)) (processed r q s)
unfolding get_loop hand_over
handed current o r q s alive busy n5 =
    rw (alive, busy.locked, busy.at, busy.is, with_request, n5, busy.at) refl

-- A request of a blocked thread that waits at the object: `request_has` says so, and `request_get`
-- hands it over at once.
pub request_get-pending :
    (current p o r : Ptr) (id : ℕ) (wait : Bool) (q : Request) (s : Sys)
    → Serves p id o s
    → Busy o r q s
    → q.acknowledged ≡ rs_pending
    → q.requester ≢ null
    → (request_has p id s ≡ done 1 s)
      × (request_get current p id wait s ≡ done (0, some (user_request q)) (processed r q s))
unfolding request_has request_get
request_get-pending current p o r id wait q s serves busy pending blocking =
    let n1 : (o == null) ≡ false = ground (arith, serves.object) in
    let n2 : (s.store.owner o == p) ≡ true = ground (arith, serves.owned) in
    let n3 : (r == null) ≡ false = ground (arith, busy.there) in
    let n4 : (q.acknowledged == rs_pending) ≡ true = ground (arith, pending) in
    let n5 : (q.requester == null) ≡ false = ground (arith, blocking) in
    (
      in_store_ok (objdesc_read p id) s (has_object p) o serves.reads
          ∙ rw (n1, serves.alive, n2, busy.at, n3, busy.locked, busy.is, with_request, n4) refl,
      in_store_ok (objdesc_read p id) s (get_object current p wait) o serves.reads
          ∙ rw (n1, serves.alive, n2, busy.at, n3, busy.is, n4, busy.at, n3, and_false (not wait))
              (handed current o r q s serves.alive busy n5),
    )

close_params-clean :
    (fuel n i : ℕ) (owner : Ptr) (q : Request) (s : Sys)
    → ((j : ℕ) → (q.shm_rcv j ≡ null) × (q.obj_close j ≡ 0))
    → close_params fuel n i owner q s ≡ done tt s
unfolding close_params
close_params-clean fuel zero i owner q s clean = refl
close_params-clean fuel (suc n) i owner q s clean =
    rw ((clean i).1, (clean i).0) (close_params-clean fuel n (i + 1) owner q s clean)

answer_value-int :
    (fresh owner receiver : Ptr) (q : Request) (answer answer2 : ℕ) (s : Sys)
    → q.func / 2 ^ 30 ≡ 2
    → answer_value fresh owner receiver q answer answer2 s ≡ done answer s
unfolding answer_value
answer_value-int fresh owner receiver q answer answer2 s int = rw int refl

-- The answer to a request that was handed over, with an integer, and with neither shared memory nor
-- descriptors to give back: the request is finished and holds the answer, the object is free for
-- the next one, and the thread that waits for the answer runs again.
pub request_answer-processed :
    (fuel : ℕ) (fresh p o r : Ptr) (id answer answer2 errcode : ℕ) (q : Request) (s : Sys)
    → Serves p id o s
    → Busy o r q s
    → q.acknowledged ≡ rs_processed
    → q.requester ≢ null
    → ((i : ℕ) → (q.shm_rcv i ≡ null) × (q.obj_close i ≡ 0))
    → q.func / 2 ^ 30 ≡ 2
    → (u : Sys) × (request_answer fuel fresh p id answer answer2 errcode s ≡ done tt u)
      × (u.requests r
          ≡ some (record q { acknowledged = rs_finished; answer = answer; errcode = errcode }))
      × (u.store.request o ≡ null)
      × (u.store.busy_mutex o ≡ mutex_unlocked)
      × (s.threads.state q.requester ≡ wakewait → u.threads.state q.requester ≡ running)
unfolding request_answer finish_request wake_up
request_answer-processed fuel fresh p o r id answer answer2 errcode q s serves busy handed_over
      blocking clean int =
    let n1 : (o == null) ≡ false = ground (arith, serves.object) in
    let n2 : (s.store.owner o == p) ≡ true = ground (arith, serves.owned) in
    let n3 : (r == null) ≡ false = ground (arith, busy.there) in
    let n4 : (q.acknowledged == rs_pending) ≡ false = ground (arith, handed_over) in
    let n5 : (q.requester == null) ≡ false = ground (arith, blocking) in
    let kept = close_params-clean fuel 3 0 (s.store.owner o) q s clean in
    let value =
      answer_value-int fresh (s.store.owner o) (s.process q.requester) q answer answer2 s int in
    (
      forget_request o (record s {
        requests =
            update s.requests r
              (some (record q { acknowledged = rs_finished; answer = answer; errcode = errcode }));
        threads = wake_up q.requester s.threads;
      }),
      in_store_ok (objdesc_read p id) s (answer_on fuel fresh p answer answer2 errcode) o
            serves.reads
          ∙ rw (n1, serves.alive, n2, busy.at, n3, busy.is, with_request, n4, n5)
              (rw (busy.at, busy.is, with_request, kept, value, busy.at) refl),
      ground arith,
      ground arith,
      ground arith,
      woken q.requester s.threads,
    )
  where
    woken : (t : Ptr) (ts : Threads) → ts.state t ≡ wakewait → (wake_up t ts).state t ≡ running
    woken t ts e = ground (arith, e)

-- A message that shares no memory is over once it is handed over: the request is freed, and the
-- object is free for the next one.
request_get-message :
    (current p o r : Ptr) (id : ℕ) (wait : Bool) (q : Request) (s : Sys)
    → Serves p id o s
    → Busy o r q s
    → q.acknowledged ≡ rs_pending
    → q.requester ≡ null
    → ((i : ℕ) → q.shm_sndr i ≡ null)
    → (u : Sys) × (request_get current p id wait s ≡ done (0, some (user_request q)) u)
      × (u.requests r ≡ none)
      × (u.store.request o ≡ null)
      × (u.store.busy_mutex o ≡ mutex_unlocked)
unfolding request_get get_loop hand_over
request_get-message current p o r id wait q s serves busy pending message alone =
    let n1 : (o == null) ≡ false = ground (arith, serves.object) in
    let n2 : (s.store.owner o == p) ≡ true = ground (arith, serves.owned) in
    let n3 : (r == null) ≡ false = ground (arith, busy.there) in
    let n4 : (q.acknowledged == rs_pending) ≡ true = ground (arith, pending) in
    let u : Sys =
      forget_request o (record s { requests = update (processed r q s).requests r none }) in
    (
      u,
      in_store_ok (objdesc_read p id) s (get_object current p wait) o serves.reads
          ∙ rw (n1, serves.alive, n2, busy.at, n3, busy.is, n4, busy.at, n3, and_false (not wait))
              (rw
                (
                  serves.alive,
                  busy.locked,
                  busy.is,
                  with_request,
                  message,
                  alone 0,
                  alone 1,
                  alone 2,
                )
                refl),
      ground arith,
      ground arith,
      ground arith,
    )
