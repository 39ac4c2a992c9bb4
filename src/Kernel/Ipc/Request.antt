-- ===== src/Kernel/Ipc/Request.antt =====
-- src/kernel/ipc/request.c: how the owner of an object asks for requests, gets them and answers
-- them. A wait ends the run with the state in which the thread sleeps; `get_loop` is where it goes
-- on when it is woken. `fuel` is the number of steps for a walk over the maps of a process.
pub mod Life
use grapes.Prelude.{
  ℕ, zero, suc, ◌+◌, ◌-◌, ◌*◌, ◌/◌, ◌^◌, Bool, true, false, ◌&&◌, ◌||◌, not, Option, none, some,
  List, [], ◌∷◌, ltb, ◌==◌, if◌then◌else◌,
}
use grapes.Prelude.Pointers.{Ptr, null, update}
use grapes.Word.{u32, sub32}
use grapes.Kernel.Ipc.Store.{Store, Run, ok, fault, out_of_fuel, Cmd, minus_one}
use grapes.Kernel.Ipc.Object.{objdesc_read, objdesc_get, objdesc_add, obj_close_p}
use grapes.Kernel.Segments.{Segments, seg_unmap}
use grapes.Prelude.Runs as Runs
use grapes.Kernel.Thread.{Threads, go_inactive, wake_up}

-- `RS_PENDING`, `RS_PROCESSED`, `RS_FINISHED`
abbrev pub rs_pending : ℕ
rs_pending = 0

abbrev pub rs_processed : ℕ
rs_processed = 1

abbrev pub rs_finished : ℕ
rs_finished = 2

abbrev pub mutex_unlocked : ℕ
mutex_unlocked = 0

abbrev pub mutex_locked : ℕ
mutex_locked = 1

-- `struct request`; the union `answer` is its 64 bits
pub record Request : Type 0 where
  pub requester : Ptr
  pub func : ℕ
  pub params : ℕ → ℕ
  pub obj_close : ℕ → ℕ
  pub shmsize : ℕ → ℕ
  pub shm_sndr : ℕ → Ptr
  pub shm_rcv : ℕ → Ptr
  pub acknowledged : ℕ
  pub answer : ℕ
  pub errcode : ℕ
  pub pid : ℕ

-- Objects, the requests that are allocated, threads with their processes, the page directories and
-- numbers of processes, and what is mapped.
pub record Sys : Type 0 where
  pub store : Store
  pub requests : Ptr → Option Request
  pub threads : Threads
  pub process : Ptr → Ptr
  pub pagedir : Ptr → Ptr
  pub pid : Ptr → ℕ
  pub segments : Segments

-- `struct user_request`
pub record UserRequest : Type 0 where
  pub func : ℕ
  pub params : ℕ → ℕ
  pub shmsize : ℕ → ℕ
  pub is_blocking : Bool
  pub pid : ℕ

-- How a call ends.
pub data Ran (A : Type 0) : Type 0 where
  done : A → Sys → Ran A
  asleep : Sys → Ran A
  failed : Ran A
  exhausted : Ran A

-- A command of the store, and what follows it.
abbrev pub in_store : {A B : Type 0} → Cmd A → Sys → (A → Sys → Ran B) → Ran B
in_store m s k = elim (m s.store) [
  | ok a t ↦ k a (record s { store = t })
  | fault ↦ failed
  | out_of_fuel ↦ exhausted
]

-- A command on the segments, and what follows it.
abbrev pub in_segments : {A B : Type 0} → Runs.Ran Segments A → Sys → (A → Sys → Ran B) → Ran B
in_segments (Runs.done a t) s k = k a (record s { segments = t })
in_segments Runs.failed s k = failed
in_segments Runs.exhausted s k = exhausted

-- What follows a run that ends.
abbrev pub next : {A B : Type 0} → Ran A → (A → Sys → Ran B) → Ran B
next (done a s) k = k a s
next (asleep s) k = asleep s
next failed k = failed
next exhausted k = exhausted

-- An access to a request or through a pointer that must be live.
abbrev pub with_request : {A : Type 0} → Ptr → Sys → (Request → Ran A) → Ran A
with_request r s k = elim (s.requests r) [ none ↦ failed | some q ↦ k q ]

abbrev pub live : {A : Type 0} → Bool → Ran A → Ran A
live true r = r
live false r = failed

-- whether the object has a request that is not pending
abbrev acknowledged_request : Ptr → Sys → Option Bool
acknowledged_request o s =
    if s.store.request o == null then some false else elim (s.requests (s.store.request o)) [
      | none ↦ none
      | some q ↦ some (not (q.acknowledged == rs_pending))
    ]

-- The end of the object's request: it is freed, and the object takes the next.
abbrev pub forget_request : Ptr → Sys → Sys
forget_request o s = record s {
  store = record s.store {
    request = update s.store.request o null;
    busy_mutex = update s.store.busy_mutex o mutex_unlocked;
  };
}

-- `request_has` behind `objdesc_read`
abbrev pub has_object : Ptr → Ptr → Sys → Ran ℕ
has_object p o t =
    if o == null
    then done (sub32 0 10) t
    else live (t.store.obj_live o) (
        if not (t.store.owner o == p)
        then done (sub32 0 2) t
        else if (t.store.request o == null) || (t.store.busy_mutex o == mutex_unlocked)
        then done 0 t
        else with_request (t.store.request o) t
            (λ q. if q.acknowledged == rs_pending then done 1 t else done 2 t))

-- `request_has`
pub request_has : (p : Ptr) → ℕ → Sys → Ran ℕ
request_has p id s = in_store (objdesc_read p id) s (has_object p)

abbrev pub user_request : Request → UserRequest
user_request q = record {
  func = q.func;
  params = q.params;
  shmsize = q.shmsize;
  is_blocking = not (q.requester == null);
  pid = q.pid;
}

-- The end of `request_get`: the request is handed over; a message that shares no memory is over.
pub hand_over : Ptr → Sys → Ran (ℕ × Option UserRequest)
hand_over o t =
    let r = t.store.request o in
    with_request r t (λ q.
      let u = record t {
        requests = update t.requests r (some (record q { acknowledged = rs_processed }));
      } in
      if not (q.requester == null)
      then done (0, some (user_request q)) u
      else if not ((q.shm_sndr 0 == null) && ((q.shm_sndr 1 == null) && (q.shm_sndr 2 == null)))
      then done (0, some (user_request q)) u
      else done (0, some (user_request q))
          (forget_request o (record u { requests = update u.requests r none })))

-- The loop of `request_get` and what follows it.
pub get_loop : (current : Ptr) → Ptr → Sys → Ran (ℕ × Option UserRequest)
unfolding go_inactive hand_over
get_loop current o t = live (t.store.obj_live o) (
    if t.store.busy_mutex o == mutex_locked
    then hand_over o t
    else elim (acknowledged_request o t) [
      | none ↦ failed
      | some processed ↦
          if (t.store.request o == null) || processed
          then asleep (record t {
            store = record t.store { wakeup_on_rq = update t.store.wakeup_on_rq o current };
            threads = go_inactive current t.threads;
          })
          else hand_over o t
    ])

-- `request_get` behind `objdesc_read`
abbrev pub get_object : (current p : Ptr) → (wait : Bool) → Ptr → Sys → Ran (ℕ × Option UserRequest)
get_object current p wait o t =
    if o == null
    then done (sub32 0 10, none) t
    else live (t.store.obj_live o) (
        if not (t.store.owner o == p)
        then done (sub32 0 2, none) t
        else elim (acknowledged_request o t) [
          | none ↦ failed
          | some true ↦ done (sub32 0 3, none) t
          | some false ↦
              if not wait && (t.store.request o == null)
              then done (sub32 0 1, none) t
              else get_loop current o t
        ])

-- `request_get`, for a thread of process `p`: the value, and what is written to the caller
pub request_get : (current p : Ptr) → ℕ → (wait : Bool) → Sys → Ran (ℕ × Option UserRequest)
request_get current p id wait s = in_store (objdesc_read p id) s (get_object current p wait)

-- One parameter of the loop of `request_answer`: its shared memory is unmapped.
abbrev pub unmap_param : (fuel : ℕ) → Ptr → Sys → (Sys → Ran (Unit {0})) → Ran (Unit {0})
unmap_param fuel map s k =
    if map == null then k s else in_segments (seg_unmap fuel map s.segments) s (λ _ t. k t)

-- The loop of `request_answer`, from parameter `i` on with `n` left.
pub close_params : (fuel : ℕ) → (n i : ℕ) → (owner : Ptr) → Request → Sys → Ran (Unit {0})
close_params fuel zero i owner q s = done tt s
close_params fuel (suc n) i owner q s = unmap_param fuel (q.shm_rcv i) s (λ t.
    if q.obj_close i == 0
    then close_params fuel n (i + 1) owner q t
    else in_store (obj_close_p owner (q.obj_close i)) t
        (λ _ u. close_params fuel n (i + 1) owner q u))

-- `PT_OBJDESC`: the descriptor that the requester's process gets for the answer
answer_object : (fresh : Ptr) → (owner receiver : Ptr) → ℕ → Sys → Ran ℕ
answer_object fresh owner receiver answer s =
    if ltb 0x7FFFFFFF answer
    then done answer s
    else if owner == receiver
    then done answer s
    else in_store (objdesc_read owner answer) s (λ o t.
      if o == null
      then done minus_one t
      else in_store (objdesc_get receiver o) t (λ n u.
        if n == minus_one
        then in_store (objdesc_add fresh receiver o) u (λ m v. done m v)
        else done n u))

-- The `switch` of `request_answer`: the union after it.
pub answer_value :
    (fresh : Ptr) → (owner receiver : Ptr) → Request → (answer answer2 : ℕ) → Sys → Ran ℕ
unfolding answer_object
answer_value fresh owner receiver q answer answer2 s =
    let kind = q.func / 2 ^ 30 in
    if kind == 1
    then answer_object fresh owner receiver answer s
    else if kind == 2
    then done answer s
    else if kind == 3
    then done (answer2 * u32 + answer) s
    else done q.answer s

-- What `request_answer` does once it has found a request to answer.
pub finish_request :
    (fuel : ℕ) → (fresh o : Ptr) → (answer answer2 errcode : ℕ) → Sys → Ran (Unit {0})
unfolding close_params answer_value wake_up
finish_request fuel fresh o answer answer2 errcode s =
    let r = s.store.request o in
    let owner = s.store.owner o in
    with_request r s (λ q. next (close_params fuel 3 0 owner q s) (λ _ t.
      next (answer_value fresh owner (t.process q.requester) q answer answer2 t) (λ a u. done tt (
        forget_request o (record u {
          requests =
              update u.requests r
                (some (record q { acknowledged = rs_finished; answer = a; errcode = errcode }));
          threads = wake_up q.requester u.threads;
        })))))

-- `request_answer` behind `objdesc_read`
abbrev pub answer_on :
    (fuel : ℕ) → (fresh p : Ptr) → (answer answer2 errcode : ℕ) → Ptr → Sys → Ran (Unit {0})
answer_on fuel fresh p answer answer2 errcode o t =
    if o == null
    then done tt t
    else live (t.store.obj_live o) (
        if not (t.store.owner o == p)
        then done tt t
        else if t.store.request o == null
        then done tt t
        else with_request (t.store.request o) t (λ q.
          if (q.acknowledged == rs_pending) || (q.requester == null)
          then done tt t
          else finish_request fuel fresh o answer answer2 errcode t))

-- `request_answer`
pub request_answer :
    (fuel : ℕ) → (fresh p : Ptr) → (id answer answer2 errcode : ℕ) → Sys → Ran (Unit {0})
request_answer fuel fresh p id answer answer2 errcode s =
    in_store (objdesc_read p id) s (answer_on fuel fresh p answer answer2 errcode)
