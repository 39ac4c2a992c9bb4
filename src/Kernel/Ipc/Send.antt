-- ===== src/Kernel/Ipc/Send.antt =====
-- src/kernel/ipc/request.c: how requests and messages are made (`mkrequest`, `request`, `send_msg`)
-- and how their shared memory is mapped (`request_mapShm`). A thread that finds the object busy
-- sleeps for a millisecond and starts over; the run ends there, as it does where a request waits for
-- its answer, from which `request_woken` goes on. What `kmalloc` returns is an argument.
pub mod Answered
mod Tests
use grapes.Prelude.{
  ℕ, zero, suc, ◌+◌, ◌-◌, ◌*◌, ◌/◌, ◌%◌, ◌^◌, Bool, true, false, ◌&&◌, ◌||◌, not, Option, none,
  some, ltb, ◌==◌, if◌then◌else◌,
}
use grapes.Prelude.Pointers.{Ptr, null, update}
use grapes.Word.{u32, add32, sub32}
use grapes.Kernel.Ipc.Store.{minus_one}
use grapes.Kernel.Ipc.Object.{objdesc_read, objdesc_get, objdesc_add}
use grapes.Kernel.Ipc.Request.{
  Request, Sys, Ran, done, asleep, failed, exhausted, in_store, in_segments, next, live,
  with_request, forget_request, rs_pending, mutex_locked, mutex_unlocked,
}
use grapes.Kernel.Segments.{seg_map}
use grapes.Kernel.Segments.Shared.{shmseg_get_by_off}
use grapes.Kernel.Thread.{go_inactive, wake_up}

-- `RS_INTERRUPTED`
abbrev pub rs_interrupted : ℕ
rs_interrupted = 3

-- The type of parameter `i` in the number of a method.
abbrev pub param_type : (func i : ℕ) → ℕ
param_type func i = func / 2 ^ (28 - 2 * i) % 4

-- an object for another process: the number of its descriptor there
pub share_object : (fresh_desc owner p : Ptr) → (v i : ℕ) → Request → Sys → Ran Request
share_object fresh_desc owner p v i q s = in_store (objdesc_read p v) s (λ x t.
    in_store (objdesc_get owner x) t (λ d u.
      if d == minus_one
      then in_store (objdesc_read p v) u (λ y w. in_store (objdesc_add fresh_desc owner y) w (λ n z.
        done (record q { params = update q.params i n; obj_close = update q.obj_close i n }) z))
      else done (record q { params = update q.params i d }) u))

-- shared memory within a process: the address, and the length of what is mapped there
pub own_memory : (fuel : ℕ) → (p : Ptr) → (v i : ℕ) → Request → Sys → Ran Request
own_memory fuel p v i q s =
    in_segments (shmseg_get_by_off fuel (s.pagedir p) v s.segments) s (λ m t.
      let size = if m == null then 0 else t.segments.map_len m in
      done (record q { params = update q.params i v; shmsize = update q.shmsize i size }) t)

-- shared memory for another process: the map, and one mapping more of its segment
pub share_memory : (fuel : ℕ) → (p : Ptr) → (v i : ℕ) → Request → Sys → Ran Request
share_memory fuel p v i q s =
    in_segments (shmseg_get_by_off fuel (s.pagedir p) v s.segments) s (λ m t.
      let seg = t.segments.map_seg m in
      let count = add32 (t.segments.mappings seg) 1 in
      live (t.segments.map_live m) (
        live (t.segments.seg_live seg) (
          done
            (record q {
              shm_sndr = update q.shm_sndr i m;
              shmsize = update q.shmsize i (t.segments.map_len m);
            })
            (record t {
              segments = record t.segments { mappings = update t.segments.mappings seg count };
            }))))

-- One round of the loop of `mkrequest`.
pub fill_param : (fuel : ℕ) → (fresh_desc owner p : Ptr) → (v i : ℕ) → Request → Sys → Ran Request
unfolding share_object own_memory share_memory
fill_param fuel fresh_desc owner p v i q s =
    let kind = param_type q.func i in
    let as_is = done (record q { params = update q.params i v }) s in
    if kind == 1
    then (if ltb 0x7FFFFFFF v
        then as_is
        else if owner == p
        then as_is
        else share_object fresh_desc owner p v i q s)
    else if kind == 2
    then as_is
    else if kind == 3
    then (if owner == p then own_memory fuel p v i q s else share_memory fuel p v i q s)
    else done q s

-- The loop of `mkrequest`, from parameter `i` on with `n` left.
pub fill_params :
    (fuel : ℕ)
    → (fresh_desc : ℕ → Ptr) → (n i : ℕ) → (owner p : Ptr) → (args : ℕ → ℕ) → Request
    → Sys
    → Ran Request
fill_params fuel fresh_desc zero i owner p args q s = done q s
fill_params fuel fresh_desc (suc n) i owner p args q s =
    next (fill_param fuel (fresh_desc i) owner p (args i) i q s)
      (λ q' t. fill_params fuel fresh_desc n (i + 1) owner p args q' t)

-- A request before its parameters; of what `kmalloc` returned, the union and the error are left.
abbrev pub new_request : (requester : Ptr) → (func pid answer errcode : ℕ) → Request
new_request requester func pid answer errcode = record {
  requester = requester;
  func = func;
  params = λ i. 0;
  obj_close = λ i. 0;
  shmsize = λ i. 0;
  shm_sndr = λ i. null;
  shm_rcv = λ i. null;
  acknowledged = rs_pending;
  answer = answer;
  errcode = errcode;
  pid = pid;
}

-- `obj->request = rq;` and the thread that waits for a request
pub enter_request : (r o : Ptr) → Request → Sys → Sys
unfolding wake_up
enter_request r o q s =
    let waiting = s.store.wakeup_on_rq o in
    let t : Sys = record s {
      requests = update s.requests r (some q);
      store = record s.store { request = update s.store.request o r };
    } in
    if waiting == null then t else record t {
      threads = wake_up waiting t.threads;
      store = record t.store { wakeup_on_rq = update t.store.wakeup_on_rq o null };
    }

abbrev pub set_mutex : (o : Ptr) → ℕ → Sys → Sys
set_mutex o v s = record s { store = record s.store { busy_mutex = update s.store.busy_mutex o v } }

-- What `mkrequest` takes from `kmalloc`: the request, with what its answer and its error hold, and a
-- descriptor for each parameter.
pub record Fresh : Type 0 where
  pub request : Ptr
  pub answer : ℕ
  pub errcode : ℕ
  pub descriptor : ℕ → Ptr

module _ (fuel : ℕ) (fresh : Fresh) (p : Ptr) where
  -- `mkrequest` behind `objdesc_read`: the error and the request
  abbrev pub make_for : (requester : Ptr) → (func : ℕ) → (args : ℕ → ℕ) → Ptr → Sys → Ran (ℕ × Ptr)
  make_for requester func args o s =
      if o == null
      then done (sub32 0 10, null) s
      else live (s.store.obj_live o) (
          if s.store.busy_mutex o == mutex_locked
          then asleep s
          else if s.store.owner o == null
          then done (sub32 0 11, null) (set_mutex o mutex_unlocked s)
          else next
              (fill_params fuel fresh.descriptor 3 0 (s.store.owner o) p args
                (new_request requester func (s.pid p) fresh.answer fresh.errcode)
                (set_mutex o mutex_locked s))
              (λ q t. done (0, fresh.request) (enter_request fresh.request o q t)))

  -- `mkrequest`, of a thread of process `p`
  pub mkrequest : (requester : Ptr) → (id func : ℕ) → (args : ℕ → ℕ) → Sys → Ran (ℕ × Ptr)
  mkrequest requester id func args s = in_store (objdesc_read p id) s (make_for requester func args)

  -- `request` up to where the thread waits: the error, if there is no request
  pub request : (current : Ptr) → (id func : ℕ) → (args : ℕ → ℕ) → Sys → Ran ℕ
  unfolding go_inactive
  request current id func args s = next (mkrequest current id func args s) (λ r t.
      if not (r.0 == 0)
      then done r.0 t
      else asleep (record t { threads = go_inactive current t.threads }))

  -- `send_msg`: the value, and what it writes to `urq->errcode`
  pub send_msg : (id func : ℕ) → (args : ℕ → ℕ) → Sys → Ran (ℕ × Option ℕ)
  send_msg id func args s =
      next (mkrequest null id func args s)
        (λ r t. if not (r.0 == 0) then done (r.0, none) t else done (0, some 0) t)

-- What `request` writes to its caller.
pub record Reply : Type 0 where
  pub answeri : Option ℕ
  pub answerll : Option ℕ
  pub errcode : ℕ

-- The `switch` of `request`; `answer.n` is the lower half of the union.
pub reply : (func : ℕ) → Request → Reply
reply func q =
    let kind = func / 2 ^ 30 in
    record {
      answeri = if (kind == 1) || (kind == 2) then some (q.answer % u32) else none;
      answerll = if kind == 3 then some q.answer else none;
      errcode = q.errcode;
    }

-- `request` from where the thread runs again: the value, and what is written
pub request_woken : (r : Ptr) → (func : ℕ) → Sys → Ran (ℕ × Option Reply)
unfolding reply
request_woken r func s = with_request r s (λ q.
    if q.acknowledged == rs_interrupted
    then done (sub32 0 2, none) s
    else done (0, some (reply func q)) (record s { requests = update s.requests r none }))

-- whether no shared memory of a message is left to map
abbrev all_mapped : Request → Bool
all_mapped q =
    let mapped = λ (i : ℕ). (q.shm_sndr i == null) || not (q.shm_rcv i == null) in
    mapped 0 && (mapped 1 && mapped 2)

-- The map of `request_mapShm`, and the end of a message of which all is mapped.
pub map_param : (map : Ptr) → (o : Ptr) → (pos number : ℕ) → Request → Sys → Ran ℕ
map_param map o pos number q s =
    let sent = q.shm_sndr number in
    let seg = s.segments.map_seg sent in
    let r = s.store.request o in
    let q' : Request = record q { shm_rcv = update q.shm_rcv number map } in
    live (s.segments.map_live sent) (
      in_segments (seg_map map seg (s.pagedir (s.store.owner o)) pos s.segments) s (λ _ t.
        let left = sub32 (t.segments.mappings seg) 1 in
        let u : Sys = record t {
          requests = update t.requests r (some q');
          segments = record t.segments { mappings = update t.segments.mappings seg left };
        } in
        if not (q.requester == null)
        then done 0 u
        else if not (all_mapped q')
        then done 0 u
        else done 0 (forget_request o (record u { requests = update u.requests r none }))))

-- `request_mapShm` behind `objdesc_read`
abbrev pub map_for : (map : Ptr) → (p : Ptr) → (pos number : ℕ) → Ptr → Sys → Ran ℕ
map_for map p pos number o s =
    let r = s.store.request o in
    if o == null
    then done (sub32 0 10) s
    else live (s.store.obj_live o) (
        if not (s.store.owner o == p)
        then done (sub32 0 2) s
        else if r == null
        then done (sub32 0 3) s
        else with_request r s (λ q.
          if q.acknowledged == rs_pending
          then done (sub32 0 3) s
          else if not (param_type q.func number == 3)
          then done (sub32 0 4) s
          else if not (q.requester == null) && (s.store.owner o == s.process q.requester)
          then done (sub32 0 7) s
          else if q.shm_sndr number == null
          then done (sub32 0 5) s
          else map_param map o pos number q s))

-- `request_mapShm`, of a thread of process `p`; `number` is a 32-bit word, so a negative one is above 2
pub request_map_shm : (map : Ptr) → (p : Ptr) → (id pos number : ℕ) → Sys → Ran ℕ
request_map_shm map p id pos number s =
    if ltb 2 number
    then done (sub32 0 9) s
    else in_store (objdesc_read p id) s (map_for map p pos number)
