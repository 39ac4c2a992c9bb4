-- ===== src/Kernel/Ipc/Send/Answered.antt =====
-- A request from its sender to the owner of the object and back.
use grapes.Prelude.{
  ℕ, zero, suc, ◌/◌, ◌%◌, ◌^◌, ◌≡◌, ◌≢◌, ◌<◌, ◌⊎◌, inl, inr, refl, sym, ap, ◌∙◌, Bool, true, false,
  none, some, ◌==◌, if◌then◌else◌, arith, Bool-cases,
}
use mathlib.Core.Path.{subst}
use grapes.Prelude.Pointers.{Ptr, null, update}
use grapes.Word.{u32}
use grapes.Kernel.Thread.{running, wakewait, go_inactive}
use grapes.Kernel.Ipc.Store.{Store, ok}
use grapes.Kernel.Ipc.Object.{objdesc_read, read_loop}
use grapes.Kernel.Ipc.Request.{
  Request, Sys, UserRequest, done, asleep, user_request, with_request, rs_processed, mutex_locked,
  mutex_unlocked, request_get, request_answer,
}
use grapes.Kernel.Ipc.Request.Life.{
  Serves, Busy, processed, request_get-pending, request_answer-processed, in_store_ok,
}
use grapes.Kernel.Ipc.Send.{
  param_type, fill_param, fill_params, new_request, enter_request, set_mutex, Fresh, make_for,
  mkrequest, request, reply, request_woken,
}

-- The parameter is an integer, or there is none.
abbrev pub Plain : (func i : ℕ) → Type 0
Plain func i = (param_type func i ≡ 0) ⊎ (param_type func i ≡ 2)

-- What arrives for a plain parameter.
abbrev pub arrives : (func : ℕ) → (args : ℕ → ℕ) → ℕ → ℕ
arrives func args i = if param_type func i == 2 then args i else 0

abbrev filled : (args : ℕ → ℕ) → ℕ → Request → Request
filled args i q = record q {
  params = if param_type q.func i == 2 then update q.params i (args i) else q.params;
}

-- The reads of descriptors do not see what a request changes in an object.
read_loop-object :
    (k id : ℕ) (e o : Ptr) (s : Store) (b : Ptr → ℕ) (r w : Ptr → Ptr)
    → read_loop k id e s ≡ ok o s
    → let t : Store = record s { busy_mutex = b; request = r; wakeup_on_rq = w } in
      read_loop k id e t ≡ ok o t
unfolding read_loop
read_loop-object zero id e o s b r w reads = ground (arith, reads)
read_loop-object (suc k) id e o s b r w reads =
    ground (arith, reads, read_loop-object k id (s.desc_next e) o s b r w)

objdesc_read-object :
    (p : Ptr) (id : ℕ) (o : Ptr) (s : Store) (b : Ptr → ℕ) (r w : Ptr → Ptr)
    → objdesc_read p id s ≡ ok o s
    → let t : Store = record s { busy_mutex = b; request = r; wakeup_on_rq = w } in
      objdesc_read p id t ≡ ok o t
unfolding objdesc_read
objdesc_read-object p id o s b r w reads =
    read_loop-object (s.next_objdesc p) id (s.objects p) o s b r w reads

-- what is woken of the threads that wait for a request of the object
abbrev waiting : Ptr → Sys → Ptr → Ptr
waiting o s =
    if s.store.wakeup_on_rq o == null
    then s.store.wakeup_on_rq
    else update s.store.wakeup_on_rq o null

enter_request-store :
    (r o : Ptr) (q : Request) (s : Sys)
    → (enter_request r o q s).store
      ≡ record s.store { request = update s.store.request o r; wakeup_on_rq = waiting o s }
unfolding enter_request
enter_request-store r o q s = elim (Bool-cases (s.store.wakeup_on_rq o == null)) [
  | inl nobody ↦ rw nobody refl
  | inr somebody ↦ rw somebody refl
]

enter_request-requests :
    (r o : Ptr) (q : Request) (s : Sys)
    → (enter_request r o q s).requests ≡ update s.requests r (some q)
unfolding enter_request
enter_request-requests r o q s = elim (Bool-cases (s.store.wakeup_on_rq o == null)) [
  | inl nobody ↦ rw nobody refl
  | inr somebody ↦ rw somebody refl
]

fill_param-Plain :
    (fuel : ℕ) (d owner p : Ptr) (args : ℕ → ℕ) (i : ℕ) (q : Request) (s : Sys)
    → Plain q.func i
    → fill_param fuel d owner p (args i) i q s ≡ done (filled args i q) s
unfolding fill_param
fill_param-Plain fuel d owner p args i q s plain = elim plain [
  | inl none_here ↦ rw none_here refl
  | inr integer ↦ rw integer refl
]

fill_params-Plain :
    (fuel : ℕ) (d : ℕ → Ptr) (owner p : Ptr) (args : ℕ → ℕ) (q : Request) (s : Sys)
    → ((i : ℕ) → i < 3 → Plain q.func i)
    → fill_params fuel d 3 0 owner p args q s
      ≡ done (filled args 2 (filled args 1 (filled args 0 q))) s
unfolding fill_params
fill_params-Plain fuel d owner p args q s plain =
    rw
      (
        fill_param-Plain fuel (d 0) owner p args 0 q s (plain 0 (omega arith)),
        fill_param-Plain fuel (d 1) owner p args 1 (filled args 0 q) s (plain 1 (omega arith)),
        fill_param-Plain fuel (d 2) owner p args 2 (filled args 1 (filled args 0 q)) s
            (plain 2 (omega arith)),
      )
      refl

-- What `request` writes once it runs again, for an integer that was answered.
request_woken-int :
    (r : Ptr) (func answer : ℕ) (q : Request) (s : Sys)
    → s.requests r ≡ some q
    → q.acknowledged ≡ 2
    → q.answer ≡ answer
    → answer < u32
    → func / 2 ^ 30 ≡ 2
    → request_woken r func s
      ≡ done
          (0, some (record { answeri = some answer; answerll = none; errcode = q.errcode }))
          (record s { requests = update s.requests r none })
unfolding request_woken reply
request_woken-int r func answer q s is finished value small int =
    let low : answer % u32 ≡ answer = omega arith in
    rw (is, with_request, finished, int, value, low) refl

module _ (fuel : ℕ) (fresh : Fresh) (p current server : Ptr) (id sid func : ℕ) (args : ℕ → ℕ)
    (o : Ptr) (s : Sys) (reads : objdesc_read p id s.store ≡ ok o s.store)
    (serves : Serves server sid o s) (some_server : server ≢ null)
    (idle : s.store.busy_mutex o ≡ mutex_unlocked) (plain : (i : ℕ) → i < 3 → Plain func i) where
  -- The request that its sender makes.
  abbrev made : Request
  made = filled args 2 (
      filled args 1 (filled args 0 (new_request current func (s.pid p) fresh.answer fresh.errcode)))

  -- The state in which the sender waits for the answer.
  abbrev entered : Sys
  entered = enter_request fresh.request o made (set_mutex o mutex_locked s)

  abbrev sent : Sys
  sent = record entered { threads = go_inactive current entered.threads }

  request-sent : request fuel fresh p current id func args s ≡ asleep sent
  unfolding request mkrequest go_inactive
  request-sent =
      let n1 : (o == null) ≡ false = ground (arith, serves.object) in
      let n2 : (s.store.busy_mutex o == mutex_locked) ≡ false = ground (arith, idle) in
      let n3 : (s.store.owner o == null) ≡ false = ground (arith, some_server, serves.owned) in
      rw
        (
          in_store_ok (objdesc_read p id) s (make_for fuel fresh p current func args) o reads,
          n1,
          serves.alive,
          n2,
          n3,
          fill_params-Plain fuel fresh.descriptor (s.store.owner o) p args
              (new_request current func (s.pid p) fresh.answer fresh.errcode)
              (set_mutex o mutex_locked s) plain,
        )
        refl

  sent-Serves : Serves server sid o sent
  sent-Serves =
      let same = enter_request-store fresh.request o made (set_mutex o mutex_locked s) in
      record {
        reads =
            subst (λ t. objdesc_read server sid t ≡ ok o t) (sym same)
              (objdesc_read-object server sid o s.store (update s.store.busy_mutex o mutex_locked)
                (update s.store.request o fresh.request) (waiting o s) serves.reads);
        object = serves.object;
        alive = ap (λ t. t.obj_live o) same ∙ serves.alive;
        owned = ap (λ t. t.owner o) same ∙ serves.owned;
      }

  sent-Busy : fresh.request ≢ null → Busy o fresh.request made sent
  sent-Busy there =
      let same = enter_request-store fresh.request o made (set_mutex o mutex_locked s) in
      record {
        at = ap (λ t. t.request o) same ∙ ground arith;
        there = there;
        is =
            ap (λ f. f fresh.request)
              (enter_request-requests fresh.request o made (set_mutex o mutex_locked s))
            ∙ ground arith;
        locked = ap (λ t. t.busy_mutex o) same ∙ ground arith;
      }

  sent-wakewait : sent.threads.state current ≡ wakewait
  unfolding go_inactive
  sent-wakewait = ground arith

  made-params : (i : ℕ) → i < 3 → made.params i ≡ arrives func args i
  made-params i lt = ground arith

  -- `request` of a method with integers for parameters and an integer for its answer, to an idle
  -- object of another or of the same process: the sender sleeps; `request_get` of the owner returns
  -- at once, with the method, its arguments and the number of the sender's process; after
  -- `request_answer` the sender runs again, and its call returns 0 with the answer and the error code
  -- of the owner. The request is freed, and the object is free for the next one.
  pub request_answered :
      (reader fresh_desc : Ptr) (wait : Bool) (answer answer2 errcode : ℕ)
      → current ≢ null
      → fresh.request ≢ null
      → func / 2 ^ 30 ≡ 2
      → answer < u32
      → (asked : Sys) × (got : Sys) × (served : Sys) × (u : UserRequest) × (request fuel fresh p
            current id func args s
          ≡ asleep asked)
        × (asked.threads.state current ≡ wakewait)
        × (request_get reader server sid wait asked ≡ done (0, some u) got)
        × (u.func ≡ func)
        × ((i : ℕ) → i < 3 → u.params i ≡ arrives func args i)
        × (u.is_blocking ≡ true)
        × (u.pid ≡ s.pid p)
        × (request_answer fuel fresh_desc server sid answer answer2 errcode got ≡ done tt served)
        × (served.threads.state current ≡ running)
        × (served.store.request o ≡ null)
        × (served.store.busy_mutex o ≡ mutex_unlocked)
        × (request_woken fresh.request func served
            ≡ done
                (0, some (record { answeri = some answer; answerll = none; errcode = errcode }))
                (record served { requests = update served.requests fresh.request none }))
  request_answered reader fresh_desc wait answer answer2 errcode some_thread there int small =
      let q = record made { acknowledged = rs_processed } in
      let got = processed fresh.request made sent in
      let busy = sent-Busy there in
      let (_, get) =
        request_get-pending reader server o fresh.request sid wait made sent sent-Serves busy refl
          some_thread in
      let serving : Serves server sid o got = record {
        reads = sent-Serves.reads;
        object = serves.object;
        alive = sent-Serves.alive;
        owned = sent-Serves.owned;
      } in
      let answering : Busy o fresh.request q got = record {
        at = busy.at;
        there = there;
        is = ground arith;
        locked = busy.locked;
      } in
      let (served, run, is, free, unlocked, woken) =
        request_answer-processed fuel fresh_desc server o fresh.request sid answer answer2 errcode q
          got serving answering refl some_thread (λ i. (refl, refl)) int in
      (
        sent,
        got,
        served,
        user_request made,
        request-sent,
        sent-wakewait,
        get,
        refl,
        made-params,
        ground (arith, some_thread),
        refl,
        run,
        woken sent-wakewait,
        free,
        unlocked,
        request_woken-int fresh.request func answer _ served is refl refl small int,
      )
