-- ===== src/Kernel/Ipc/Send/Tests.antt =====
-- Requests of one process to an object of another.
use grapes.Prelude.{
  ℕ, zero, suc, ◌+◌, ◌≡◌, ◌<◌, inl, inr, refl, true, ◌||◌, none, some, [], ◌==◌, if◌then◌else◌,
  arith,
}
use grapes.Prelude.Pointers.{Ptr, null, update}
use grapes.Kernel.Thread.{running, wakewait}
use grapes.Kernel.Ipc.Store.{Store, ok}
use grapes.Kernel.Ipc.Object.{objdesc_read, read_loop}
use grapes.Kernel.Process.Sample.{no_segments}
use grapes.Kernel.Segments.{Segments, shm}
use grapes.Kernel.Ipc.Request.{
  Request, Sys, UserRequest, done, asleep, rs_processed, mutex_locked, mutex_unlocked, request_get,
  request_answer,
}
use grapes.Kernel.Ipc.Request.Life.{Serves}
use grapes.Kernel.Ipc.Send.{Fresh, request, request_woken}
use grapes.Kernel.Ipc.Send.Answered.{Plain, arrives, request_answered}

-- Process 100 owns the object 200; the process 101 has the descriptor 0 of it too.
abbrev store : (busy : ℕ) → (waiting : Ptr) → Store
store busy waiting = record {
  obj_live = λ o. o == 200;
  owner = λ o. if o == 200 then 100 else null;
  descriptors = λ o. 2;
  busy_mutex = λ o. busy;
  request = λ o. waiting;
  wakeup_on_rq = λ o. null;
  desc_live = λ e. (e == 300) || (e == 301);
  desc_obj = λ e. 200;
  desc_id = λ e. 0;
  desc_next = λ e. null;
  objects = λ p. if p == 100 then 300 else 301;
  next_objdesc = λ p. 1;
}

abbrev idle : Sys
idle = record {
  store = store mutex_unlocked null;
  requests = λ r. none;
  threads = record { state = λ t. running; enqueued = [] };
  process = λ t. if t == 500 then 101 else 100;
  pagedir = λ p. p + 1000;
  pid = λ p. p;
  segments = no_segments;
}

abbrev fresh : Fresh
fresh = record { request = 400; answer = 0; errcode = 0; descriptor = λ i. 310 + i }

abbrev arguments : ℕ → ℕ
arguments i = 7 + i

-- one integer as the first parameter, and an integer as the answer
abbrev method : ℕ
method = 0xA0000005

reads : objdesc_read 101 0 idle.store ≡ ok 200 idle.store
unfolding objdesc_read read_loop
reads = refl

serves : Serves 100 0 200 idle
unfolding objdesc_read read_loop
serves = record { reads = refl; object = omega arith; alive = refl; owned = refl }

plain : (i : ℕ) → i < 3 → Plain method i
plain zero lt = inr refl
plain (suc zero) lt = inl refl
plain (suc (suc zero)) lt = inl refl
plain (suc (suc (suc n))) lt = absurd (omega arith)

request_answered_example :
    (asked : Sys) × (got : Sys) × (served : Sys) × (u : UserRequest) × (request 4 fresh 101 500 0
        method arguments idle
      ≡ asleep asked)
    × (asked.threads.state 500 ≡ wakewait)
    × (request_get 600 100 0 true asked ≡ done (0, some u) got)
    × (u.func ≡ method)
    × ((i : ℕ) → i < 3 → u.params i ≡ arrives method arguments i)
    × (u.is_blocking ≡ true)
    × (u.pid ≡ 101)
    × (request_answer 4 700 100 0 42 0 3 got ≡ done tt served)
    × (served.threads.state 500 ≡ running)
    × (served.store.request 200 ≡ null)
    × (served.store.busy_mutex 200 ≡ mutex_unlocked)
    × (request_woken 400 method served
        ≡ done
            (0, some (record { answeri = some 42; answerll = none; errcode = 3 }))
            (record served { requests = update served.requests 400 none }))
request_answered_example =
    request_answered 4 fresh 101 500 100 0 0 method arguments 200 idle reads serves (omega arith)
      refl plain 600 700 true 42 0 3 (omega arith) (omega arith) (omega arith) (omega arith)

-- The map 10 of the shared segment 20, of one page, in the sender's directory.
abbrev one_map : Segments
one_map = record no_segments {
  mapped_segs = update (λ p. null) 1101 10;
  map_live = λ m. m == 10;
  map_seg = λ m. 20;
  map_pagedir = λ m. 1101;
  map_start = λ m. 0x500000;
  map_len = λ m. 0x1000;
  seg_live = λ p. p == 20;
  contents = λ p. shm 0x1000 [] 101;
  mappings = λ p. 2;
}

-- shared memory as the first parameter
abbrev sharing : Request
sharing = record {
  requester = 500;
  func = 0xB0000005;
  params = λ i. 0;
  obj_close = λ i. 0;
  shmsize = update (λ i. 0) 0 0x1000;
  shm_sndr = update (λ i. null) 0 10;
  shm_rcv = λ i. null;
  acknowledged = rs_processed;
  answer = 0;
  errcode = 0;
  pid = 101;
}

abbrev busy : Sys
busy = record idle {
  store = store mutex_locked 400;
  requests = λ r. if r == 400 then some sharing else none;
  segments = one_map;
}

busy-Serves : Serves 100 0 200 busy
unfolding objdesc_read read_loop
busy-Serves = record { reads = refl; object = omega arith; alive = refl; owned = refl }
