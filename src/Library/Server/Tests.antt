-- ===== src/Library/Server/Tests.antt =====
-- A server with one method of its own, and requests to it.
use grapes.Prelude.{
  ℕ, ◌≡◌, refl, Bool, true, false, some, List, [], ◌∷◌, ◌==◌, if◌then◌else◌, arith,
}
use grapes.Library.Shm.{
  Block, alloc, free, init, ready, best_fit, take_at, take_block, unify, release, free_after,
}
use grapes.Library.Shm.Ownership.{IsValid, init-IsValid}
use grapes.Library.Server.{
  Server, MethodData, Ret, Request, request_answer, request_map_shm, shm_delete, handle,
  get_handler, get_param, get_params, free_params, delete_params, mr_long, srv_get,
}
use grapes.Library.Server.Handling.{answers, handle-answers}
use grapes.Library.Server.Blocks.{handle-IsValid}

-- a method of two parameters, shared memory and an integer
abbrev print : ℕ
print = 0xB8000007

abbrev screen : Server
screen = record { addr = 0x100; id = 3; methods = record { id = print; h = 0x500 } ∷ [] }

abbrev other : Server
other = record { addr = 0x200; id = 4; methods = [] }

abbrev call_method : ℕ → MethodData → List Block → Ret × List Block
call_method m md bs = (mr_long 7, bs)

abbrev print_request : Bool → Request
print_request blocking = record {
  func = print;
  params = λ i. if i == 1 then 5 else 0;
  shmsize = λ i. 0x1000;
  is_blocking = blocking;
  pid = 9;
}

-- A request is answered with the value that the handler returned.
request_run :
    (handle call_method screen (print_request true) init).1
    ≡ request_map_shm 3 0x80000000 0 ∷ request_answer 3 7 0 0 ∷ []
unfolding handle get_handler get_params get_param free_params delete_params alloc init free ready
    best_fit take_at take_block unify release free_after
request_run = refl

-- The area mapped for a message is unmapped.
message_run :
    (handle call_method screen (print_request false) init).1
    ≡ request_map_shm 3 0x80000000 0 ∷ shm_delete 0x80000000 ∷ []
unfolding handle get_handler get_params get_param free_params delete_params alloc init free ready
    best_fit take_at take_block unify release free_after
message_run = refl

handle-answers_example : answers (handle call_method screen (print_request true) init).1 ≡ 1
handle-answers_example = handle-answers call_method screen (print_request true) init

handle-IsValid_example : IsValid (handle call_method screen (print_request true) init).0
handle-IsValid_example =
    handle-IsValid call_method screen (print_request true) init (λ m md cs v. v)
      (λ j h. (omega arith, omega arith)) init-IsValid

found : srv_get 4 (screen ∷ other ∷ []) ≡ some other
unfolding srv_get
found = refl
