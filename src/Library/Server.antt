-- ===== src/Library/Server.antt =====
-- src/library/gc/server.c: the objects that a process serves, their methods, and the handling of
-- one request or message. A handler is the address of a function, 0 for none. What a handler does
-- is a parameter: the value it returns, and the blocks of shared memory as it leaves them. The
-- list `servers` is a list of the records with their addresses.
pub mod Methods
pub mod Servers
pub mod Handling
pub mod Blocks
mod Tests
use grapes.Prelude.{
  ℕ, zero, suc, ◌+◌, ◌-◌, ◌*◌, ◌/◌, ◌%◌, ◌^◌, Bool, true, false, ◌||◌, ◌&&◌, not, Option, none,
  some, List, [], ◌∷◌, ◌++◌, ltb, ◌==◌, if◌then◌else◌,
}
use grapes.Word.{u32}
use grapes.Library.Shm.{Block, alloc, free}

-- `struct method_srv`
pub record Method : Type 0 where
  pub id : ℕ
  pub h : ℕ

-- `Server`; `addr` is where it is
pub record Server : Type 0 where
  pub addr : ℕ
  pub id : ℕ
  pub methods : List Method

-- `M_HANDLECHECK_BIVV`, `M_HANDLECHECK_BMIV`
abbrev pub handlecheck_bivv : ℕ
handlecheck_bivv = 0xA0000001

abbrev pub handlecheck_bmiv : ℕ
handlecheck_bmiv = 0xB8000001

-- `getHandler`
pub get_handler : List Method → ℕ → ℕ
get_handler [] m = 0
get_handler (i ∷ rest) m = let later = get_handler rest m in if i.id == m then i.h else later

-- `srv_addHandler`
pub add_handler : Server → ℕ → ℕ → Server
add_handler o method h = record o { methods = record { id = method; h = h } ∷ o.methods }

-- `srv_create`, with the addresses of the new server and of the two handlers it starts with, and
-- the descriptor from the kernel
pub srv_create : (addr descriptor check check_many : ℕ) → List Server → List Server
unfolding add_handler
srv_create addr descriptor check check_many servers =
    add_handler
      (add_handler (record { addr = addr; id = descriptor; methods = [] }) handlecheck_bivv check)
      handlecheck_bmiv check_many
    ∷ servers

-- `srv_get`
pub srv_get : ℕ → List Server → Option Server
srv_get descriptor [] = none
srv_get descriptor (s ∷ rest) =
    let later = srv_get descriptor rest in if s.id == descriptor then some s else later

-- `srv_delete`: what is left of `servers`, which is never empty after `objsrv_init`
pub srv_delete : ℕ → List Server → List Server
srv_delete addr [] = []
srv_delete addr (s ∷ rest) =
    let later = srv_delete addr rest in if s.addr == addr then rest else s ∷ later

-- A parameter with its type: the union and the fields that its type uses.
pub data Param : Type 0 where
  void_param : Param
  obj_param : ℕ → Param
  long_param : ℕ → Param
  shm_param : (p : ℕ) → (keep_shm : Bool) → (shmsize : ℕ) → Param

-- `struct method_data`, with the server's methods and descriptor
pub record MethodData : Type 0 where
  pub parameters : List Param
  pub func : ℕ
  pub pid : ℕ
  pub blocking : Bool
  pub obj : Server

-- `struct method_ret`: the 64 bits of the union, the type and the status
pub record Ret : Type 0 where
  pub value : ℕ
  pub type : ℕ
  pub status : ℕ

-- `mr_long`, `mr_llong`, `mr_obj`, `mr_void` and `mr_err`
abbrev pub mr_long : ℕ → Ret
mr_long val = record { value = val; type = 2; status = 0 }

abbrev mr_llong : ℕ → Ret
mr_llong val = record { value = val; type = 3; status = 0 }

abbrev pub mr_obj : ℕ → Ret
mr_obj obj = record { value = obj; type = 1; status = 0 }

abbrev pub mr_void : Ret
mr_void = record { value = 0; type = 0; status = 0 }

abbrev pub mr_err : ℕ → Ret
mr_err error = record { value = 0; type = 0; status = error }

-- the test of every one of the `n` methods at `data[i]`, `data[i + 1]`, …
pub handles_all : List Method → (ℕ → ℕ) → (n i : ℕ) → Bool
unfolding get_handler
handles_all methods words_at zero i = true
handles_all methods words_at (suc n) i =
    let later = handles_all methods words_at n (i + 1) in
    if get_handler methods (words_at i) == 0 then false else later

-- `checkIfHandlesMany`; `words_at p` is the array of words at address p
pub check_if_handles_many : (ℕ → ℕ → ℕ) → Server → List Param → Ret
unfolding handles_all
check_if_handles_many words_at o (shm_param p keep size ∷ long_param n ∷ rest) =
    if p == 0
    then mr_long 0
    else if handles_all o.methods (words_at p) n 0
    then mr_long 1
    else mr_long 0
check_if_handles_many words_at o _ = mr_err (u32 - 1)

-- `checkIfHandles`, for the integer in the first parameter
check_if_handles : Server → ℕ → Ret
check_if_handles o m = if get_handler o.methods m == 0 then mr_long 0 else mr_long 1

-- `struct user_request`
pub record Request : Type 0 where
  pub func : ℕ
  pub params : ℕ → ℕ
  pub shmsize : ℕ → ℕ
  pub is_blocking : Bool
  pub pid : ℕ

-- The system calls of `srv_handle` after `request_get`.
pub data Call : Type 0 where
  request_answer : (id a b status : ℕ) → Call
  request_map_shm : (id p number : ℕ) → Call
  shm_delete : (p : ℕ) → Call

-- `ME_UNHANDLED`
abbrev me_unhandled : ℕ
me_unhandled = u32 - 32767

-- A parameter of shared memory that is not mapped yet, at the area that was found for it.
abbrev map_area : (id i size : ℕ) → ℕ × List Block → Param × List Block × List Call
map_area id i size (p, bs) =
    if p == 0
    then (shm_param 0 true size, bs, [])
    else (shm_param p false size, bs, request_map_shm id p i ∷ [])

-- The body of the loop that gets the parameters.
pub get_param : (id i : ℕ) → Request → List Block → Param × List Block × List Call
get_param id i rq bs =
    let n = rq.func / 2 ^ (28 - 2 * i) % 4 in
    if n == 1
    then (obj_param (rq.params i), bs, [])
    else if n == 2
    then (long_param (rq.params i), bs, [])
    else if n == 3
    then (if rq.params i == 0
        then map_area id i (rq.shmsize i) (alloc (rq.shmsize i) bs)
        else (shm_param (rq.params i) true (rq.shmsize i), bs, []))
    else (void_param, bs, [])

-- The loop, from parameter `i` on with `n` left.
pub get_params : (n id i : ℕ) → Request → List Block → List Param × List Block × List Call
unfolding get_param
get_params zero id i rq bs = ([], bs, [])
get_params (suc n) id i rq bs =
    let (p, bs1, calls1) = get_param id i rq bs in
    let (ps, bs2, calls2) = get_params n id (i + 1) rq bs1 in (p ∷ ps, bs2, calls1 ++ calls2)

-- The two words of the answer.
abbrev pub words : Ret → ℕ × ℕ
words ret =
    if (ret.type == 1) || (ret.type == 2)
    then (ret.value % u32, 0)
    else if ret.type == 3
    then (ret.value % u32, ret.value / u32 % u32)
    else (0, 0)

-- The loop after the answer to a request: `shm_free` of what was shared.
pub free_params : List Param → List Block → List Block
free_params [] bs = bs
free_params (shm_param p keep size ∷ ps) bs =
    if p == 0 then free_params ps bs else free_params ps (free p bs)
free_params (_ ∷ ps) bs = free_params ps bs

-- The loop after a message: `shm_freeDel` of what had to be mapped.
pub delete_params : List Param → List Block → List Block × List Call
delete_params [] bs = (bs, [])
delete_params (shm_param p false size ∷ ps) bs =
    let (bs', calls) = delete_params ps (free p bs) in (bs', shm_delete p ∷ calls)
delete_params (shm_param p true size ∷ ps) bs = delete_params ps bs
delete_params (_ ∷ ps) bs = delete_params ps bs

-- `srv_handle` after `request_get` has returned 0 and the request, but for `HA_LOOP`.
pub handle :
    (call_method : ℕ → MethodData → List Block → Ret × List Block)
    → Server
    → Request
    → List Block
    → List Block × List Call
handle call_method o rq bs =
    let m = get_handler o.methods rq.func in
    let (ps, bs1, calls) = get_params 3 o.id 0 rq bs in
    let md : MethodData = record {
      parameters = ps;
      func = rq.func;
      pid = rq.pid;
      blocking = rq.is_blocking;
      obj = o;
    } in
    let (ret, bs2) = call_method m md bs1 in
    let (a, b) = words ret in
    let (bs3, deletes) = delete_params ps bs2 in
    if m == 0
    then (bs, if rq.is_blocking then request_answer o.id 0 0 me_unhandled ∷ [] else [])
    else if rq.is_blocking
    then (free_params ps bs2, calls ++ request_answer o.id a b ret.status ∷ [])
    else (bs3, calls ++ deletes)
