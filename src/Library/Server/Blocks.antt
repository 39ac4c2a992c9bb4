-- ===== src/Library/Server/Blocks.antt =====
-- The blocks of shared memory before and after the handling of a request.
use grapes.Prelude.{ℕ, zero, suc, ◌+◌, ◌<◌, ◌≤◌, true, false, List, [], ◌∷◌, arith}
use grapes.Word.{page_up}
use grapes.Library.Shm.{Block, free}
use grapes.Library.Shm.Alloc.{Pages}
use grapes.Library.Shm.Ownership.{IsValid, ready-IsValid, alloc-IsValid}
use grapes.Library.Shm.Release.{free-IsValid}
use grapes.Library.Server.{
  Server, Param, shm_param, long_param, obj_param, void_param, MethodData, Ret, Request,
  get_handler, get_param, get_params, free_params, delete_params, handle,
}

get_param-IsValid :
    (id i : ℕ) (rq : Request) (bs : List Block)
    → Pages (page_up (rq.shmsize i))
    → IsValid bs
    → IsValid (get_param id i rq bs).1
unfolding get_param
get_param-IsValid id i rq bs pages v =
    ground (arith, v, alloc-IsValid (rq.shmsize i) bs (ready-IsValid bs v) pages)

get_params-IsValid :
    (n id i : ℕ) (rq : Request) (bs : List Block)
    → ((j : ℕ) → i ≤ j → j < i + n → Pages (page_up (rq.shmsize j)))
    → IsValid bs
    → IsValid (get_params n id i rq bs).1
unfolding get_params
get_params-IsValid zero id i rq bs pages v = v
get_params-IsValid (suc n) id i rq bs pages v =
    get_params-IsValid n id (i + 1) rq (get_param id i rq bs).1
      (λ j l l'. pages j (omega arith) (omega arith))
      (get_param-IsValid id i rq bs (pages i (omega arith) (omega arith)) v)

free_params-IsValid : (ps : List Param) (bs : List Block) → IsValid bs → IsValid (free_params ps bs)
unfolding free_params
free_params-IsValid [] bs v = v
free_params-IsValid (shm_param p keep size ∷ ps) bs v =
    ground
      (arith, free_params-IsValid ps bs v, free_params-IsValid ps (free p bs) (free-IsValid p bs v))
free_params-IsValid (void_param ∷ ps) bs v = free_params-IsValid ps bs v
free_params-IsValid (obj_param o ∷ ps) bs v = free_params-IsValid ps bs v
free_params-IsValid (long_param n ∷ ps) bs v = free_params-IsValid ps bs v

delete_params-IsValid :
    (ps : List Param) (bs : List Block) → IsValid bs → IsValid (delete_params ps bs).0
unfolding delete_params
delete_params-IsValid [] bs v = v
delete_params-IsValid (shm_param p false size ∷ ps) bs v =
    delete_params-IsValid ps (free p bs) (free-IsValid p bs v)
delete_params-IsValid (shm_param p true size ∷ ps) bs v = delete_params-IsValid ps bs v
delete_params-IsValid (void_param ∷ ps) bs v = delete_params-IsValid ps bs v
delete_params-IsValid (obj_param o ∷ ps) bs v = delete_params-IsValid ps bs v
delete_params-IsValid (long_param n ∷ ps) bs v = delete_params-IsValid ps bs v

-- When the handlers keep the blocks valid and no size rounds to 0, the handling of any request or
-- message keeps them valid.
pub handle-IsValid :
    (call_method : ℕ → MethodData → List Block → Ret × List Block) (o : Server) (rq : Request)
    (bs : List Block)
    → ((m : ℕ) (md : MethodData) (cs : List Block) → IsValid cs → IsValid (call_method m md cs).1)
    → ((j : ℕ) → j < 3 → Pages (page_up (rq.shmsize j)))
    → IsValid bs
    → IsValid (handle call_method o rq bs).0
unfolding handle
handle-IsValid call_method o rq bs keeps pages v =
    let m = get_handler o.methods rq.func in
    let got = get_params 3 o.id 0 rq bs in
    let md : MethodData = record {
      parameters = got.0;
      func = rq.func;
      pid = rq.pid;
      blocking = rq.is_blocking;
      obj = o;
    } in
    let done = call_method m md got.1 in
    let kept =
      keeps m md got.1 (get_params-IsValid 3 o.id 0 rq bs (λ j l l'. pages j (omega arith)) v) in
    ground
      (arith, v, free_params-IsValid got.0 done.1 kept, delete_params-IsValid got.0 done.1 kept)
