-- ===== src/Library/Server/Handling.antt =====
-- What the handling of one request does.
use grapes.Prelude.{
  ℕ, zero, suc, ◌+◌, ◌≡◌, refl, ap, ◌∙◌, sym, true, false, List, [], ◌∷◌, ◌++◌, if◌then◌else◌,
  arith,
}
use mathlib.Core.List.{append-nil}
use grapes.Library.Shm.{Block, free}
use grapes.Library.Server.{
  Server, Param, shm_param, long_param, obj_param, void_param, MethodData, Ret, Request, Call,
  request_answer, request_map_shm, shm_delete, get_handler, get_param, get_params, words,
  delete_params, handle,
}

-- how often a request is answered
abbrev pub answers : List Call → ℕ
answers [] = 0
answers (request_answer id a b status ∷ cs) = 1 + answers cs
answers (_ ∷ cs) = answers cs

-- the areas that shared memory is mapped to
abbrev pub mapped : List Call → List ℕ
mapped [] = []
mapped (request_map_shm id p number ∷ cs) = p ∷ mapped cs
mapped (_ ∷ cs) = mapped cs

-- the areas whose shared memory is deleted
abbrev pub deleted : List Call → List ℕ
deleted [] = []
deleted (shm_delete p ∷ cs) = p ∷ deleted cs
deleted (_ ∷ cs) = deleted cs

answers-append : (cs ds : List Call) → answers (cs ++ ds) ≡ answers cs + answers ds
answers-append [] ds = omega arith
answers-append (request_answer id a b status ∷ cs) ds = omega (arith, answers-append cs ds)
answers-append (request_map_shm id p number ∷ cs) ds = answers-append cs ds
answers-append (shm_delete p ∷ cs) ds = answers-append cs ds

get_param-answers :
    (id i : ℕ) (rq : Request) (bs : List Block) → answers (get_param id i rq bs).2 ≡ 0
unfolding get_param
get_param-answers id i rq bs = ground arith

get_params-answers :
    (n id i : ℕ) (rq : Request) (bs : List Block) → answers (get_params n id i rq bs).2 ≡ 0
unfolding get_params
get_params-answers zero id i rq bs = refl
get_params-answers (suc n) id i rq bs = omega (
  arith,
  answers-append (get_param id i rq bs).2 (get_params n id (i + 1) rq (get_param id i rq bs).1).2,
  get_param-answers id i rq bs,
  get_params-answers n id (i + 1) rq (get_param id i rq bs).1,
)

delete_params-answers : (ps : List Param) (bs : List Block) → answers (delete_params ps bs).1 ≡ 0
unfolding delete_params
delete_params-answers [] bs = refl
delete_params-answers (shm_param p false size ∷ ps) bs = delete_params-answers ps (free p bs)
delete_params-answers (shm_param p true size ∷ ps) bs = delete_params-answers ps bs
delete_params-answers (void_param ∷ ps) bs = delete_params-answers ps bs
delete_params-answers (obj_param o ∷ ps) bs = delete_params-answers ps bs
delete_params-answers (long_param n ∷ ps) bs = delete_params-answers ps bs

-- A blocking request is answered exactly once, whatever its method, and a message never.
pub handle-answers :
    (call_method : ℕ → MethodData → List Block → Ret × List Block) (o : Server) (rq : Request)
    (bs : List Block)
    → answers (handle call_method o rq bs).1 ≡ (if rq.is_blocking then 1 else 0)
unfolding handle
handle-answers call_method o rq bs =
    let m = get_handler o.methods rq.func in
    let got = get_params 3 o.id 0 rq bs in
    let md : MethodData = record {
      parameters = got.0;
      func = rq.func;
      pid = rq.pid;
      blocking = rq.is_blocking;
      obj = o;
    } in
    let done = call_method m md got.1 in
    let ret = done.0 in
    let a = (words ret).0 in
    let b = (words ret).1 in
    let deletes = (delete_params got.0 done.1).1 in
    ground (
      arith,
      answers-append got.2 (request_answer o.id a b ret.status ∷ []),
      answers-append got.2 deletes,
      get_params-answers 3 o.id 0 rq bs,
      delete_params-answers got.0 done.1,
    )

mapped-append : (cs ds : List Call) → mapped (cs ++ ds) ≡ mapped cs ++ mapped ds
mapped-append [] ds = refl
mapped-append (request_answer id a b status ∷ cs) ds = mapped-append cs ds
mapped-append (request_map_shm id p number ∷ cs) ds = rw (mapped-append cs ds)
mapped-append (shm_delete p ∷ cs) ds = mapped-append cs ds

deleted-append : (cs ds : List Call) → deleted (cs ++ ds) ≡ deleted cs ++ deleted ds
deleted-append [] ds = refl
deleted-append (request_answer id a b status ∷ cs) ds = deleted-append cs ds
deleted-append (request_map_shm id p number ∷ cs) ds = deleted-append cs ds
deleted-append (shm_delete p ∷ cs) ds = rw (deleted-append cs ds)

-- the areas that are to be unmapped
abbrev to_unmap : List Param → List ℕ
to_unmap [] = []
to_unmap (shm_param p false size ∷ ps) = p ∷ to_unmap ps
to_unmap (shm_param p true size ∷ ps) = to_unmap ps
to_unmap (_ ∷ ps) = to_unmap ps

get_param-mapped :
    (id i : ℕ) (rq : Request) (bs : List Block)
    → (mapped (get_param id i rq bs).2 ≡ to_unmap ((get_param id i rq bs).0 ∷ []))
      × (deleted (get_param id i rq bs).2 ≡ [])
unfolding get_param
get_param-mapped id i rq bs = ground arith

to_unmap-cons : (p : Param) (ps : List Param) → to_unmap (p ∷ ps) ≡ to_unmap (p ∷ []) ++ to_unmap ps
to_unmap-cons void_param ps = refl
to_unmap-cons (obj_param o) ps = refl
to_unmap-cons (long_param n) ps = refl
to_unmap-cons (shm_param p false size) ps = refl
to_unmap-cons (shm_param p true size) ps = refl

get_params-mapped :
    (n id i : ℕ) (rq : Request) (bs : List Block)
    → (mapped (get_params n id i rq bs).2 ≡ to_unmap (get_params n id i rq bs).0)
      × (deleted (get_params n id i rq bs).2 ≡ [])
unfolding get_params
get_params-mapped zero id i rq bs = (refl, refl)
get_params-mapped (suc n) id i rq bs =
    let (p, bs1, calls1) = get_param id i rq bs in
    let (ps, bs2, calls2) = get_params n id (i + 1) rq bs1 in
    let (first, first_none) = get_param-mapped id i rq bs in
    let (rest, rest_none) = get_params-mapped n id (i + 1) rq bs1 in
    (
      mapped-append calls1 calls2 ∙ ap2 first rest ∙ sym (to_unmap-cons p ps),
      deleted-append calls1 calls2 ∙ ap2 first_none rest_none,
    )
  where
    ap2 : {a b c d : List ℕ} → a ≡ b → c ≡ d → a ++ c ≡ b ++ d
    ap2 e e' = cc

delete_params-deleted :
    (ps : List Param) (bs : List Block)
    → (deleted (delete_params ps bs).1 ≡ to_unmap ps) × (mapped (delete_params ps bs).1 ≡ [])
unfolding delete_params
delete_params-deleted [] bs = (refl, refl)
delete_params-deleted (shm_param p false size ∷ ps) bs =
    let (d, m) = delete_params-deleted ps (free p bs) in (ap (λ q. p ∷ q) d, m)
delete_params-deleted (shm_param p true size ∷ ps) bs = delete_params-deleted ps bs
delete_params-deleted (void_param ∷ ps) bs = delete_params-deleted ps bs
delete_params-deleted (obj_param o ∷ ps) bs = delete_params-deleted ps bs
delete_params-deleted (long_param n ∷ ps) bs = delete_params-deleted ps bs

-- After a message, the shared memory of exactly the areas that were mapped for it is deleted, in
-- the same order; after a blocking request none is.
pub handle-deleted :
    (call_method : ℕ → MethodData → List Block → Ret × List Block) (o : Server) (rq : Request)
    (bs : List Block)
    → let calls = (handle call_method o rq bs).1 in
      deleted calls ≡ (if rq.is_blocking then [] else mapped calls)
unfolding handle
handle-deleted call_method o rq bs =
    let got = get_params 3 o.id 0 rq bs in
    let md : MethodData = record {
      parameters = got.0;
      func = rq.func;
      pid = rq.pid;
      blocking = rq.is_blocking;
      obj = o;
    } in
    let done = call_method (get_handler o.methods rq.func) md got.1 in
    let ret = done.0 in
    let answer = request_answer o.id (words ret).0 (words ret).1 ret.status ∷ [] in
    let deletes = (delete_params got.0 done.1).1 in
    let (same, none_yet) = get_params-mapped 3 o.id 0 rq bs in
    let (gone, no_more) = delete_params-deleted got.0 done.1 in
    let no_answer : deleted (got.2 ++ answer) ≡ [] =
      deleted-append got.2 answer ∙ rw none_yet refl in
    let after : deleted (got.2 ++ deletes) ≡ mapped (got.2 ++ deletes) =
      deleted-append got.2 deletes
      ∙ joined none_yet gone same no_more
      ∙ sym (mapped-append got.2 deletes) in
    ground (arith, no_answer, after)
  where
    joined : {d u m n : List ℕ} {x : List ℕ} → d ≡ [] → u ≡ x → m ≡ x → n ≡ [] → d ++ u ≡ m ++ n
    joined {x = x} e f g h = rw (e, f, g, h) (sym (append-nil x))
