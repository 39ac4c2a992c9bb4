-- ===== src/Kernel/Ipc/Object.antt =====
-- src/kernel/ipc/object.c: objects and the descriptors that processes hold. The address that
-- `kmalloc` returns is an argument.
pub mod Valid
pub mod Add
pub mod Remove
pub mod Later
pub mod CloseAll
mod Tests
use grapes.Prelude.{ℕ, zero, suc, ◌+◌, Bool, true, false, ◌&&◌, not, ◌==◌, if◌then◌else◌}
use grapes.Prelude.Pointers.{Ptr, null, update}
use grapes.Word.{add32, sub32}
use grapes.Kernel.Ipc.Store.{
  Store, Run, ok, fault, out_of_fuel, Cmd, pure, ◌>>=◌, ◌>>◌, need, minus_one, positive, walk_fuel,
}

-- `obj_new`; `MUTEX_UNLOCKED` is 0
pub obj_new : (fresh : Ptr) → Ptr → Cmd Ptr
obj_new fresh owner s = ok fresh (record s {
  obj_live = update s.obj_live fresh true;
  owner = update s.owner fresh owner;
  descriptors = update s.descriptors fresh 0;
  busy_mutex = update s.busy_mutex fresh 0;
  request = update s.request fresh null;
  wakeup_on_rq = update s.wakeup_on_rq fresh null;
})

-- `kfree` of an object, and of a descriptor
free_object : Ptr → Cmd (Unit {0})
free_object o s = ok tt (record s { obj_live = update s.obj_live o false })

free_desc : Ptr → Cmd (Unit {0})
free_desc e s = ok tt (record s { desc_live = update s.desc_live e false })

-- `obj_delete`
pub obj_delete : Ptr → Cmd (Unit {0})
unfolding free_object
obj_delete o s = need (s.obj_live o) (
    if positive (s.descriptors o)
    then ok tt s
    else if not (s.busy_mutex o == 0)
    then ok tt s
    else if not (s.request o == null)
    then ok tt s
    else free_object o s)

-- The walk of `objdesc_get`.
pub get_loop : ℕ → Ptr → Ptr → Cmd ℕ
get_loop zero o e s = if e == null then ok minus_one s else out_of_fuel
get_loop (suc k) o e s =
    let rest = get_loop k o (s.desc_next e) s in
    if e == null
    then ok minus_one s
    else need (s.desc_live e) (if s.desc_obj e == o then ok (s.desc_id e) s else rest)

-- `objdesc_get`: the number of the descriptor of an object, or -1
pub objdesc_get : Ptr → Ptr → Cmd ℕ
unfolding get_loop
objdesc_get p o s = get_loop (walk_fuel p s) o (s.objects p) s

-- The walk of `objdesc_read`.
unfoldable pub read_loop : ℕ → ℕ → Ptr → Cmd Ptr
read_loop zero id e s = if e == null then ok null s else out_of_fuel
read_loop (suc k) id e s =
    let rest = read_loop k id (s.desc_next e) s in
    if e == null
    then ok null s
    else need (s.desc_live e) (if s.desc_id e == id then ok (s.desc_obj e) s else rest)

-- `objdesc_read`: the object behind a number, or null
unfoldable pub objdesc_read : Ptr → ℕ → Cmd Ptr
unfolding read_loop
objdesc_read p id s = read_loop (walk_fuel p s) id (s.objects p) s

-- The new descriptor of `objdesc_add`.
pub add_desc : (fresh : Ptr) → Ptr → Ptr → Cmd ℕ
add_desc fresh p o s = need (s.obj_live o) (
    ok (s.next_objdesc p) (record s {
      desc_live = update s.desc_live fresh true;
      desc_obj = update s.desc_obj fresh o;
      desc_id = update s.desc_id fresh (s.next_objdesc p);
      desc_next = update s.desc_next fresh (s.objects p);
      objects = update s.objects p fresh;
      descriptors = update s.descriptors o (add32 (s.descriptors o) 1);
      next_objdesc = update s.next_objdesc p (add32 (s.next_objdesc p) 1);
    }))

-- `objdesc_add`: -1 if the process has a descriptor of the object already
pub objdesc_add : (fresh : Ptr) → Ptr → Ptr → Cmd ℕ
unfolding objdesc_get add_desc
objdesc_add fresh p o = do
  tmp ← objdesc_get p o
  if not (tmp == minus_one) then pure minus_one else add_desc fresh p o

-- `e->obj->descriptors--; kfree(e);`
pub drop_desc : Ptr → Cmd (Unit {0})
unfolding free_desc
drop_desc e s =
    let o = s.desc_obj e in
    need (s.desc_live e) (
      need (s.obj_live o) (
        free_desc e
          (record s { descriptors = update s.descriptors o (sub32 (s.descriptors o) 1) })))

-- The loop of `objdesc_rm` behind a descriptor. As in the source, what is dropped is the
-- descriptor that `e->next` leads to after the one with the number has been unlinked.
pub rm_loop : ℕ → ℕ → Ptr → Cmd (Unit {0})
unfolding drop_desc
rm_loop zero id e s = out_of_fuel
rm_loop (suc k) id e s =
    let n = s.desc_next e in
    let after = s.desc_next n in
    let rest = rm_loop k id n s in
    need (s.desc_live e) (
      if n == null
      then ok tt s
      else need (s.desc_live n) (
          if s.desc_id n == id
          then drop_desc after (record s { desc_next = update s.desc_next e after })
          else rest))

-- `objdesc_rm`; without a descriptor the condition of its loop reads through null
pub objdesc_rm : Ptr → ℕ → Cmd (Unit {0})
unfolding rm_loop drop_desc
objdesc_rm p id s =
    let e = s.objects p in
    if e == null
    then fault
    else need (s.desc_live e) (
        if s.desc_id e == id
        then drop_desc e (record s { objects = update s.objects p (s.desc_next e) })
        else rm_loop (walk_fuel p s) id e s)

-- What `obj_closeP` does with the object once its descriptor is gone.
pub release_object : Ptr → Ptr → Cmd (Unit {0})
release_object p o s = need (s.obj_live o) (
    if s.owner o == p
    then (if positive (s.descriptors o)
        then ok tt (record s { owner = update s.owner o null })
        else obj_delete o s)
    else (if (s.descriptors o == 0) && (s.owner o == null) then obj_delete o s else ok tt s))

-- `obj_closeP`
pub obj_close_p : Ptr → ℕ → Cmd (Unit {0})
obj_close_p p id = do
  o ← objdesc_read p id
  if o == null then pure tt else do objdesc_rm p id; release_object p o

-- `obj_closeall`
pub closeall_loop : ℕ → Ptr → Cmd (Unit {0})
closeall_loop zero p s = if s.objects p == null then ok tt s else out_of_fuel
closeall_loop (suc k) p s =
    let e = s.objects p in
    if e == null
    then ok tt s
    else need (s.desc_live e) ((obj_close_p p (s.desc_id e) >> closeall_loop k p) s)

pub obj_closeall : Ptr → Cmd (Unit {0})
unfolding closeall_loop
obj_closeall p s = closeall_loop (walk_fuel p s) p s

-- `obj_createP`; the two blocks are taken for the object and for its descriptor
obj_create_p : (fresh fresh_desc : Ptr) → Ptr → Cmd ℕ
unfolding obj_new objdesc_add
obj_create_p fresh fresh_desc p = do o ← obj_new fresh p; objdesc_add fresh_desc p o

-- The system calls of a thread of process `p`: `object_create`, `object_owned`, `object_close`.
pub object_create : (fresh fresh_desc : Ptr) → (p : Ptr) → Cmd ℕ
unfolding obj_create_p
object_create fresh fresh_desc p = obj_create_p fresh fresh_desc p

pub object_owned : (p : Ptr) → ℕ → Cmd ℕ
unfolding objdesc_read
object_owned p id = do
  o ← objdesc_read p id
  if o == null
      then pure (sub32 0 10)
      else do λ s. need (s.obj_live o) (ok (if s.owner o == p then 1 else 0) s)

pub object_close : (p : Ptr) → ℕ → Cmd (Unit {0})
unfolding obj_close_p
object_close p id = obj_close_p p id
