-- ===== src/Kernel/Ipc/Object/Tests.antt =====
-- Runs of the object descriptors, and the theorems about them at a concrete process.
use grapes.Prelude.{
  ℕ, ◌+◌, ◌≡◌, refl, ◌≢◌, true, false, List, [], ◌∷◌, ◌==◌, if◌then◌else◌, arith, leb, ◌&&◌,
}
use grapes.Prelude.Pointers.{Ptr, null}
use grapes.Kernel.Ipc.Store.{Store, ok, fault}
use grapes.Kernel.Ipc.Object.{
  objdesc_read, objdesc_add, objdesc_rm, obj_closeall, object_create, object_owned,
}
use grapes.Kernel.Ipc.Object.Valid.{find_id, IsValid, objdesc_read-ok}
use grapes.Kernel.Ipc.Object.Add.{objdesc_add-new}
use grapes.Kernel.Ipc.Object.Remove.{objdesc_rm-first}
use grapes.Kernel.Ipc.Object.Later.{objdesc_rm-inner}
use grapes.Kernel.Ipc.Object.CloseAll.{obj_closeall-nil}

-- Process 1 holds the descriptors 13, 12 and 11, with the numbers 2, 1 and 0, of its objects 23,
-- 22 and 21; object 24 has no descriptor.
abbrev store : Store
store = record {
  obj_live = λ o. leb 21 o && leb o 24;
  owner = λ o. 1;
  descriptors = λ o. if o == 24 then 0 else 1;
  busy_mutex = λ o. 0;
  request = λ o. null;
  wakeup_on_rq = λ o. null;
  desc_live = λ e. leb 11 e && leb e 13;
  desc_obj = λ e. e + 10;
  desc_id = λ e. if e == 13 then 2 else if e == 12 then 1 else 0;
  desc_next = λ e. if e == 13 then 12 else if e == 12 then 11 else null;
  objects = λ p. if p == 1 then 13 else null;
  next_objdesc = λ p. if p == 1 then 3 else 0;
}

abbrev held : List Ptr
held = 13 ∷ 12 ∷ 11 ∷ []

store-IsValid : IsValid store 1 held
store-IsValid = record {
  chain = ground arith;
  distinct = ground arith;
  cells = ground arith;
  count = omega arith;
  room = omega arith;
  null_dead = refl;
}

objdesc_read-ok_example : objdesc_read 1 1 store ≡ ok (find_id store 1 held) store
objdesc_read-ok_example = objdesc_read-ok store 1 1 held store-IsValid

objdesc_add-new_example :
    (s' : Store) × (objdesc_add 14 1 24 store ≡ ok 3 s')
    × IsValid s' 1 (14 ∷ held)
    × (s'.descriptors 24 ≡ 1)
    × (objdesc_read 1 3 s' ≡ ok 24 s')
    × ((i : ℕ) → i ≢ 3 → objdesc_read 1 i s' ≡ ok (find_id store i held) s')
objdesc_add-new_example =
    objdesc_add-new 14 1 24 store held store-IsValid refl (omega arith) refl (omega arith)
      (omega arith) refl

objdesc_rm-first_example :
    (s' : Store) × (objdesc_rm 1 2 store ≡ ok tt s')
    × IsValid s' 1 (12 ∷ 11 ∷ [])
    × (s'.desc_live 13 ≡ false)
    × (s'.descriptors 23 ≡ 0)
    × (objdesc_read 1 2 s' ≡ ok null s')
    × ((i : ℕ) → i ≢ 2 → objdesc_read 1 i s' ≡ ok (find_id store i held) s')
objdesc_rm-first_example = objdesc_rm-first store 1 13 (12 ∷ 11 ∷ []) store-IsValid

objdesc_rm-inner_example :
    (s' : Store) × (objdesc_rm 1 1 store ≡ ok tt s')
    × (s'.desc_next 13 ≡ 11)
    × (s'.desc_live 11 ≡ false)
    × (s'.desc_live 12 ≡ true)
    × (s'.descriptors 21 ≡ 0)
    × ((o : Ptr) → o ≢ 21 → s'.descriptors o ≡ store.descriptors o)
    × (s'.descriptors 22 ≡ 1)
objdesc_rm-inner_example = objdesc_rm-inner store 1 13 12 11 [] [] store-IsValid

obj_closeall-nil_example : (s' : Store) × (obj_closeall 1 store ≡ ok tt s') × (s'.objects 1 ≡ null)
obj_closeall-nil_example = obj_closeall-nil store 1 held store-IsValid

-- A process creates an object and owns it.
created_owned :
    (let r = object_create 24 14 1 store in elim r [ ok id s ↦ object_owned 1 id s | _ ↦ fault ])
    ≡ (let r = object_create 24 14 1 store in elim r [ ok id s ↦ ok 1 s | _ ↦ fault ])
unfolding object_create object_owned
created_owned = refl
