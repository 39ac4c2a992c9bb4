-- ===== src/Kernel/Ipc/Store.antt =====
-- The kernel's objects and object descriptors (`struct object` and `struct obj_descriptor` of
-- src/kernel/ipc/object.h), and the two fields of `struct process` that lead to the descriptors.
-- Each field is a function of the address. A block that `kfree` took back is not live, and an
-- access to it, or through null, is a fault.
use grapes.Prelude.{ℕ, ◌-◌, Bool, true, false, ◌&&◌, ltb}
use grapes.Prelude.Pointers.{Ptr}
use grapes.Word.{u32}

pub record Store : Type 0 where
  pub obj_live : Ptr → Bool
  pub owner : Ptr → Ptr
  pub descriptors : Ptr → ℕ
  pub busy_mutex : Ptr → ℕ
  pub request : Ptr → Ptr
  pub wakeup_on_rq : Ptr → Ptr
  pub desc_live : Ptr → Bool
  pub desc_obj : Ptr → Ptr
  pub desc_id : Ptr → ℕ
  pub desc_next : Ptr → Ptr
  pub objects : Ptr → Ptr
  pub next_objdesc : Ptr → ℕ

-- How a call ends.
pub data Run (A : Type 0) : Type 0 where
  ok : A → Store → Run A
  fault : Run A
  out_of_fuel : Run A

abbrev pub Cmd : Type 0 → Type 0
Cmd A = Store → Run A

abbrev pub pure : {A : Type 0} → A → Cmd A
pure a s = ok a s

infixl 5 ◌>>=◌ ◌>>◌
abbrev pub ◌>>=◌ : {A B : Type 0} → Cmd A → (A → Cmd B) → Cmd B
◌>>=◌ m f s = elim (m s) [ ok a s' ↦ f a s' | fault ↦ fault | out_of_fuel ↦ out_of_fuel ]

abbrev pub ◌>>◌ : {B : Type 0} → Cmd (Unit {0}) → Cmd B → Cmd B
m >> k = m >>= λ _. k

-- What an access to an object or a descriptor needs: that it is live.
abbrev pub need : {A : Type 0} → Bool → Run A → Run A
need true r = r
need false r = fault

-- -1 as the `int` that the functions return
abbrev pub minus_one : ℕ
minus_one = u32 - 1

-- `n > 0` of an `int`
abbrev pub positive : ℕ → Bool
positive n = ltb 0 n && ltb n 0x80000000

-- The number of steps that a walk over the descriptors of a process gets.
abbrev pub walk_fuel : Ptr → Store → ℕ
walk_fuel p s = s.next_objdesc p
