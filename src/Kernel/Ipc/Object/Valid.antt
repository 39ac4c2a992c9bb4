-- ===== src/Kernel/Ipc/Object/Valid.antt =====
-- When the descriptors of a process are well formed, and what its numbers and objects stand for.
use grapes.Prelude.{
  ℕ, zero, suc, ◌≡◌, ◌≢◌, ◌≤◌, ◌<◌, Bool, true, false, ◌||◌, List, [], ◌∷◌, arith, ◌==◌, length,
  if◌then◌else◌,
}
use grapes.Prelude.Pointers.{Ptr, null, Chain, Distinct}
use grapes.Kernel.Ipc.Store.{Store, ok, minus_one}
use grapes.Kernel.Ipc.Object.{get_loop, read_loop, objdesc_get, objdesc_read}

module _ (s : Store) where
  abbrev pub has_id : ℕ → List Ptr → Bool
  has_id i [] = false
  has_id i (x ∷ xs) = (s.desc_id x == i) || has_id i xs

  abbrev pub has_obj : Ptr → List Ptr → Bool
  has_obj o [] = false
  has_obj o (x ∷ xs) = (s.desc_obj x == o) || has_obj o xs

  -- the object of a number, null for none
  abbrev pub find_id : ℕ → List Ptr → Ptr
  find_id i [] = null
  find_id i (x ∷ xs) = if s.desc_id x == i then s.desc_obj x else find_id i xs

  -- the number of an object, -1 for none
  abbrev pub find_obj : Ptr → List Ptr → ℕ
  find_obj o [] = minus_one
  find_obj o (x ∷ xs) = if s.desc_obj x == o then s.desc_id x else find_obj o xs

  -- The descriptors are allocated and lead to live objects; their numbers are below `bound`, and
  -- no number and no object occurs twice.
  abbrev pub Cells : ℕ → List Ptr → Type 0
  Cells bound [] = Unit
  Cells bound (x ∷ xs) =
      (s.desc_live x ≡ true)
      × (s.obj_live (s.desc_obj x) ≡ true)
      × (s.desc_obj x ≢ null)
      × (s.desc_id x < bound)
      × (has_id (s.desc_id x) xs ≡ false)
      × (has_obj (s.desc_obj x) xs ≡ false)
      × Cells bound xs

-- The process `p` holds the descriptors `xs`, the newest first.
pub record IsValid (s : Store) (p : Ptr) (xs : List Ptr) : Type 0 where
  pub chain : Chain s.desc_next (s.objects p) xs
  pub distinct : Distinct xs
  pub cells : Cells s (s.next_objdesc p) xs
  pub count : length xs ≤ s.next_objdesc p
  pub room : s.next_objdesc p < 0x7fff_ffff
  pub null_dead : s.desc_live null ≡ false

read_loop_lem :
    (k id e bound : ℕ) (xs : List Ptr) (s : Store)
    → length xs ≤ k
    → Chain s.desc_next e xs
    → Cells s bound xs
    → read_loop k id e s ≡ ok (find_id s id xs) s
unfolding read_loop
read_loop_lem zero id e bound [] s fuel c l = rw c
read_loop_lem (suc k) id e bound [] s fuel c l = rw c
read_loop_lem zero id e bound (x ∷ xs) s fuel c l = absurd (omega arith)
read_loop_lem (suc k) id e bound (x ∷ xs) s fuel c l =
    ground (arith, read_loop_lem k id (s.desc_next x) bound xs s (omega arith) c.2 l.6)

get_loop_lem :
    (k o e bound : ℕ) (xs : List Ptr) (s : Store)
    → length xs ≤ k
    → Chain s.desc_next e xs
    → Cells s bound xs
    → get_loop k o e s ≡ ok (find_obj s o xs) s
unfolding get_loop
get_loop_lem zero o e bound [] s fuel c l = rw c
get_loop_lem (suc k) o e bound [] s fuel c l = rw c
get_loop_lem zero o e bound (x ∷ xs) s fuel c l = absurd (omega arith)
get_loop_lem (suc k) o e bound (x ∷ xs) s fuel c l =
    ground (arith, get_loop_lem k o (s.desc_next x) bound xs s (omega arith) c.2 l.6)

-- The walks end without a fault, change nothing, and find what the list says.
pub objdesc_read-ok :
    (s : Store) (p id : ℕ) (xs : List Ptr)
    → IsValid s p xs
    → objdesc_read p id s ≡ ok (find_id s id xs) s
unfolding objdesc_read
objdesc_read-ok s p id xs v =
    read_loop_lem (s.next_objdesc p) id (s.objects p) (s.next_objdesc p) xs s v.count v.chain
      v.cells

pub objdesc_get-ok :
    (s : Store) (p o : Ptr) (xs : List Ptr)
    → IsValid s p xs
    → objdesc_get p o s ≡ ok (find_obj s o xs) s
unfolding objdesc_get
objdesc_get-ok s p o xs v =
    get_loop_lem (s.next_objdesc p) o (s.objects p) (s.next_objdesc p) xs s v.count v.chain v.cells
