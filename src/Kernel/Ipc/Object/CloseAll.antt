-- ===== src/Kernel/Ipc/Object/CloseAll.antt =====
-- `obj_closeP` of the newest descriptor, and `obj_closeall`.
use grapes.Prelude.{
  ℕ, zero, suc, ◌≡◌, ◌≢◌, refl, ◌≤◌, Bool, true, false, ◌&&◌, List, [], ◌∷◌, arith, ◌==◌, length,
  Bool-cases, inl, inr,
}
use mathlib.Core.Path.{subst, sym}
use grapes.Prelude.Pointers.{Ptr, null, update}
use grapes.Kernel.Ipc.Store.{Store, Run, ok, positive}
use grapes.Kernel.Ipc.Object.{obj_delete, release_object, obj_close_p, closeall_loop, obj_closeall}
use grapes.Kernel.Ipc.Object.Valid.{has_id, has_obj, Cells, IsValid, objdesc_read-ok}
use grapes.Kernel.Ipc.Object.Remove.{removed, removed-IsValid, objdesc_rm-ok, has_obj-removed}

-- The owners and the liveness of objects are written.
abbrev touched : (Ptr → Ptr) → (Ptr → Bool) → Store → Store
touched f g s = record s { owner = f; obj_live = g }

module _ (f : Ptr → Ptr) (g : Ptr → Bool) (s : Store) where
  has_id-touched : (i : ℕ) (xs : List Ptr) → has_id (touched f g s) i xs ≡ has_id s i xs
  has_id-touched i [] = refl
  has_id-touched i (y ∷ xs) = ground (arith, has_id-touched i xs)

  has_obj-touched : (o : Ptr) (xs : List Ptr) → has_obj (touched f g s) o xs ≡ has_obj s o xs
  has_obj-touched o [] = refl
  has_obj-touched o (y ∷ xs) = ground (arith, has_obj-touched o xs)

  Cells-touched :
      (bound : ℕ) (xs : List Ptr)
      → ((a : Ptr) → has_obj s a xs ≡ true → g a ≡ s.obj_live a)
      → Cells s bound xs
      → Cells (touched f g s) bound xs
  Cells-touched bound [] same c = tt
  Cells-touched bound (y ∷ xs) same c = ground (
    arith,
    Cells-touched bound xs (λ a h. same a (ground arith)) c.6,
    has_id-touched (s.desc_id y) xs,
    has_obj-touched (s.desc_obj y) xs,
    same (s.desc_obj y),
  )

  IsValid-touched :
      (p : Ptr) (xs : List Ptr)
      → ((a : Ptr) → has_obj s a xs ≡ true → g a ≡ s.obj_live a)
      → IsValid s p xs
      → IsValid (touched f g s) p xs
  IsValid-touched p xs same v = record {
    chain = v.chain;
    distinct = v.distinct;
    cells = Cells-touched (s.next_objdesc p) xs same v.cells;
    count = v.count;
    room = v.room;
    null_dead = v.null_dead;
  }

-- The call succeeds in a state where the descriptors of `p` are `xs`.
abbrev Leaves : Ptr → List Ptr → Run (Unit {0}) → Type 0
Leaves p xs r = (s : Store) × (r ≡ ok tt s) × IsValid s p xs

module _ (s : Store) (p o : Ptr) (xs : List Ptr) (v : IsValid s p xs) (live : s.obj_live o ≡ true)
    (gone : has_obj s o xs ≡ false) where
  freed-Leaves : Leaves p xs (ok tt (record s { obj_live = update s.obj_live o false }))
  freed-Leaves = (
    touched s.owner (update s.obj_live o false) s,
    refl,
    IsValid-touched s.owner (update s.obj_live o false) s p xs
        (λ a h. elim (Bool-cases (o == a)) [
          | inr other ↦ rw other
          | inl same ↦ let e : o ≡ a = ground arith in ground (arith, gone, h, e)
        ])
        v,
  )

  obj_delete-Leaves : Leaves p xs (obj_delete o s)
  unfolding obj_delete
  obj_delete-Leaves = rw live (elim (Bool-cases (positive (s.descriptors o))) [
    | inl many ↦ rw many (s, refl, v)
    | inr few ↦ rw few (elim (Bool-cases (s.busy_mutex o == 0)) [
      | inr busy ↦ rw busy (s, refl, v)
      | inl idle ↦ rw idle (elim (Bool-cases (s.request o == null)) [
        | inr pending ↦ rw pending (s, refl, v)
        | inl quiet ↦ rw quiet freed-Leaves
      ])
    ])
  ])

  release_object-Leaves : Leaves p xs (release_object p o s)
  unfolding release_object
  release_object-Leaves = rw live (elim (Bool-cases (s.owner o == p)) [
    | inl own ↦ rw own (elim (Bool-cases (positive (s.descriptors o))) [
      | inl many ↦ rw many (
        touched (update s.owner o null) s.obj_live s,
        refl,
        IsValid-touched (update s.owner o null) s.obj_live s p xs (λ a h. refl) v,
      )
      | inr few ↦ rw few obj_delete-Leaves
    ])
    | inr other ↦ rw other (elim (Bool-cases ((s.descriptors o == 0) && (s.owner o == null))) [
      | inl orphan ↦ rw orphan obj_delete-Leaves
      | inr kept ↦ rw kept (s, refl, v)
    ])
  ])

module _ (s : Store) (p x : Ptr) (xs : List Ptr) (v : IsValid s p (x ∷ xs)) where
  -- `obj_closeP` of the newest descriptor of a process ends with no fault and leaves the process
  -- with the other descriptors, well formed, whatever becomes of the object.
  obj_close_p-first : (s' : Store) × (obj_close_p p (s.desc_id x) s ≡ ok tt s') × IsValid s' p xs
  unfolding obj_close_p
  obj_close_p-first = subst (Leaves p xs) (sym run) done
    where
      o : Ptr
      o = s.desc_obj x

      done : Leaves p xs (release_object p o (removed p x s))
      done =
          release_object-Leaves (removed p x s) p o xs (removed-IsValid s p x xs v)
            (ground (arith, v.cells.1)) (ground (arith, has_obj-removed p x s o xs, v.cells.5))

      run : obj_close_p p (s.desc_id x) s ≡ release_object p o (removed p x s)
      run =
          ground (
            arith,
            objdesc_read-ok s p (s.desc_id x) (x ∷ xs) v,
            objdesc_rm-ok s p x xs v,
            v.cells.2,
          )

closeall_step :
    (k : ℕ) (p x : Ptr) (s s' : Store)
    → s.objects p ≡ x
    → x ≢ null
    → s.desc_live x ≡ true
    → obj_close_p p (s.desc_id x) s ≡ ok tt s'
    → closeall_loop (suc k) p s ≡ closeall_loop k p s'
unfolding closeall_loop
closeall_step k p x s s' at ne live closed = ground arith

closeall_loop_lem :
    (k : ℕ) (p : Ptr) (xs : List Ptr) (s : Store)
    → length xs ≤ k
    → IsValid s p xs
    → Leaves p [] (closeall_loop k p s)
unfolding closeall_loop
closeall_loop_lem zero p [] s fuel v = rw v.chain (s, refl, v)
closeall_loop_lem (suc k) p [] s fuel v = rw v.chain (s, refl, v)
closeall_loop_lem zero p (x ∷ xs) s fuel v = absurd (omega arith)
closeall_loop_lem (suc k) p (x ∷ xs) s fuel v =
    let (s', closed, left) = obj_close_p-first s p x xs v in
    subst (Leaves p []) (sym (closeall_step k p x s s' v.chain.0 v.chain.1 v.cells.0 closed))
      (closeall_loop_lem k p xs s' (omega arith) left)

-- `obj_closeall` closes every descriptor of a process: it ends within its rounds, with no fault,
-- and the process then holds no descriptor.
pub obj_closeall-nil :
    (s : Store) (p : Ptr) (xs : List Ptr)
    → IsValid s p xs
    → (s' : Store) × (obj_closeall p s ≡ ok tt s') × (s'.objects p ≡ null)
unfolding obj_closeall
obj_closeall-nil s p xs v =
    let (s', done, left) = closeall_loop_lem (s.next_objdesc p) p xs s v.count v in
    (s', done, left.chain)
