-- ===== src/Kernel/Ipc/Object/Remove.antt =====
-- `objdesc_rm`: right for the first descriptor of a process, and what it does for the others.
use grapes.Prelude.{ℕ, ◌≡◌, ◌≢◌, refl, true, false, List, [], ◌∷◌, arith}
use grapes.Prelude.Pointers.{Ptr, null, update, has}
use grapes.Word.{sub32}
use grapes.Kernel.Ipc.Store.{Store, ok, fault}
use grapes.Kernel.Ipc.Object.{objdesc_read, drop_desc, objdesc_rm}
use grapes.Kernel.Ipc.Object.Valid.{has_id, has_obj, find_id, Cells, IsValid, objdesc_read-ok}

-- A descriptor is freed and its object counts one less.
abbrev pub dropped : Ptr → Store → Store
dropped e s = record s {
  descriptors = update s.descriptors (s.desc_obj e) (sub32 (s.descriptors (s.desc_obj e)) 1);
  desc_live = update s.desc_live e false;
}

pub drop_desc-ok :
    (e : Ptr) (s : Store)
    → s.desc_live e ≡ true
    → s.obj_live (s.desc_obj e) ≡ true
    → drop_desc e s ≡ ok tt (dropped e s)
unfolding drop_desc
drop_desc-ok e s live obj = rw live (rw obj)

pub drop_desc-fault : (e : Ptr) (s : Store) → s.desc_live e ≡ false → drop_desc e s ≡ fault
unfolding drop_desc
drop_desc-fault e s dead = rw dead

-- the state after the first descriptor `x` of a process has been removed
abbrev pub removed : Ptr → Ptr → Store → Store
removed p x s = dropped x (record s { objects = update s.objects p (s.desc_next x) })

module _ (p x : Ptr) (s : Store) where
  find_id-removed : (i : ℕ) (xs : List Ptr) → find_id (removed p x s) i xs ≡ find_id s i xs
  find_id-removed i [] = refl
  find_id-removed i (y ∷ xs) = ground (arith, find_id-removed i xs)

  has_id-removed : (i : ℕ) (xs : List Ptr) → has_id (removed p x s) i xs ≡ has_id s i xs
  has_id-removed i [] = refl
  has_id-removed i (y ∷ xs) = ground (arith, has_id-removed i xs)

  pub has_obj-removed : (o : Ptr) (xs : List Ptr) → has_obj (removed p x s) o xs ≡ has_obj s o xs
  has_obj-removed o [] = refl
  has_obj-removed o (y ∷ xs) = ground (arith, has_obj-removed o xs)

  Cells-removed :
      (bound : ℕ) (xs : List Ptr)
      → has x xs ≡ false
      → Cells s bound xs
      → Cells (removed p x s) bound xs
  Cells-removed bound [] out c = tt
  Cells-removed bound (y ∷ xs) out c = ground (
    arith,
    Cells-removed bound xs (ground arith) c.6,
    has_id-removed (s.desc_id y) xs,
    has_obj-removed (s.desc_obj y) xs,
  )

find_id-absent : (s : Store) (i : ℕ) (xs : List Ptr) → has_id s i xs ≡ false → find_id s i xs ≡ null
find_id-absent s i [] e = refl
find_id-absent s i (x ∷ xs) e = ground (arith, find_id-absent s i xs (ground arith))

module _ (s : Store) (p x : Ptr) (xs : List Ptr) (v : IsValid s p (x ∷ xs)) where
  pub removed-IsValid : IsValid (removed p x s) p xs
  removed-IsValid = record {
    chain = ground (arith, v.chain);
    distinct = v.distinct.1;
    cells = Cells-removed p x s (s.next_objdesc p) xs v.distinct.0 v.cells.6;
    count = omega (arith, v.count);
    room = v.room;
    null_dead = ground (arith, v.null_dead);
  }

  pub objdesc_rm-ok : objdesc_rm p (s.desc_id x) s ≡ ok tt (removed p x s)
  unfolding objdesc_rm
  objdesc_rm-ok = ground (
    arith,
    v.chain,
    v.cells.0,
    drop_desc-ok x (record s { objects = update s.objects p (s.desc_next x) }) v.cells.0 v.cells.1,
  )

  -- `objdesc_rm` of the newest descriptor of a process frees it, counts one descriptor of its
  -- object less, and leaves the others well formed. The number then reads as no object, and every
  -- other number as before.
  pub objdesc_rm-first :
      (s' : Store) × (objdesc_rm p (s.desc_id x) s ≡ ok tt s')
      × IsValid s' p xs
      × (s'.desc_live x ≡ false)
      × (s'.descriptors (s.desc_obj x) ≡ sub32 (s.descriptors (s.desc_obj x)) 1)
      × (objdesc_read p (s.desc_id x) s' ≡ ok null s')
      × ((i : ℕ) → i ≢ s.desc_id x → objdesc_read p i s' ≡ ok (find_id s i (x ∷ xs)) s')
  objdesc_rm-first = (
    removed p x s,
    objdesc_rm-ok,
    removed-IsValid,
    ground arith,
    ground arith,
    ground (
      arith,
      objdesc_read-ok (removed p x s) p (s.desc_id x) xs removed-IsValid,
      find_id-absent (removed p x s) (s.desc_id x) xs,
      has_id-removed p x s (s.desc_id x) xs,
      v.cells.4,
    ),
    λ i other.
        ground (
          arith,
          objdesc_read-ok (removed p x s) p i xs removed-IsValid,
          find_id-removed p x s i xs,
        ),
  )
