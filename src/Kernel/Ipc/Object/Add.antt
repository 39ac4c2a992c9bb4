-- ===== src/Kernel/Ipc/Object/Add.antt =====
-- `objdesc_add`.
use grapes.Prelude.{ℕ, ◌+◌, ◌≡◌, ◌≢◌, refl, ◌≤◌, ◌<◌, true, false, List, [], ◌∷◌, arith}
use grapes.Prelude.Pointers.{Ptr, null, update, has, Chain-update}
use grapes.Word.{add32}
use grapes.Kernel.Ipc.Store.{Store, ok, minus_one}
use grapes.Kernel.Ipc.Object.{objdesc_read, add_desc, objdesc_add}
use grapes.Kernel.Ipc.Object.Valid.{
  has_id, has_obj, find_id, find_obj, Cells, IsValid, objdesc_read-ok, objdesc_get-ok,
}

-- the state after a descriptor of `o` has been put in front
abbrev pub added : Ptr → Ptr → Ptr → Store → Store
added fresh p o s = record s {
  desc_live = update s.desc_live fresh true;
  desc_obj = update s.desc_obj fresh o;
  desc_id = update s.desc_id fresh (s.next_objdesc p);
  desc_next = update s.desc_next fresh (s.objects p);
  objects = update s.objects p fresh;
  descriptors = update s.descriptors o (add32 (s.descriptors o) 1);
  next_objdesc = update s.next_objdesc p (add32 (s.next_objdesc p) 1);
}

module _ (fresh p o : Ptr) (s : Store) where
  find_id-added :
      (i : ℕ) (xs : List Ptr)
      → has fresh xs ≡ false
      → find_id (added fresh p o s) i xs ≡ find_id s i xs
  find_id-added i [] out = refl
  find_id-added i (x ∷ xs) out = ground (arith, find_id-added i xs (ground arith))

  has_id-added :
      (i : ℕ) (xs : List Ptr)
      → has fresh xs ≡ false
      → has_id (added fresh p o s) i xs ≡ has_id s i xs
  has_id-added i [] out = refl
  has_id-added i (x ∷ xs) out = ground (arith, has_id-added i xs (ground arith))

  has_obj-added :
      (i : Ptr) (xs : List Ptr)
      → has fresh xs ≡ false
      → has_obj (added fresh p o s) i xs ≡ has_obj s i xs
  has_obj-added i [] out = refl
  has_obj-added i (x ∷ xs) out = ground (arith, has_obj-added i xs (ground arith))

  Cells-added :
      (bound : ℕ) (xs : List Ptr)
      → has fresh xs ≡ false
      → Cells s bound xs
      → Cells (added fresh p o s) (bound + 1) xs
  Cells-added bound [] out c = tt
  Cells-added bound (x ∷ xs) out c = ground (
    arith,
    Cells-added bound xs (ground arith) c.6,
    has_id-added (s.desc_id x) xs (ground arith),
    has_obj-added (s.desc_obj x) xs (ground arith),
  )

-- Numbers that have not been given out are in no descriptor.
has_id-bound :
    (s : Store) (i bound : ℕ) (xs : List Ptr) → Cells s bound xs → bound ≤ i → has_id s i xs ≡ false
has_id-bound s i bound [] c h = refl
has_id-bound s i bound (x ∷ xs) c h = ground (arith, has_id-bound s i bound xs c.6 h)

-- -1 is the number of no descriptor.
has_obj-minus_one :
    (s : Store) (o : Ptr) (bound : ℕ) (xs : List Ptr)
    → Cells s bound xs
    → bound < 0x7fff_ffff
    → find_obj s o xs ≡ minus_one
    → has_obj s o xs ≡ false
has_obj-minus_one s o bound [] c h e = refl
has_obj-minus_one s o bound (x ∷ xs) c h e = ground (arith, has_obj-minus_one s o bound xs c.6 h)

module _ (fresh p o : Ptr) (s : Store) (xs : List Ptr) (v : IsValid s p xs)
    (live : s.obj_live o ≡ true) (nonnull : o ≢ null) (unused : has fresh xs ≡ false)
    (room : s.next_objdesc p < 0x7fff_fffe) where
  add_desc-ok : add_desc fresh p o s ≡ ok (s.next_objdesc p) (added fresh p o s)
  unfolding add_desc
  add_desc-ok = ground arith

  added-IsValid : fresh ≢ null → has_obj s o xs ≡ false → IsValid (added fresh p o s) p (fresh ∷ xs)
  added-IsValid ne out = record {
    chain =
        ground
          (arith, Chain-update s.desc_next (s.objects p) fresh (s.objects p) xs unused v.chain);
    distinct = (unused, v.distinct);
    cells = ground (
      arith,
      Cells-added fresh p o s (s.next_objdesc p) xs unused v.cells,
      has_id-bound s (s.next_objdesc p) (s.next_objdesc p) xs v.cells,
      has_id-added fresh p o s (s.next_objdesc p) xs unused,
      has_obj-added fresh p o s o xs unused,
      v.room,
    );
    count = ground (arith, v.count, v.room);
    room = ground arith;
    null_dead = ground (arith, v.null_dead);
  }

  -- `objdesc_add` of an object that the process has no descriptor of returns the next number,
  -- counts one more descriptor of the object, and leaves the process with well-formed
  -- descriptors. The new number then reads as the object, and every other number as before.
  pub objdesc_add-new :
      fresh ≢ null
      → find_obj s o xs ≡ minus_one
      → let id = s.next_objdesc p in
        (s' : Store) × (objdesc_add fresh p o s ≡ ok id s')
        × IsValid s' p (fresh ∷ xs)
        × (s'.descriptors o ≡ add32 (s.descriptors o) 1)
        × (objdesc_read p id s' ≡ ok o s')
        × ((i : ℕ) → i ≢ id → objdesc_read p i s' ≡ ok (find_id s i xs) s')
  unfolding objdesc_add
  objdesc_add-new ne absent =
      let ok' =
        added-IsValid ne (has_obj-minus_one s o (s.next_objdesc p) xs v.cells v.room absent) in
      (
        added fresh p o s,
        ground (arith, objdesc_get-ok s p o xs v, absent, add_desc-ok),
        ok',
        ground arith,
        ground (arith, objdesc_read-ok (added fresh p o s) p (s.next_objdesc p) (fresh ∷ xs) ok'),
        λ i other. ground (
          arith,
          objdesc_read-ok (added fresh p o s) p i (fresh ∷ xs) ok',
          find_id-added fresh p o s i xs unused,
        ),
      )

  -- Of an object that the process has a descriptor of, `objdesc_add` returns -1 and changes
  -- nothing.
  objdesc_add-held : find_obj s o xs ≢ minus_one → objdesc_add fresh p o s ≡ ok minus_one s
  unfolding objdesc_add
  objdesc_add-held held = ground (arith, objdesc_get-ok s p o xs v)
