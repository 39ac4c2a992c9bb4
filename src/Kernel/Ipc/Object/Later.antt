-- ===== src/Kernel/Ipc/Object/Later.antt =====
-- What `objdesc_rm` does with a descriptor that is not the newest of its process.
use grapes.Prelude.{
  ℕ, zero, suc, ◌≡◌, ◌≢◌, ◌<◌, true, false, List, [], ◌∷◌, ◌++◌, arith, ◌==◌, length, length-append,
  Bool-cases, inl, inr,
}
use grapes.Prelude.Pointers.{Ptr, null, update, Chain, Distinct, last}
use grapes.Word.{sub32}
use grapes.Kernel.Ipc.Store.{Store, ok, fault}
use grapes.Kernel.Ipc.Object.{rm_loop, objdesc_rm}
use grapes.Kernel.Ipc.Object.Valid.{has_id, Cells, IsValid}
use grapes.Kernel.Ipc.Object.Remove.{dropped, drop_desc-ok, drop_desc-fault}

has_id-mid : (s : Store) (y : Ptr) (ms zs : List Ptr) → has_id s (s.desc_id y) (ms ++ y ∷ zs) ≡ true
has_id-mid s y [] zs = ground arith
has_id-mid s y (m ∷ ms) zs = ground (arith, has_id-mid s y ms zs)

-- A descriptor in front has another number.
ne_of_before :
    (s : Store) (bound : ℕ) (x y : Ptr) (ms zs : List Ptr)
    → Cells s bound (x ∷ ms ++ y ∷ zs)
    → (s.desc_id x == s.desc_id y) ≡ false
ne_of_before s bound x y ms zs c = elim (Bool-cases (s.desc_id x == s.desc_id y)) [
  | inr other ↦ other
  | inl same ↦
      let e : s.desc_id x ≡ s.desc_id y = ground arith in
      ground (arith, c.4, has_id-mid s y ms zs, e)
]

-- Behind `e` stand `ms` and then `y`, the last: the walk reads through null.
rm_loop_last :
    (k : ℕ) (e y bound : ℕ) (ms : List Ptr) (s : Store)
    → length ms < k
    → s.desc_live e ≡ true
    → s.desc_live null ≡ false
    → Chain s.desc_next (s.desc_next e) (ms ++ y ∷ [])
    → Cells s bound (ms ++ y ∷ [])
    → rm_loop k (s.desc_id y) e s ≡ fault
unfolding rm_loop
rm_loop_last zero e y bound ms s fuel live dead c l = absurd (omega arith)
rm_loop_last (suc k) e y bound [] s fuel live dead c l = ground (
  arith,
  drop_desc-fault null (record s { desc_next = update s.desc_next e (s.desc_next y) }) dead,
)
rm_loop_last (suc k) e y bound (m ∷ ms) s fuel live dead c l = ground (
  arith,
  ne_of_before s bound m y ms [] l,
  rm_loop_last k m y bound ms s (omega arith) l.0 dead c.2 l.6,
)

-- the state after `y`, which stands behind `prev` and before `z`, has been unlinked and `z` freed
abbrev misdropped : Ptr → Ptr → Ptr → Store → Store
misdropped prev y z s = dropped z (record s { desc_next = update s.desc_next prev z })

Cells-mid : (s : Store) (bound : ℕ) (ms zs : List Ptr) → Cells s bound (ms ++ zs) → Cells s bound zs
Cells-mid s bound [] zs c = c
Cells-mid s bound (m ∷ ms) zs c = Cells-mid s bound ms zs c.6

Distinct-mid : (ms zs : List Ptr) → Distinct (ms ++ zs) → Distinct zs
Distinct-mid [] zs d = d
Distinct-mid (m ∷ ms) zs d = Distinct-mid ms zs d.1

rm_loop_inner :
    (k : ℕ) (e y z bound : ℕ) (ms zs : List Ptr) (s : Store)
    → length ms < k
    → s.desc_live e ≡ true
    → Chain s.desc_next (s.desc_next e) (ms ++ y ∷ z ∷ zs)
    → Cells s bound (ms ++ y ∷ z ∷ zs)
    → rm_loop k (s.desc_id y) e s ≡ ok tt (misdropped (last (e ∷ ms)) y z s)
unfolding rm_loop
rm_loop_inner zero e y z bound ms zs s fuel live c l = absurd (omega arith)
rm_loop_inner (suc k) e y z bound [] zs s fuel live c l =
    let after : s.desc_next y ≡ z = c.2.0 in
    ground
      (arith, after, drop_desc-ok z (record s { desc_next = update s.desc_next e z }) l.6.0 l.6.1)
rm_loop_inner (suc k) e y z bound (m ∷ ms) zs s fuel live c l = ground (
  arith,
  ne_of_before s bound m y ms (z ∷ zs) l,
  rm_loop_inner k m y z bound ms zs s (omega arith) l.0 c.2 l.6,
)

-- `objdesc_rm` of the oldest descriptor `y` of a process that has another one reads through null.
pub objdesc_rm-oldest :
    (s : Store) (p x y : Ptr) (ms : List Ptr)
    → IsValid s p (x ∷ ms ++ y ∷ [])
    → objdesc_rm p (s.desc_id y) s ≡ fault
unfolding objdesc_rm
objdesc_rm-oldest s p x y ms v = ground (
  arith,
  v.chain,
  v.cells.0,
  ne_of_before s (s.next_objdesc p) x y ms [] v.cells,
  rm_loop_last (s.next_objdesc p) x y (s.next_objdesc p) ms s
      (omega (arith, v.count, length-append ms (y ∷ []))) v.cells.0 v.null_dead v.chain.2 v.cells.6,
)

-- `objdesc_rm` of a descriptor `y` with a newer one and an older one `z` in its process unlinks
-- `y`, but it is `z` that is freed, and the object of `z`, not that of `y`, counts one descriptor
-- less, while no other count changes: the descriptors then hold the freed `z`, and `y` stays
-- allocated.
pub objdesc_rm-inner :
    (s : Store) (p x y z : Ptr) (ms zs : List Ptr)
    → IsValid s p (x ∷ ms ++ y ∷ z ∷ zs)
    → (s' : Store) × (objdesc_rm p (s.desc_id y) s ≡ ok tt s')
      × (s'.desc_next (last (x ∷ ms)) ≡ z)
      × (s'.desc_live z ≡ false)
      × (s'.desc_live y ≡ true)
      × (s'.descriptors (s.desc_obj z) ≡ sub32 (s.descriptors (s.desc_obj z)) 1)
      × ((o : Ptr) → o ≢ s.desc_obj z → s'.descriptors o ≡ s.descriptors o)
      × (s'.descriptors (s.desc_obj y) ≡ s.descriptors (s.desc_obj y))
unfolding objdesc_rm
objdesc_rm-inner s p x y z ms zs v = (
  misdropped (last (x ∷ ms)) y z s,
  ground (
    arith,
    v.chain,
    v.cells.0,
    ne_of_before s (s.next_objdesc p) x y ms (z ∷ zs) v.cells,
    rm_loop_inner (s.next_objdesc p) x y z (s.next_objdesc p) ms zs s
        (omega (arith, v.count, length-append ms (y ∷ z ∷ zs))) v.cells.0 v.chain.2 v.cells.6,
  ),
  ground arith,
  ground arith,
  ground (arith, here, apart),
  ground arith,
  λ o ne. ground (arith, ne),
  ground (arith, here),
)
  where
    here : Cells s (s.next_objdesc p) (y ∷ z ∷ zs)
    here = Cells-mid s (s.next_objdesc p) ms (y ∷ z ∷ zs) v.cells.6

    apart : Distinct (y ∷ z ∷ zs)
    apart = Distinct-mid ms (y ∷ z ∷ zs) v.distinct.1
