-- ===== src/Kernel/Paging/Tables.antt =====
-- A new page table: it stands apart from the others, and, in the kernel's part,
-- reaches every process.
use grapes.Prelude.{
  ℕ, ◌≡◌, ◌≢◌, refl, ◌<◌, ◌≤◌, true, ◌&&◌, ◌||◌, not, List, [], ◌∷◌, ltb, ◌==◌, if◌then◌else◌,
  arith,
}
use grapes.Prelude.Pointers.{Ptr, null, update, has}
use grapes.Kernel.Paging.{
  Paging, zero_page, update_entry, kernel_tables, make_table, update_loop, update_kernel_pagetable,
}
use grapes.Kernel.Paging.View.{Separate}

-- The loop over the processes writes the entry `idx` of each, and nothing else.
update_loop_lem :
    (idx table physical : ℕ) (pds : List Ptr) (s : Paging)
    → let s' = update_loop idx table physical pds s in
      ((pd : Ptr) (j : ℕ)
        → s'.tables pd j ≡ (if has pd pds && (idx == j) then table else s.tables pd j))
      × ((pd : Ptr) (j : ℕ)
          → s'.physical pd j ≡ (if has pd pds && (idx == j) then physical else s.physical pd j))
      × (s'.pages ≡ s.pages)
      × (s'.frames ≡ s.frames)
      × (s'.processes ≡ s.processes)
unfolding update_loop
update_loop_lem idx table physical [] s = (λ pd j. refl, λ pd j. refl, refl, refl, refl)
update_loop_lem idx table physical (p ∷ pds) s =
    let s1 : Paging = record s {
      tables = update_entry s.tables p idx table;
      physical = update_entry s.physical p idx physical;
    } in
    let (t, f, g, h, k) = update_loop_lem idx table physical pds s1 in
    (λ pd j. ground (arith, t pd j), λ pd j. ground (arith, f pd j), g, h, k)

-- The tables after `make_table`.
make_table-tables :
    (fresh phys : ℕ) (pd : Ptr) (idx : ℕ) (s : Paging) (pd' : Ptr) (j : ℕ)
    → (make_table fresh phys pd idx s).tables pd' j ≡ (
        if (idx == j) && ((pd == pd') || (not (ltb idx kernel_tables) && has pd' s.processes))
        then fresh
        else s.tables pd' j)
unfolding make_table update_kernel_pagetable
make_table-tables fresh phys pd idx s pd' j =
    let s1 : Paging = record s {
      tables = update_entry s.tables pd idx fresh;
      physical = update_entry s.physical pd idx phys;
    } in
    ground (arith, (update_loop_lem idx fresh phys s.processes s1).0 pd' j)

make_table-same :
    (fresh phys : ℕ) (pd : Ptr) (idx : ℕ) (s : Paging)
    → let s' = make_table fresh phys pd idx s in
      (s'.pages ≡ update s.pages fresh (λ i. zero_page))
      × (s'.frames ≡ s.frames)
      × (s'.processes ≡ s.processes)
unfolding make_table update_kernel_pagetable
make_table-same fresh phys pd idx s =
    let s1 : Paging = record s {
      tables = update_entry s.tables pd idx fresh;
      physical = update_entry s.physical pd idx phys;
    } in
    let (_, _, g, h, k) = update_loop_lem idx fresh phys s.processes s1 in
    (ground (arith, g), ground (arith, h), ground (arith, k))

-- `fresh` is a page that is no page table yet.
pub record Fresh (fresh : Ptr) (s : Paging) : Type 0 where
  pub something : fresh ≢ null
  pub unused : (pd : Ptr) (i : ℕ) → s.tables pd i ≢ fresh

make_table-Separate :
    (fresh phys : ℕ) (pd : Ptr) (idx : ℕ) (s : Paging)
    → Separate s
    → Fresh fresh s
    → Separate (make_table fresh phys pd idx s)
make_table-Separate fresh phys pd idx s sep new p q i j there same =
    go (make_table-tables fresh phys pd idx s p i) (make_table-tables fresh phys pd idx s q j)
      (new.unused p i) (new.unused q j) (sep p q i j) there same
  where
    go :
        {x y u v : Ptr}
        → x ≡ (
            if (idx == i) && ((pd == p) || (not (ltb idx kernel_tables) && has p s.processes))
            then fresh
            else u)
        → y ≡ (
            if (idx == j) && ((pd == q) || (not (ltb idx kernel_tables) && has q s.processes))
            then fresh
            else v)
        → u ≢ fresh
        → v ≢ fresh
        → (u ≢ null → u ≡ v → (i ≡ j) × (i < kernel_tables → p ≡ q))
        → x ≢ null
        → x ≡ y
        → (i ≡ j) × (i < kernel_tables → p ≡ q)
    go e f ne ne' apart some_x same = ground arith

-- In the kernel's part the new table is entered in the directory of every process, but only the
-- directory asked for gets the flags that make it present.
make_table-physical :
    (fresh phys : ℕ) (pd : Ptr) (idx : ℕ) (s : Paging) (p : Ptr)
    → kernel_tables ≤ idx
    → has p s.processes ≡ true
    → p ≢ pd
    → let s' = make_table fresh phys pd idx s in
      (s'.tables p idx ≡ fresh) × (s'.physical p idx ≡ phys)
unfolding make_table update_kernel_pagetable
make_table-physical fresh phys pd idx s p high there ne =
    let s1 : Paging = record s {
      tables = update_entry s.tables pd idx fresh;
      physical = update_entry s.physical pd idx phys;
    } in
    let (t, f, _, _, _) = update_loop_lem idx fresh phys s.processes s1 in
    (ground (arith, t p idx), ground (arith, f p idx))
