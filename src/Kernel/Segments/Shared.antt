-- ===== src/Kernel/Segments/Shared.antt =====
-- src/kernel/ipc/shm.c: the system calls on shared memory; and `simpleseg_resize` of
-- src/kernel/mem/seg.c. The results -1 and -2 are 32-bit words.
pub mod Create
use grapes.Prelude.{
  ℕ, zero, suc, ◌+◌, ◌-◌, ◌*◌, ◌/◌, ◌%◌, ◌^◌, Bool, true, false, ◌&&◌, leb, ltb, ◌==◌,
  if◌then◌else◌,
}
use grapes.Prelude.Pointers.{Ptr, null, update}
use grapes.Prelude.Runs.{Ran, done, failed, exhausted, Action, return, ◌>>=◌, ◌>>◌}
use grapes.Word.{u32, add32, page_up}
use grapes.Kernel.Paging.{unmap_free_loop, page_rounds}
use grapes.Kernel.Segments.{
  Contents, simple, shm, Segments, live, in_paging, shmseg_make, seg_map, seg_unmap,
}

abbrev pub is_shm : Contents → Bool
is_shm (simple writable start len) = false
is_shm (shm len frames owner) = true

-- The loop of `shmseg_getByOff`, from the map `m` on.
pub get_by_off_loop : (fuel : ℕ) → (m : Ptr) → (offset : ℕ) → Action Segments Ptr
get_by_off_loop zero m offset s = exhausted
get_by_off_loop (suc fuel) m offset s =
    let rest = get_by_off_loop fuel (s.map_next m) offset s in
    let seg = s.map_seg m in
    if m == null
    then done null s
    else live (s.map_live m) (
        if s.map_start m == offset
        then live (s.seg_live seg) (if is_shm (s.contents seg) then done m s else rest)
        else rest)

-- `shmseg_getByOff`, for the directory of the process
pub shmseg_get_by_off : (fuel : ℕ) → (pagedir : Ptr) → (offset : ℕ) → Action Segments Ptr
shmseg_get_by_off fuel pagedir offset s = get_by_off_loop fuel (s.mapped_segs pagedir) offset s

abbrev pub minus : ℕ → ℕ
minus n = u32 - n

-- `shm_create` of the current thread's process
pub shm_create : (seg map : Ptr) → (process pagedir : Ptr) → (offset len : ℕ) → Action Segments ℕ
shm_create seg map process pagedir offset len s =
    if leb 0xE0000000 offset
    then done (minus 1) s
    else if leb 0x10000000 len
    then done (minus 1) s
    else if leb 0xE0000000 (add32 offset len)
    then done (minus 1) s
    else (seg_map map seg pagedir offset >>= λ m. return 0) (shmseg_make seg len process s)

-- `shm_delete` of the current thread's process
pub shm_delete : (fuel : ℕ) → (pagedir : Ptr) → (offset : ℕ) → Action Segments ℕ
shm_delete fuel pagedir offset s =
    (shmseg_get_by_off fuel pagedir offset >>= λ m.
    if m == null then return (minus 1) else seg_unmap fuel m >> return 0)
      s

abbrev pub set_len : Contents → ℕ → Contents
set_len (simple writable start len) n = simple writable start n
set_len (shm len frames owner) n = shm len frames owner

-- `map->len = len; s->len = len;`
abbrev pub resized : (map : Ptr) → (len : ℕ) → Action Segments ℕ
resized map len s =
    let seg = s.map_seg map in
    done 0 (record s {
      map_len = update s.map_len map len;
      contents = update s.contents seg (set_len (s.contents seg) len);
    })

-- `simpleseg_resize`
unfoldable pub simpleseg_resize : (map : Ptr) → (len : ℕ) → Action Segments ℕ
simpleseg_resize map len s =
    let n = page_up len in
    let start = s.map_start map in
    let old = s.map_len map in
    if map == null
    then done (minus 1) s
    else live (s.map_live map) (
        live (s.seg_live (s.map_seg map)) (
          if is_shm (s.contents (s.map_seg map))
          then done (minus 2) s
          else if ltb n old
          then (in_paging (
                  unmap_free_loop page_rounds (s.map_pagedir map) (add32 start n) (add32 start old)
                    s.paging)
                >> resized map n)
              s
          else if ltb old n
          then resized map n s
          else done 0 s))
