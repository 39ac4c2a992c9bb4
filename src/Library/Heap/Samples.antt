-- ===== src/Library/Heap/Samples.antt =====
-- A heap of three blocks, of which the middle one is a hole, and a kernel that grants every range.
use grapes.Prelude.{
  ℕ, ◌≡◌, inl, refl, Bool, true, false, ◌&&◌, not, List, [], ◌∷◌, ◌==◌, if◌then◌else◌, arith, ◌⊎◌,
  ◌<◌,
}
use grapes.Prelude.Runs.{done, failed}
use grapes.Kernel.Heap.{Heap, unify_left, unify_right, idx_insert, idx_remove, insert_in, remove_in}
use grapes.Kernel.Heap.Blocks.{starts}
use grapes.Library.Heap.{Application, join, free}
use grapes.Library.Heap.Interface.{SetHeap}
use grapes.Library.Heap.Sound.{Sound}
use grapes.Library.Heap.Contract.{Keeps}
use grapes.Library.Heap.Owned.{base, Usable, free-Usable}

abbrev blocks : List (ℕ × Bool)
blocks = (0x80, false) ∷ (0x80, true) ∷ (0xFFF00, false) ∷ []

abbrev heap : Heap
heap = record {
  start_addr = 0x20010000;
  end_addr = 0x20110000;
  max_end = 0x6F010000;
  idx = 0x20000000;
  index = 0x20010080 ∷ [];
  overrun = false;
  size = λ a. if a == 0x20010100 then 0xFFF00 else 0x80;
  magic = λ a. if a == 0x20110000 then 0 else 0xBAD0BEEF;
  is_hole = λ a. a == 0x20010080;
  header = λ a.
      if a == 0x20010078 then 0x20010000 else if a == 0x200100F8 then 0x20010080 else 0x20010100;
  footer_magic = λ a. if a == 0x2000FFF8 then 0 else 0xBAD0BEEF;
}

-- every range is granted
abbrev granting : SetHeap (Unit {0})
granting = record {
  proc_setheap = λ start stop k. done 0 k;
  Backs = λ start stop k. Unit;
  law = λ start old stop k b le. (0, k, refl, inl (refl, tt));
}

abbrev holder : Application (Unit {0})
holder = record { heap = heap; heap_ok = true; kernel = tt }

holder-Sound : Sound granting base 0x20110000 blocks holder
holder-Sound = record {
  backed = record {
    backs = tt;
    index = omega arith;
    blocks = omega arith;
    limit = omega arith;
    low = omega arith;
  };
  start = refl;
  stop = refl;
  formed = record {
    low = omega arith;
    high = omega arith;
    laid = (
      record { least = omega arith; size = refl; magic = refl; header = refl; footer_magic = refl },
      refl,
      (
        record {
          least = omega arith;
          size = refl;
          magic = refl;
          header = refl;
          footer_magic = refl;
        },
        refl,
        (
          record {
            least = omega arith;
            size = refl;
            magic = refl;
            header = refl;
            footer_magic = refl;
          },
          refl,
          refl,
        ),
      ),
    );
    distinct = (refl, tt);
    holes = λ y inside. ground arith;
  };
  some_room = omega arith;
}

-- The first block and the hole behind it become one hole.
joined :
    ((join 0x2001000C heap).0 ≡ 0x20010000) × ((join 0x2001000C heap).2.size 0x20010000 ≡ 0x100)
unfolding join unify_left unify_right idx_insert idx_remove insert_in remove_in
joined = (refl, refl)

keeps : Keeps (join 0x2001000C heap).2
unfolding join unify_left unify_right idx_insert idx_remove insert_in remove_in
keeps = inl refl

free-Usable_example :
    let end : ℕ = 0x20110000 in
    let run = free granting.proc_setheap 0x2001000C holder in
    ((0x20010080 ≡ end) × (run ≡ failed))
    ⊎ ((0x20010080 < end)
        × ((t : Application (Unit {0})) × (bs : List (ℕ × Bool)) × (run ≡ done tt t)
            × Usable granting 7 bs t
            × ((x k : ℕ)
                → starts false base bs x k
                  ≡ (starts false base blocks x k && not (0x20010000 == x)))))
free-Usable_example =
    free-Usable granting 0x20010000 0x20110000 0x80 7 blocks holder refl
      (record { fits = omega arith; intact = refl }) holder-Sound refl (λ e. absurd (omega arith))
      keeps
