-- ===== src/Kernel/Elf/Load.antt =====
-- What a program finds in the memory of a segment that was loaded.
use grapes.Prelude.{◌≡◌, true}
use grapes.Prelude.Pointers.{Ptr}
use grapes.Kernel.Segments.{Segments, simple}
use grapes.Kernel.Elf.{ProgramHeader, writable}

-- The segment `seg`, mapped by `map`, is the simple one of the header, in the directory `pd`.
pub record Mapped (seg map pd : Ptr) (h : ProgramHeader) (s : Segments) : Type 0 where
  pub map_live : s.map_live map ≡ true
  pub map_seg : s.map_seg map ≡ seg
  pub map_pagedir : s.map_pagedir map ≡ pd
  pub map_start : s.map_start map ≡ h.vaddr
  pub map_len : s.map_len map ≡ h.memsz
  pub listed : s.mapped_segs pd ≡ map
  pub contents : s.contents seg ≡ simple (writable h.flags) h.vaddr h.memsz
