-- ===== src/Kernel/Process/Sample.antt =====
-- A machine for the tests, with one process of two threads.
use grapes.Prelude.{refl, true, false, ◌||◌, [], ◌∷◌, ◌==◌, arith}
use grapes.Prelude.Pointers.{null, update}
use grapes.Kernel.Thread.{running}
use grapes.Kernel.Paging.Range.{Covers}
use grapes.Kernel.Paging.View.{Separate}
use grapes.Kernel.Paging.{zero_page}
use grapes.Kernel.Segments.{simple, Segments}
use grapes.Kernel.Process.{Machine}

abbrev pub no_segments : Segments
no_segments = record {
  paging = record {
    frames = record { bits = 1 ∷ []; size = 32 };
    tables = λ p i. null;
    physical = λ p i. 0;
    pages = λ p i. zero_page;
    processes = 50 ∷ [];
  };
  mapped_segs = λ p. null;
  map_live = λ p. false;
  map_seg = λ p. null;
  map_pagedir = λ p. null;
  map_start = λ p. 0;
  map_len = λ p. 0;
  map_next = λ p. null;
  seg_live = λ p. false;
  contents = λ p. simple false 0 0;
  mappings = λ p. 0;
}

-- The process 40, of the privilege `PL_SERVICE`, with the directory 50.
abbrev pub machine : Machine
machine = record {
  segments = no_segments;
  store = record {
    obj_live = λ p. false;
    owner = λ p. null;
    descriptors = λ p. 0;
    busy_mutex = λ p. 0;
    request = λ p. null;
    wakeup_on_rq = λ p. null;
    desc_live = λ p. false;
    desc_obj = λ p. null;
    desc_id = λ p. 0;
    desc_next = λ p. null;
    objects = λ p. null;
    next_objdesc = λ p. 0;
  };
  threads = record { state = λ t. running; enqueued = [] };
  thread_live = λ t. (t == 30) || (t == 31);
  process = λ t. 40;
  next = update (λ t. null) 30 31;
  user_stack = λ t. null;
  process_live = update (λ p. false) 40 true;
  pid = λ p. 1;
  uid = λ p. 0;
  privilege = λ p. 2;
  thread_count = λ p. 2;
  parent = λ p. null;
  pagedir = λ p. 50;
  stacks_bottom = λ p. 0xDF000000;
  heapseg = λ p. null;
  next_process = λ p. null;
  first_thread = λ p. 30;
  processes = 40;
  current_thread = 30;
  next_pid = 2;
  manager_object = null;
}

pub no_segments-Covers : Covers no_segments.paging
no_segments-Covers p b = ground arith

pub no_segments-Separate : Separate no_segments.paging
no_segments-Separate p q i j there same = absurd (there refl)
