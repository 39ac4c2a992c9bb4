-- ===== src/Lib.antt =====
-- Verification of Grapes, a small microkernel for the i386 (src/kernel) with the library that its
-- applications are linked with (src/library) and the manager of services (src/modules/manager).
--
-- The kernel runs threads of processes, which own objects and hold descriptors of them. A process
-- sends requests and messages to an object; a thread of the owner of the object gets and answers
-- them. All of this goes through interrupt 64, for which the library has one function per call.
-- Shared memory goes with requests; the library hands out addresses for it and serves the objects
-- of a process by tables of methods.
--
-- Files and the code they are about:
--   Prelude, Prelude/*      lists, options, pointers, and single bits of numbers
--   Word                    32-bit arithmetic with its wrap-around, and pages
--   Kernel/Sched            src/kernel/task/sched.c (sched_enqueue, sched_dequeue)
--   Kernel/Syscall          src/kernel/task/syscall.c, idt_syscallHandler of src/kernel/task/idt.c
--   Kernel/Idt              src/kernel/task/idt.c (gates, IRQ handlers, idt_waitIrq)
--   Kernel/Gdt              src/kernel/mem/gdt.c
--   Kernel/Thread           src/kernel/task/task.c (thread_goInactive, thread_wakeUp)
--   Kernel/Process          src/kernel/task/task.c (processes and threads: how they begin and end,
--                           and process_setheapseg)
--   Kernel/Timer            src/kernel/task/timer.c
--   Kernel/Mutex            src/kernel/lib/mutex.c
--   Kernel/Monitor          src/kernel/core/monitor.c
--   Kernel/Frames           src/kernel/lib/bitset.c, frame_alloc and frame_free of
--                           src/kernel/mem/paging.c
--   Kernel/Paging           src/kernel/mem/paging.c (page tables and pages), and the kernel's page
--                           tables of src/kernel/task/task.c
--   Kernel/Segments         src/kernel/mem/seg.c, src/kernel/ipc/shm.c, and paging_fault and
--                           pagedir_delete of src/kernel/mem/paging.c
--   Kernel/Heap             src/kernel/mem/heap.c
--   Kernel/Memory           src/kernel/mem/mem.c (kmalloc, kfree, kheap_init)
--   Kernel/Elf              src/kernel/linker/elf.c
--   Kernel/Ipc/Store        the objects and descriptors in memory (src/kernel/ipc/object.h)
--   Kernel/Ipc/Object       src/kernel/ipc/object.c
--   Kernel/Ipc/Request      src/kernel/ipc/request.c (request_get, request_has, request_answer)
--   Kernel/Ipc/Send         src/kernel/ipc/request.c (request, send_msg, request_mapShm)
--   Library/Shm             src/library/gc/shm.c
--   Library/Heap            src/library/gc/mem.c
--   Library/Syscall         src/library/gc/syscall.c
--   Library/Server          src/library/gc/server.c
--   Library/Strings         src/library/std/string.c
--   Manager                 src/modules/manager/main.c
-- A component has its definitions in the file of its name and its theorems in the child files, one
-- for each thing proved; the child file Tests runs the definitions on concrete values.
--
-- State and operations. A C function that changes state is a function from the state to the new
-- state, under its own name in lower case with underscores. Where the code keeps a linked list and
-- nothing else points into it (sleepers, waiters, shared memory blocks, methods, servers) the list
-- is a list. Where pointers matter they are kept: the scheduler's queues are the heads, ends and
-- next pointers of the source, and Kernel/Ipc has a store of objects and descriptors in which a
-- read through null or through freed memory is a fault, kept apart from running out of fuel. What
-- kmalloc and malloc return is an argument. In Kernel/Ipc/Request a thread that has to wait ends the
-- run in a state of its own, from which the loop goes on. Kernel/Paging, Kernel/Segments and
-- Kernel/Process are commands on a state that end, fail or run out of fuel (Prelude/Runs).
-- Parts meet where the code calls: Kernel/Timer and Kernel/Idt use Kernel/Thread, Library/Syscall
-- uses the table of Kernel/Syscall, Library/Server allocates and frees through Library/Shm,
-- Kernel/Segments stands on Kernel/Paging and Kernel/Frames, and Kernel/Process on Kernel/Segments
-- and Kernel/Ipc. Kernel/Ipc/Request and Kernel/Ipc/Send unmap and map shared memory through
-- Kernel/Segments, on which Kernel/Elf stands too, with the copying of Library/Strings. Manager uses
-- Library/Strings and the results of Library/Server. Library/Heap has the kernel as an argument, by
-- the interface Library/Heap/Interface; Library/Heap/System fills it with process_setheapseg of Kernel/Process.
--
-- The theorems on the heaps read a heap as a row of blocks (Kernel/Heap/Blocks), of which a step of
-- the code opens a range and closes it again (Kernel/Heap/Opened): Take, Join, Free and Expand are
-- the steps, Kernel/Heap/Room counts the entries of the index, and Kernel/Heap/Alloc and
-- Library/Heap/Owned are what comes of them.
--
-- Numbers are natural numbers; 32-bit arithmetic that can wrap around is written with its
-- remainder.
--
-- Fuel. The walks over descriptors in Kernel/Ipc run on as many rounds as the process has given
-- out numbers, which bounds the descriptors it holds; the theorems prove that this is enough for
-- well-formed descriptors. The loops over the four queues, the words of a bit set, the 32 bits of a
-- word, the page tables of a directory and the three parameters of a request have the bounds of the
-- source. The loops over the pages of a range have 0x100000 rounds, one for each page of the address
-- space, and the theorems prove that this is enough for ranges of user memory. The walks over maps,
-- threads and processes have their rounds as an argument; as many as the list has members are
-- enough. heap_contract's two loops get one round more than the hole has pages; heap_alloc has the
-- number of its calls of itself as an argument, and the theorem on malloc says which is enough. The
-- loops over strings have fuel as an argument, and give no result if they meet no terminator within
-- it.
--
-- Not modelled: ports and assembly, the set-up of the kernel's own page directory, the switch of
-- contexts and what new stacks hold, elf_exec, the cache of free pages, formatted output, and the
-- start of the manager. The kernel's own string functions have the text of the library's. What a
-- method handler does, what c_open does for the manager and what a kernel function returns are
-- parameters, as is kmalloc_page of the page cache. The index of a heap is a list; a flag shows when it
-- has outgrown the room before the first block, and what happens then is not followed. Kernel functions run to their end or to a wait of their own; the mutex is the
-- exception, where the steps of all threads interleave.
pub mod Prelude
pub mod Word
pub mod Kernel
pub mod Library
pub mod Manager
