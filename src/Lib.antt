-- ===== src/Lib.antt =====
-- The NEKA kernel: a small preemptive kernel for x86-64, after the design of EKA2.
--
-- The parts. Boot code (main64.c, uefi_main.c) fills the memory map (memmap.c) from the tables of
-- the boot loader, sets up paging (paging64.c) and the heap (heap.c), makes threads (sched64.c) and
-- starts the other CPUs (smp.c). The timer interrupt calls the scheduler's tick. The heap and the
-- scheduler run under one kernel lock (nkern_lock.c) with a nesting count for each CPU and one
-- spinlock; a tick inside the lock leaves a request that the last `NKern_Unlock` serves. The
-- keyboard interrupt (keyboard.c) puts characters into a ring buffer. An older kernel for 32 bits
-- (main.c, sched.c, terminal.c, timer.c) runs threads that yield to one another.
--
-- The files, with the code they are about:
--   Base       helpers: tests on numbers, C arrays as functions of the index, single bits
--   Keyboard   keyboard.c: `keyboard_handle_irq`, `kbd_buffer_push`, `kbd_buffer_pop`
--   Heap       heap.c: `heap_init`, `kmalloc`, `kfree`, `heap_free_bytes`
--   Nkern      nkern_lock.c: `NKern_Lock` and `NKern_Unlock`, the pair for the scheduler, and their
--              interleavings of threads on several CPUs
--   Memmap     memmap.c: both parsers, `memmap_region_is_safe`, `memmap_alloc_frame`
--   Sched64    sched64.c with the types of kernel64.h: `sched64_create_thread`,
--              `sched64_reschedule`, `sched64_timer_tick`
--   Paging64   paging64.c: `alloc_frame`, `paging_init_kernel_map`, `create_address_space`,
--              `create_user_process`, `paging_map_mmio_2mb`
--   Gdt64      gdt64.c: `gdt_init`, `gdt_setup_cpu_tss`, `gdt_get_tss_rsp0`
--   Idt        idt.c and idt.h: `idt_set_gate`, `idt_init`, `interrupt_dispatch`
--   Apic       apic.c: `get_cpu_index`, `apic_timer_init`, `ioapic_set_redirect` and the others
--   Smp        smp.c: `smp_start_aps`
--   Terminal64 terminal64.c: `putc_vga`, `kprint`, `kprint_hex64`, `terminal64_init`; `kprint` on
--              several CPUs (Terminal64/Printing)
--   Sched      sched.c and kernel.h, the scheduler of the 32-bit kernel: `sched_create_thread`,
--              `sched_reschedule`, `sched_timer_tick`
--   Terminal   terminal.c, the console of the 32-bit kernel: `terminal_writestring`,
--              `terminal_write_hex`, `terminal_init`
--   Timer      timer.c: `pic_remap`, `timer_init`
--   Main       main.c: `kernel_main` of the 32-bit kernel and its three threads
--   Acpi       acpi.c: `scan_for_rsdp`, `find_madt`, `acpi_find_apic_bases`, `acpi_find_cpus`
--   Fpu        fpu.c: `fpu_init`
--   Main64     main64.c: `heap_self_test` (Main64), the threads A and B (Main64/Demo), and
--              `kernel_main64` (Main64/Boot for its state, Main64/Start for its phases); also
--              `ap_entry64` of smp.c (Main64/Entry), which runs on a CPU that has been woken
-- A file holds the definitions under the source's names, in lower case; the files below it hold the
-- proofs, and its Tests the runs at concrete inputs. The state of a C file is a record of its static
-- variables, and an operation takes the old one and gives the new one. Memory that is used as
-- structs (the heap's headers) is a function of the address. A C array is a function of the index. A
-- pointer to a thread is the thread's index in `threads64`. Integers are natural numbers with the
-- wrap-around written out where the source can reach it.
--
-- How the parts meet. The heap takes the kernel lock as the interface `Heap.Lock`, which
-- `Nkern.Client.kernel_lock` fills. The scheduler holds the state of the lock and calls its
-- functions. The lock reports whether an unlock calls `sched64_reschedule`. The frames of the page
-- tables come from the pool or, once it is active, from the memory map. The dispatch of interrupts
-- runs the timer tick of the scheduler, the handler of the keyboard and the calls of the console. The
-- start of the other CPUs takes their stacks from the heap. `kernel_main64` brings all of them up on
-- one record, `Kernel`, of the states of the files, in the order of the source. The threads A and B
-- then share the memory and the kernel lock, and their steps may follow one another in any order.
--
-- The bounds. A loop takes fuel, and running out is a value of its own (`none`).
--   * The heap's arena is 1 MB with headers of 32 bytes, so a list has at most 32768 blocks, and
--     fuel above that is enough for its loops.
--   * `memmap_alloc_frame` needs at most three rounds for each region: one below 1 MB, one inside
--     the reserved image, and one to leave.
--   * `memmap_parse_uefi` needs a round for each descriptor, at most one for each byte of the map.
--   * The scan for the RSDP needs a round for every 16 bytes, and the walks over the MADT one for
--     each entry.
--   * `alloc_frame` needs the fuel of `memmap_alloc_frame`. The 64 frames of the pool and the end of
--     the memory map are panics, which every theorem on address spaces allows for.
--   * The walk over a ring of threads needs a step for each thread, at most 16.
--   * The code reaches a frame through the map of the first gigabyte: `alloc_frame` above it is a
--     page fault, as is an access through a 2 MB entry whose address is not a multiple of 2 MB. The
--     theorems on address spaces ask for memory below 1 GB, where neither happens.
--   * `kernel_main64` hands one fuel to all its loops; more than 32768, that of the heap, is enough
--     for those of the kernel itself. That the walks over the tables of the firmware end is part of
--     what `IsBootable` asks of the machine.
--
-- What is not modelled. `context_switch64`, `thread_start64` and the other assembly files change
-- registers; `sched64_reschedule` is followed up to its call of `context_switch64`. The wait on the
-- spinlock is a step that repeats until the lock is free. Of the devices, the writes to the APIC
-- and to its ports are a list, and what a device answers is an argument; whether a CPU that is
-- woken answers in time to the interrupts it got is an argument too. The boot as a whole is
-- followed where no other CPU answers, since one that does takes threads of its own while the boot
-- goes on; what such a CPU does before is `ap_entry64`, and what it does then is in Sched64.
-- `NKern_Lock` reads the CPU's index before its `cli`: the interleavings of Nkern have the two as
-- steps, and what is shown of the lock is for threads that stay on their CPU between them. Left out
-- are the delays, `serial_init` and the wait for the serial port, and the texts that
-- `heap_self_test`, `memmap_activate` and `smp_start_aps` print. In the steps of the threads A and
-- B the console is left out as well. Of main64.c thread C, which only prints, and the launcher,
-- which only enters ring 3, are left out; so are uefi_main.c, which calls the firmware and then
-- `memmap_parse_uefi` and `kernel_main64`, the halt of a panic (panic.c), and timer64.c, which
-- nothing calls.
pub mod Base
pub mod Keyboard
pub mod Heap
pub mod Nkern
pub mod Memmap
pub mod Sched64
pub mod Terminal64
pub mod Acpi
pub mod Paging64
pub mod Gdt64
pub mod Idt
pub mod Apic
pub mod Smp
pub mod Fpu
pub mod Timer
pub mod Main
pub mod Main64
pub mod Terminal
pub mod Sched
