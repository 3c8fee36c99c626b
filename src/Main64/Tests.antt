-- ===== src/Main64/Tests.antt =====
-- main64.c: the theorems at a small machine.
use neka_kernel.Base.{refl, arith, Bool, List, some}
use neka_kernel.Heap.{heap_init}
use neka_kernel.Nkern.Client.{kernel_lock}
use neka_kernel.Paging64.{create_address_space}
use neka_kernel.Paging64.Outcomes
use neka_kernel.Paging64.Samples.{with_map, with_map-IsSound, with_map-IsKernelMap}
use neka_kernel.Main64.{World, heap_self_test}
use neka_kernel.Main64.Runs.{Returns, Ends}
use neka_kernel.Main64.SelfTest.{Passes, heap_self_test_correct}
use neka_kernel.Main64.Demo.{run_threads}
use neka_kernel.Main64.Signatures.{at_start, IsIntact, signatures_hold}
use neka_kernel.Paging64.Samples.{with_device}
use neka_kernel.Main64.Boot.{Platform, Kernel}
use neka_kernel.Main64.Machine.{platform, free_lock, no_heap, loaded}

abbrev fresh : World (kernel_lock 0)
fresh = record { locks = free_lock; heap = heap_init 0x20_0000 no_heap; bytes = λ a. 0 }

heap_self_test_correct_example :
    Returns
      (Passes (kernel_lock 0) 0x20_0000 (omega arith) 32769 (omega arith) fresh)
      (heap_self_test (kernel_lock 0) 32769 fresh)
heap_self_test_correct_example =
    heap_self_test_correct (kernel_lock 0) 0x20_0000 (omega arith) 32769 (omega arith) free_lock
      no_heap (λ a. 0)

signatures_hold_example :
    Outcomes.Ends
      (λ c1 s1.
        Outcomes.Ends
          (λ c2 s2.
            (turns : List Bool)
            → IsIntact 0 (run_threads 0 c1 c2 turns (at_start s2.mem free_lock)))
          (create_address_space 9 s1))
      (create_address_space 9 with_map)
signatures_hold_example =
    signatures_hold 9 0 with_map free_lock with_map-IsSound with_map-IsKernelMap refl

-- The second CPU, which the boot CPU has just woken as the first of the others.
abbrev second : Platform
second = record platform { id_reg = 0x100_0000 }

abbrev woken : Kernel
woken = record loaded {
  paging = with_device;
  smp = record (loaded.smp) { g_ap_index_starting = some 0 };
}
