-- ===== src/Paging64/Tests.antt =====
-- paging64.c: the theorems at a machine that has just been started, and at one with the kernel's map.
use neka_kernel.Base.{ℕ, refl, arith}
use neka_kernel.Paging64.{
  alloc_frame, paging_init_kernel_map, create_address_space, create_user_process,
}
use neka_kernel.Paging64.Outcomes.{Ends}
use neka_kernel.Paging64.Supply.{IsAllocated, alloc_frame_lem}
use neka_kernel.Paging64.Boot.{IsBooted, init_kernel_map_lem}
use neka_kernel.Paging64.User.{IsProcess, create_user_process_lem}
use neka_kernel.Paging64.Private.{IsMade, create_address_space_lem}
use neka_kernel.Paging64.Isolation.{IsPrivate, spaces_are_isolated}
use neka_kernel.Paging64.Samples.{
  started, started-IsSound, with_map, with_map-IsSound, with_map-IsKernelMap, with_map-IsApart,
}
use neka_kernel.Paging64.Mmio.{AddsPage, map_mmio_correct}
use neka_kernel.Paging64.{paging_map_mmio_2mb}

alloc_frame_lem_example : Ends (IsAllocated 9 started) (alloc_frame 9 started)
alloc_frame_lem_example = alloc_frame_lem 9 started started-IsSound

init_kernel_map_lem_example : Ends (λ u. IsBooted 9 started) (paging_init_kernel_map 9 started)
init_kernel_map_lem_example = init_kernel_map_lem 9 started started-IsSound

create_address_space_lem_example : Ends (IsMade 9 with_map) (create_address_space 9 with_map)
create_address_space_lem_example =
    create_address_space_lem 9 with_map with_map-IsSound with_map-IsKernelMap

spaces_are_isolated_example :
    Ends
      (λ c1 s1.
        Ends
          (λ c2 s2. (p1 : ℕ) × (p2 : ℕ) × IsPrivate s2.mem c1 c2 p1 p2)
          (create_address_space 9 s1))
      (create_address_space 9 with_map)
spaces_are_isolated_example = spaces_are_isolated 9 with_map with_map-IsSound with_map-IsKernelMap

create_user_process_lem_example : Ends (IsProcess 9 with_map) (create_user_process 9 with_map)
create_user_process_lem_example =
    create_user_process_lem 9 with_map with_map-IsSound with_map-IsKernelMap refl

map_mmio_correct_example :
    Ends (λ u. AddsPage 9 0xfee0_0000 with_map) (paging_map_mmio_2mb 9 0xfee0_0000 with_map)
map_mmio_correct_example =
    map_mmio_correct 9 0xfee0_0000 with_map with_map-IsSound with_map-IsKernelMap with_map-IsApart
      refl (omega arith)
