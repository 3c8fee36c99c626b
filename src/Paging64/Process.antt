-- ===== src/Paging64/Process.antt =====
-- paging64.c: `map_user_page` in the address space of a process.
use neka_kernel.Base.{ℕ, ◌/◌, ◌%◌, ◌^◌, ◌<◌, ◌≡◌, bit_or, true, ◌==◌}
use neka_kernel.Paging64.{
  Paging64, ok, store, and_then, get_or_create_next_level, get_or_create_pdpt_entry_table,
  map_user_page,
}
use neka_kernel.Paging64.Outcomes.{Ends, Ends-bind}
use neka_kernel.Paging64.Supply.{IsSound, IsSound-mem, IsTaken, IsAllocated}
use neka_kernel.Paging64.Walk.{Points}
use neka_kernel.Paging64.Tables.{put}
use neka_kernel.Paging64.Levels.{
  next_level_present, IsGrown, next_level_missing, IsMapped, map_new-IsMapped, new_pd_empty,
}

-- The indexes of an address that shares the first entry of the PML4 with the kernel, in its second
-- gigabyte.
pub record HasIndexes (va d p : ℕ) : Type 0 where
  pub root : va / 2 ^ 39 % 512 ≡ 0
  pub second : va / 2 ^ 30 % 512 ≡ 1
  pub directory : va / 2 ^ 21 % 512 ≡ d
  pub table : va / 2 ^ 12 % 512 ≡ p

module _ (fuel pml4 pdpt va d p frame : ℕ) (s : Paging64) (x : HasIndexes va d p)
    (root : Points (s.mem pml4 0) pdpt true) where
  -- With all tables there, the page is entered.
  pub map_more :
      (pd pt : ℕ)
      → Points (s.mem pdpt 1) pd true
      → Points (s.mem pd d) pt true
      → map_user_page fuel pml4 va frame s
        ≡ ok tt (record s { mem = put s.mem pt p (bit_or frame 7) })
  unfolding map_user_page get_or_create_pdpt_entry_table
  map_more pd pt e3 e2 = rw (
    x.root,
    x.second,
    x.directory,
    x.table,
    next_level_present fuel pml4 0 3 pdpt true s root,
    next_level_present fuel pdpt 1 7 pd true s e3,
    next_level_present fuel pd d 7 pt true s e2,
  )

  -- The rest of the way behind a new directory.
  from_directory :
      (pd : ℕ) (s1 : Paging64)
      → IsAllocated fuel s pd s1
      → IsTaken s pdpt
      → d < 512
      → Ends
          (λ u. IsMapped fuel s pdpt d p frame)
          (and_then
            (get_or_create_next_level fuel pd d 7
              (record s1 { mem = put s1.mem pdpt 1 (bit_or pd 7) }))
            (λ pt. store pt p (bit_or frame 7)))
  from_directory pd s1 a1 t small =
      let s1' = record s1 { mem = put s1.mem pdpt 1 (bit_or pd 7) } in
      Ends-bind (IsGrown fuel s1' pd d) (λ u. IsMapped fuel s pdpt d p frame) _ _
        (next_level_missing fuel pd d s1' (IsSound-mem fuel s1 _ a1.sound)
          (new_pd_empty fuel s s1 pdpt d pd t small a1))
        (λ pt s2' g2.
          rw g2.after (map_new-IsMapped fuel s s1 g2.before pdpt d p frame pd pt t a1 g2.allocated))

  -- Without the second gigabyte, a directory and a table are made.
  pub map_new :
      IsSound fuel s
      → IsTaken s pdpt
      → (s.mem pdpt 1 % 2 == 0) ≡ true
      → d < 512
      → Ends (λ u. IsMapped fuel s pdpt d p frame) (map_user_page fuel pml4 va frame s)
  unfolding map_user_page get_or_create_pdpt_entry_table
  map_new sound t gone small =
      rw (x.root, x.second, x.directory, x.table, next_level_present fuel pml4 0 3 pdpt true s root)
        (Ends-bind (IsGrown fuel s pdpt 1) (λ u. IsMapped fuel s pdpt d p frame) _ _
          (next_level_missing fuel pdpt 1 s sound gone)
          (λ pd s1 g1. rw g1.after (from_directory pd g1.before g1.allocated t small)))
