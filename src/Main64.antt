-- ===== src/Main64.antt =====
-- main64.c: the boot of the 64-bit kernel, and its demonstration threads.
pub mod Runs
mod Patterns
mod Blocks
mod Steps
mod Stores
mod SelfTest
pub mod Demo
mod Bytes
mod Views
mod Rounds
mod Signatures
pub mod Boot
pub mod Start
mod Phases
mod Devices
mod Memory
mod Spawning
mod Cpus
mod First
mod Booting
mod Entry
mod Joining
mod Machine
mod Tests
use neka_kernel.Base.{
  ℕ, zero, suc, ◌+◌, ◌≡◌, Bool, true, false, ◌||◌, ◌&&◌, ltb, not, Option, none, some, ◌==◌,
  if◌then◌else◌, update,
}
use neka_kernel.Heap.{Heap, Block, sizeof_block, Outcome, Lock, kmalloc, kfree, heap_free_bytes}
use neka_kernel.Main64.Runs.{Run, Panic, ok, panics, faults, out_of_fuel, Cmd, ◌>>=◌, ◌>>◌}

-- `for (int i = 0; i < n; i++) ((uint8_t*)p)[i] = v;`
unfoldable pub fill : ℕ → ℕ → ℕ → (ℕ → ℕ) → ℕ → ℕ
fill p zero v bytes = bytes
fill p (suc n) v bytes = update (fill p n v bytes) (p + n) v

-- `for (int i = 0; i < n; i++) if (((uint8_t*)p)[i] != v) corrupted = 1;`
unfoldable pub differs : ℕ → ℕ → ℕ → (ℕ → ℕ) → Bool
differs p zero v bytes = false
differs p (suc n) v bytes = differs p n v bytes || not (bytes (p + n) == v)

-- Whether the `n` bytes from `p` on touch the header of a block, or the magic number behind it, in the
-- list from `b` on.
unfoldable pub hits : ℕ → (ℕ → Block) → ℕ → ℕ → ℕ → Option Bool
hits zero m b p n = none
hits (suc fuel) m b p n =
    let rest = hits fuel m (m b).next p n in
    if b == 0
    then some false
    else if ltb p (b + sizeof_block + 4) && ltb b (p + n)
    then some true
    else rest

module _ (L : Lock) where
  open L use {State}

  -- The kernel lock, the heap, and the bytes that the test writes.
  pub record World : Type 0 where
    pub locks : State
    pub heap : Heap
    pub bytes : ℕ → ℕ

  abbrev pub ended : Outcome → State → Heap → (ℕ → ℕ) → Run World ℕ
  ended (Outcome.returns p) t h b = ok p (record { locks = t; heap = h; bytes = b })
  ended (Outcome.panics c) t h b = panics (Panic.heap c)

  unfoldable pub malloc : ℕ → ℕ → Cmd World ℕ
  malloc fuel size w = elim (kmalloc L fuel size (w.locks, w.heap)) [
    | none ↦ out_of_fuel
    | some (o, t, h) ↦ ended o t h w.bytes
  ]

  unfoldable pub free : ℕ → Cmd World ℕ
  free ptr w = let (o, t, h) = kfree L ptr (w.locks, w.heap) in ended o t h w.bytes

  unfoldable pub bytes_left : ℕ → Cmd World ℕ
  bytes_left fuel w = elim (heap_free_bytes fuel w.heap) [ none ↦ out_of_fuel | some n ↦ ok n w ]

  -- The bytes are the same memory as the headers and the magic numbers: a store that touches one of
  -- those damages the heap, and the run ends there.
  unfoldable pub store_pattern : ℕ → ℕ → ℕ → ℕ → Cmd World (Unit {0})
  unfolding fill hits
  store_pattern fuel p n v w = elim (hits fuel w.heap.block w.heap.heap_list p n) [
    | none ↦ out_of_fuel
    | some true ↦ faults
    | some false ↦ ok tt (record w { bytes = fill p n v w.bytes })
  ]

  -- Whether the patterns were found damaged, and whether all bytes were free again at the end.
  unfoldable pub heap_self_test : ℕ → Cmd World (Bool × Bool)
  unfolding differs malloc free bytes_left store_pattern
  heap_self_test fuel = do
    initial_free ← bytes_left fuel
    p1 ← malloc fuel 100
    p2 ← malloc fuel 4000
    p3 ← malloc fuel 50
    p4 ← malloc fuel 20000
    p5 ← malloc fuel 16
    store_pattern fuel p1 100 0xaa
    store_pattern fuel p3 50 0xbb
    store_pattern fuel p5 16 0xcc
    corrupted ← λ w.
        ok (differs p1 100 0xaa w.bytes || differs p3 50 0xbb w.bytes || differs p5 16 0xcc w.bytes)
          w
    free p3
    free p1
    free p4
    free p2
    free p5
    final_free ← bytes_left fuel
    λ w. ok (corrupted, final_free == initial_free) w
