-- ===== src/Heap.antt =====
-- heap.c: the kernel's first-fit allocator, a doubly linked list of all blocks in address order.
pub mod Chain
pub mod Cells
mod Alloc
mod Join
mod Free
mod Layout
mod Freeing
pub mod Safety
pub mod Contract
mod Tests
use neka_kernel.Base.{
  ℕ, zero, suc, ◌+◌, ◌-◌, ◌*◌, ◌/◌, ◌%◌, ◌^◌, ◌≡◌, Bool, true, false, ◌&&◌, Option, none, some, leb,
  ◌==◌, if◌then◌else◌, update,
}

abbrev pub heap_size : ℕ
heap_size = 1024 * 1024

abbrev pub sizeof_block : ℕ
sizeof_block = 32

abbrev pub block_magic : ℕ
block_magic = 0xDEAD_C0DE

abbrev pub panic_heap_oom : ℕ
panic_heap_oom = 1

abbrev pub panic_heap_corrupt : ℕ
panic_heap_corrupt = 2

-- `block_t`; a pointer is an address, and 0 is NULL.
pub record Block : Type 0 where
  pub size : ℕ
  pub free : Bool
  pub next : ℕ
  pub prev : ℕ

-- `heap_list`, the headers by their address, and the 32-bit words in which the magic numbers stand.
pub record Heap : Type 0 where
  pub heap_list : ℕ
  pub block : ℕ → Block
  pub word : ℕ → ℕ

-- What a caller sees: a returned pointer, or the halt of `neka_panic("HEAP", code)`.
pub data Outcome : Type 0 where
  returns : ℕ → Outcome
  panics : ℕ → Outcome

unfoldable pub align16 : ℕ → ℕ
align16 n = (n + 15) % 2 ^ 64 / 16 * 16

-- `arena` is the address of `heap_arena`.
unfoldable pub heap_init : ℕ → Heap → Heap
heap_init arena h = record h {
  heap_list = arena;
  block =
      update h.block arena
        (record { size = heap_size - sizeof_block; free = true; next = 0; prev = 0 });
}

-- The loop over the list, with fuel: `none` means that it ran out, and `some 0` is NULL.
unfoldable pub find_free_block : ℕ → (ℕ → Block) → ℕ → ℕ → Option ℕ
find_free_block zero m b size = none
find_free_block (suc fuel) m b size =
    let rest = find_free_block fuel m (m b).next size in
    if b == 0 then some 0 else if (m b).free && leb size (m b).size then some b else rest

unfoldable pub split_block : (ℕ → Block) → ℕ → ℕ → ℕ → Block
split_block m b size =
    let remaining = ((m b).size + 2 ^ 64 - size) % 2 ^ 64 in
    if leb remaining (sizeof_block + 16)
    then m
    else let fresh = b + sizeof_block + size in
      let m1 =
        update m fresh
          (record { size = remaining - sizeof_block; free = true; next = (m b).next; prev = b }) in
      let next = (m1 b).next in
      let m2 = if next == 0 then m1 else update m1 next (record (m1 next) { prev = fresh }) in
      update m2 b (record (m2 b) { next = fresh; size = size })

unfoldable pub coalesce_forward : (ℕ → Block) → ℕ → ℕ → Block
coalesce_forward m b =
    let n = (m b).next in
    if n == 0
    then m
    else if (m n).free
    then (let m1 =
          update m b
            (record (m b) { size = (m b).size + (sizeof_block + (m n).size); next = (m n).next }) in
        let after = (m1 n).next in
        if after == 0 then m1 else update m1 after (record (m1 after) { prev = b }))
    else m

-- The part of `kmalloc` on the block that was found.
unfoldable pub take_block : (ℕ → Block) → ℕ → ℕ → ℕ → Block
unfolding split_block
take_block m b total_needed =
    let m1 = split_block m b total_needed in update m1 b (record (m1 b) { free = false })

-- The part of `kfree` on the block whose magic number was right.
unfoldable pub release_block : (ℕ → Block) → ℕ → ℕ → Block
release_block m b =
    let m1 = coalesce_forward (update m b (record (m b) { free = true })) b in
    let prev = (m1 b).prev in
    if prev == 0 then m1 else if (m1 prev).free then coalesce_forward m1 prev else m1

-- `NKern_Lock` and `NKern_Unlock` as the heap uses them: on the state of the kernel's lock, with
-- the depth to which the calling CPU holds it.
pub record Lock : Type 1 where
  pub State : Type 0
  pub lock : State → State
  pub unlock : State → State
  pub depth : State → ℕ
  pub depth-lock : (s : State) → depth (lock s) ≡ depth s + 1
  pub depth-unlock : (s : State) → depth (unlock s) ≡ depth s - 1

module _ (L : Lock) where
  open L use {State, lock, unlock}

  unfoldable pub kmalloc : ℕ → ℕ → State × Heap → Option (Outcome × State × Heap)
  kmalloc fuel size (s, h) =
      let total_needed = (align16 size + 4) % 2 ^ 64 in
      let s1 = lock s in
      let found =
        elim (find_free_block fuel h.block h.heap_list total_needed)
          as (λ _. Option (Outcome × State × Heap)) [
            | none ↦ none
            | some b ↦
                if b == 0
                then some (Outcome.panics panic_heap_oom, unlock s1, h)
                else some (
                  Outcome.returns (b + sizeof_block + 4),
                  unlock s1,
                  record h {
                    block = take_block h.block b total_needed;
                    word = update h.word (b + sizeof_block) block_magic;
                  },
                )
          ] in
      if size == 0 then some (Outcome.returns 0, s, h) else found

  unfoldable pub kfree : ℕ → State × Heap → Outcome × State × Heap
  kfree ptr (s, h) =
      if ptr == 0
      then (Outcome.returns 0, s, h)
      else let s1 = lock s in
        let magic_slot = (ptr + 2 ^ 64 - 4) % 2 ^ 64 in
        if h.word magic_slot == block_magic
        then (let b = (magic_slot + 2 ^ 64 - sizeof_block) % 2 ^ 64 in
            (
              Outcome.returns 0,
              unlock s1,
              record h { block = release_block h.block b; word = update h.word magic_slot 0 },
            ))
        else (Outcome.panics panic_heap_corrupt, unlock s1, h)

-- `heap_free_bytes`, with fuel for the loop.
unfoldable pub free_bytes : ℕ → (ℕ → Block) → ℕ → ℕ → Option ℕ
free_bytes zero m b total = none
free_bytes (suc fuel) m b total =
    let rest = free_bytes fuel m (m b).next (if (m b).free then total + (m b).size else total) in
    if b == 0 then some total else rest

unfoldable pub heap_free_bytes : ℕ → Heap → Option ℕ
unfolding free_bytes
heap_free_bytes fuel h = free_bytes fuel h.block h.heap_list 0
