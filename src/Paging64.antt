-- ===== src/Paging64.antt =====
-- paging64.c: the allocator of frames behind the page tables, the kernel's map, and the address
-- spaces of threads and processes.
pub mod Outcomes
pub mod Supply
pub mod Walk
pub mod Tables
pub mod Kernel
pub mod Spaces
pub mod Private
pub mod Isolation
pub mod Boot
pub mod Directories
pub mod Devices
pub mod Mmio
mod Levels
pub mod Process
mod Program
pub mod Samples
pub mod User
mod Tests
use neka_kernel.Base.{
  ℕ, zero, suc, ◌+◌, ◌-◌, ◌*◌, ◌/◌, ◌%◌, ◌^◌, bit_or, Bool, true, false, Option, none, some, List,
  [], ◌∷◌, ltb, leb, ◌==◌, if◌then◌else◌, update,
}
use neka_kernel.Memmap.{Memmap, Frame, memmap_alloc_frame}

abbrev pub panic_out_of_frames : ℕ
panic_out_of_frames = 1

abbrev pub pool_frames : ℕ
pool_frames = 64

-- A page of memory as its 512 slots of 8 bytes.
abbrev pub Page : Type 0
Page = ℕ → ℕ

-- The static variables with the address of `frame_pool`, the state of memmap.c, the memory (the page
-- that begins at an address) and the register CR3.
pub record Paging64 : Type 0 where
  pub mem : ℕ → Page
  pub frame_pool : ℕ
  pub next_frame : ℕ
  pub kernel_pml4 : ℕ
  pub kernel_pdpt : ℕ
  pub memmap : Memmap
  pub cr3 : ℕ

-- How a function ends: a value, a panic, a page fault, or (with too little fuel for
-- `memmap_alloc_frame`) no answer.
pub data Run (A : Type 0) : Type 0 where
  ok : A → Paging64 → Run A
  panics : ℕ → Run A
  faults : Run A
  out_of_fuel : Run A

abbrev pub Cmd : Type 0 → Type 0
Cmd A = Paging64 → Run A

module _ {A B : Type 0} where
  abbrev pub and_then : Run A → (A → Cmd B) → Run B
  and_then (ok a s) k = k a s
  and_then (panics c) k = panics c
  and_then faults k = faults
  and_then out_of_fuel k = out_of_fuel

  infixl 5 ◌>>=◌ ◌>>◌
  abbrev pub ◌>>=◌ : Cmd A → (A → Cmd B) → Cmd B
  m >>= k = λ s. and_then (m s) k

  abbrev pub ◌>>◌ : Cmd A → Cmd B → Cmd B
  m >> n = m >>= λ _. n

abbrev pub load : ℕ → ℕ → Cmd ℕ
load page i s = ok (s.mem page i) s

abbrev pub store : ℕ → ℕ → ℕ → Cmd (Unit {0})
store page i v s = ok tt (record s { mem = update s.mem page (update (s.mem page) i v) })

-- A loop over the slots of one page.
abbrev pub rewrite : ℕ → (Page → Page) → Cmd (Unit {0})
rewrite page f s = ok tt (record s { mem = update s.mem page (f (s.mem page)) })

-- The first `n` rounds of the loop at the end of `alloc_frame`.
unfoldable pub clear_page : ℕ → Page → Page
clear_page zero page = page
clear_page (suc n) page = update (clear_page n page) n 0

-- The choice of the frame, before it is cleared.
unfoldable pub pick_frame : ℕ → Cmd ℕ
pick_frame fuel s =
    if s.memmap.map_active
    then elim (memmap_alloc_frame fuel s.memmap) [
      | none ↦ out_of_fuel
      | some r ↦ elim r.0 [
        | Frame.frame a ↦ ok a (record s { memmap = r.1 })
        | Frame.panics c ↦ panics c
      ]
    ]
    else if leb pool_frames s.next_frame
    then panics panic_out_of_frames
    else ok (s.frame_pool + s.next_frame * 4096) (record s { next_frame = s.next_frame + 1 })

-- A frame is cleared through the identity map, which covers the first gigabyte, and faults above it.
abbrev pub identity_end : ℕ
identity_end = 2 ^ 30

unfoldable pub reach_frame : ℕ → Cmd (Unit {0})
reach_frame frame s = if ltb frame identity_end then ok tt s else faults

unfoldable pub alloc_frame : ℕ → Cmd ℕ
unfolding clear_page pick_frame reach_frame
alloc_frame fuel = do
  frame ← pick_frame fuel
  reach_frame frame
  rewrite frame (clear_page 512)
  λ s. ok frame s

-- The first `n` entries of the identity map: `(i << 21) | 0x83`.
unfoldable pub fill_pd : ℕ → Page → Page
fill_pd zero pd = pd
fill_pd (suc n) pd = update (fill_pd n pd) n (bit_or (n * 2 ^ 21) 0x83)

unfoldable pub paging_init_kernel_map : ℕ → Cmd (Unit {0})
unfolding alloc_frame fill_pd
paging_init_kernel_map fuel = do
  pml4 ← alloc_frame fuel
  pdpt ← alloc_frame fuel
  pd ← alloc_frame fuel
  rewrite pd (fill_pd 512)
  store pdpt 0 (bit_or pd 0x03)
  store pml4 0 (bit_or pdpt 0x03)
  λ s. ok tt (record s { kernel_pml4 = pml4; kernel_pdpt = pdpt; cr3 = pml4 })

unfoldable pub paging_get_kernel_cr3 : Paging64 → ℕ
paging_get_kernel_cr3 s = s.kernel_pml4

unfoldable pub create_entry : ℕ → ℕ → ℕ → ℕ → ℕ → Cmd (Unit {0})
unfolding alloc_frame
create_entry fuel table idx flags entry =
    if entry % 2 == 0
    then alloc_frame fuel >>= (λ new_table. store table idx (bit_or new_table flags))
    else λ s. ok tt s

-- `get_or_create_next_level`; `get_or_create_pdpt_entry_table` is this with the flags 0x03.
unfoldable pub get_or_create_next_level : ℕ → ℕ → ℕ → ℕ → Cmd ℕ
unfolding create_entry
get_or_create_next_level fuel table idx flags = do
  entry ← load table idx
  create_entry fuel table idx flags entry
  present ← load table idx
  λ s. ok (present / 4096 * 4096) s

unfoldable pub get_or_create_pdpt_entry_table : ℕ → ℕ → ℕ → Cmd ℕ
unfolding get_or_create_next_level
get_or_create_pdpt_entry_table fuel pml4_table pml4_idx =
    get_or_create_next_level fuel pml4_table pml4_idx 0x03

unfoldable pub paging_map_mmio_2mb : ℕ → ℕ → Cmd (Unit {0})
unfolding get_or_create_next_level
paging_map_mmio_2mb fuel pa s =
    and_then (get_or_create_next_level fuel s.kernel_pdpt (pa / 2 ^ 30 % 512) 0x03 s)
      (λ pd. store pd (pa / 2 ^ 21 % 512) (bit_or pa 0x93))

unfoldable pub map_user_page : ℕ → ℕ → ℕ → ℕ → Cmd (Unit {0})
unfolding get_or_create_pdpt_entry_table get_or_create_next_level
map_user_page fuel pml4_table va frame = do
  pdpt_t ← get_or_create_pdpt_entry_table fuel pml4_table (va / 2 ^ 39 % 512)
  pd_t ← get_or_create_next_level fuel pdpt_t (va / 2 ^ 30 % 512) 0x07
  pt_t ← get_or_create_next_level fuel pd_t (va / 2 ^ 21 % 512) 0x07
  store pt_t (va / 2 ^ 12 % 512) (bit_or frame 0x07)

-- The first `n` rounds of the loop of `inherit_kernel_pdpt`.
unfoldable pub inherit_kernel_pdpt : ℕ → Page → Page → Page
inherit_kernel_pdpt zero kernel_pdpt new_pdpt = new_pdpt
inherit_kernel_pdpt (suc n) kernel_pdpt new_pdpt =
    let rest = inherit_kernel_pdpt n kernel_pdpt new_pdpt in
    if kernel_pdpt n % 2 == 0 then rest else update rest n (kernel_pdpt n)

abbrev pub demo_va : ℕ
demo_va = 0x4000_0000

unfoldable pub create_address_space : ℕ → Cmd ℕ
unfolding alloc_frame inherit_kernel_pdpt
create_address_space fuel = do
  new_pml4 ← alloc_frame fuel
  new_pdpt ← alloc_frame fuel
  priv_pd ← alloc_frame fuel
  priv_pt ← alloc_frame fuel
  priv_frame ← alloc_frame fuel
  λ s. rewrite new_pdpt (inherit_kernel_pdpt 512 (s.mem s.kernel_pdpt)) s
  store priv_pt 0 (bit_or priv_frame 0x03)
  store priv_pd 0 (bit_or priv_pt 0x03)
  store new_pdpt 1 (bit_or priv_pd 0x03)
  store new_pml4 0 (bit_or new_pdpt 0x03)
  λ s. ok new_pml4 s

abbrev pub user_code_va : ℕ
user_code_va = 0x5000_0000

abbrev pub user_stack_page_va : ℕ
user_stack_page_va = 0x5000_1000

abbrev pub user_program : List ℕ
user_program =
    0xb8 ∷ 0x01 ∷ 0x00 ∷ 0x00 ∷ 0x00 ∷ 0xbf ∷ 0x58 ∷ 0x00 ∷ 0x00 ∷ 0x00 ∷ 0xcd ∷ 0x80 ∷ 0xeb ∷ 0xfc
    ∷ []

-- One byte of a page: byte `i` is digit `i % 8`, to the base 256, of slot `i / 8`.
unfoldable pub set_byte : Page → ℕ → ℕ → Page
set_byte page i b =
    let old = page (i / 8) in
    let unit = 256 ^ (i % 8) in update page (i / 8) (old - old / unit % 256 * unit + b * unit)

-- `code_dst[i] = user_program[i]` from byte `i` on.
unfoldable pub copy_bytes : List ℕ → ℕ → Page → Page
unfolding set_byte
copy_bytes [] i page = page
copy_bytes (b ∷ bs) i page = copy_bytes bs (i + 1) (set_byte page i b)

unfoldable pub create_user_process : ℕ → Cmd ℕ
unfolding alloc_frame inherit_kernel_pdpt copy_bytes map_user_page
create_user_process fuel = do
  new_pml4 ← alloc_frame fuel
  new_pdpt ← alloc_frame fuel
  λ s. rewrite new_pdpt (inherit_kernel_pdpt 512 (s.mem s.kernel_pdpt)) s
  store new_pml4 0 (bit_or new_pdpt 0x07)
  code_frame ← alloc_frame fuel
  stack_frame ← alloc_frame fuel
  rewrite code_frame (copy_bytes user_program 0)
  map_user_page fuel new_pml4 user_code_va code_frame
  map_user_page fuel new_pml4 user_stack_page_va stack_frame
  λ s. ok new_pml4 s
