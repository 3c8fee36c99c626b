-- ===== src/Main64/Demo.antt =====
-- main64.c: the demonstration threads, each of which signs its private page and checks the signature
-- later. One step is one access to memory, so a timer interrupt may come between any two.
use neka_kernel.Base.{
  ℕ, ◌+◌, ◌*◌, ◌/◌, ◌%◌, ◌^◌, Bool, true, false, Option, none, some, List, [], ◌∷◌, ltb, ◌==◌,
  if◌then◌else◌, update,
}
use neka_kernel.Nkern.{Nkern, nkern_lock, nkern_unlock}
use neka_kernel.Paging64.{Page, demo_va, set_byte}
use neka_kernel.Paging64.Walk.{translate}

unfoldable pub get_byte : Page → ℕ → ℕ
get_byte page i = page (i / 8) / 256 ^ (i % 8) % 256

-- `p[i] = c` and `p[i]` through the tables at `cr3`; `none` is a page fault.
unfoldable pub store_char : ℕ → ℕ → ℕ → (ℕ → Page) → Option (ℕ → Page)
store_char cr3 va c mem = elim (translate mem cr3 va) [
  | none ↦ none
  | some (pa, user) ↦
      let page = pa / 4096 * 4096 in some (update mem page (set_byte (mem page) (pa % 4096) c))
]

unfoldable pub load_char : ℕ → ℕ → (ℕ → Page) → Option ℕ
load_char cr3 va mem = elim (translate mem cr3 va) [
  | none ↦ none
  | some (pa, user) ↦ some (get_byte (mem (pa / 4096 * 4096)) (pa % 4096))
]

-- Where a thread stands in its loop: before the counter, in round `i` of `write_signature`, in the
-- delay, in round `i` of `verify_signature`, before the line that it prints, or with the kernel lock.
pub data Phase : Type 0 where
  counts : Phase
  writes : ℕ → Phase
  works : Phase
  reads : ℕ → Phase
  prints : Bool → Phase
  holds : Phase

pub record Demo : Type 0 where
  pub counter : ℕ
  pub phase : Phase

-- The memory, and the state of the kernel lock.
pub record Shared : Type 0 where
  pub mem : ℕ → Page
  pub nkern : Nkern

abbrev pub moves : ℕ → Phase → Shared → Option (Demo × Shared)
moves counter phase s = some (record { counter = counter; phase = phase }, s)

-- `for (int i = 0; i < 4; i++) p[i] = c;`
unfoldable pub write_signature : ℕ → ℕ → ℕ → ℕ → Shared → Option (Demo × Shared)
unfolding store_char
write_signature cr3 c counter i s =
    if ltb i 4
    then elim (store_char cr3 (demo_va + i) c s.mem) [
      | none ↦ none
      | some mem ↦ moves counter (writes (i + 1)) (record s { mem = mem })
    ]
    else moves counter works s

-- `for (int i = 0; i < 4; i++) if (p[i] != expected) return 0;`
unfoldable pub verify_signature : ℕ → ℕ → ℕ → ℕ → Shared → Option (Demo × Shared)
unfolding load_char
verify_signature cr3 expected counter i s =
    if ltb i 4
    then elim (load_char cr3 (demo_va + i) s.mem) [
      | none ↦ none
      | some b ↦ moves counter (if b == expected then reads (i + 1) else prints false) s
    ]
    else moves counter (prints true) s

-- What both threads do, with what comes behind the printed line.
unfoldable pub sign_and_check :
    ℕ
    → ℕ
    → (ℕ → Shared → Option (Demo × Shared))
    → (Shared → Shared)
    → Demo
    → Shared
    → Option (Demo × Shared)
unfolding write_signature verify_signature
sign_and_check cr3 c printed released d s = elim d.phase [
  | counts ↦ moves ((d.counter + 1) % 2 ^ 32) (writes 0) s
  | writes i ↦ write_signature cr3 c d.counter i s
  | works ↦ moves d.counter (reads 0) s
  | reads i ↦ verify_signature cr3 c d.counter i s
  | prints verdict ↦ printed d.counter s
  | holds ↦ moves d.counter counts (released s)
]

-- Every fifth round takes the kernel lock, on the CPU `cpu`.
unfoldable pub enter_section : ℕ → ℕ → Shared → Option (Demo × Shared)
enter_section cpu counter s =
    if counter % 5 == 0
    then moves counter holds (record s { nkern = nkern_lock cpu s.nkern })
    else moves counter counts s

unfoldable pub thread_a : ℕ → ℕ → Demo → Shared → Option (Demo × Shared)
unfolding sign_and_check enter_section
thread_a cpu cr3 d s =
    sign_and_check cr3 b'A' (enter_section cpu)
      (λ u. record u { nkern = (nkern_unlock cpu u.nkern).1 }) d s

unfoldable pub thread_b : ℕ → Demo → Shared → Option (Demo × Shared)
unfolding sign_and_check
thread_b cr3 d s = sign_and_check cr3 b'B' (λ counter u. moves counter counts u) (λ u. u) d s

-- Both threads, run in the order that the scheduler chooses: `true` is a step of thread A.
pub record Pair : Type 0 where
  pub a : Demo
  pub b : Demo
  pub shared : Shared

unfoldable pub run_threads : ℕ → ℕ → ℕ → List Bool → Pair → Option Pair
unfolding thread_a thread_b
run_threads cpu cr3_a cr3_b [] p = some p
run_threads cpu cr3_a cr3_b (true ∷ turns) p = elim (thread_a cpu cr3_a p.a p.shared) [
  | none ↦ none
  | some (a, s) ↦ run_threads cpu cr3_a cr3_b turns (record p { a = a; shared = s })
]
run_threads cpu cr3_a cr3_b (false ∷ turns) p = elim (thread_b cr3_b p.b p.shared) [
  | none ↦ none
  | some (b, s) ↦ run_threads cpu cr3_a cr3_b turns (record p { b = b; shared = s })
]
