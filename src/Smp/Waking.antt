-- ===== src/Smp/Waking.antt =====
-- smp.c: how many CPUs the loop starts, and what each of them finds.
use neka_kernel.Base.{
  zero, suc, update, update_self, update_ne, ==→eq, sym, ◌∙◌, ℕ, ◌+◌, ◌<◌, ◌≤◌, ◌≡◌, ◌≢◌, inl, inr,
  refl, arith, Bool, List, [], ◌∷◌, length, leb, leb→le, leb→lt, ◌==◌, ==→ne, if◌then◌else◌,
  Bool-cases, true, false,
}
use mathlib.Core.Path.{subst}
use Prim.Native.Nat.{min}
use neka_kernel.Acpi.{Memory}
use neka_kernel.Gdt64.{store_bytes}
use neka_kernel.Heap.{Heap, Lock, heap_size, panic_heap_oom}
use neka_kernel.Heap.Cells.{Cell}
use neka_kernel.Heap.Safety.{IsHeap, IsArena}
use neka_kernel.Heap.Contract.{kmalloc_correct}
use neka_kernel.Smp.{
  Board, Ipi, Smp, copy_blob, fill_mailbox, send_init_sipi_sipi, wake, Result, start_loop,
  smp_start_aps, ap_stack_size, max_ap_cpus,
}
use neka_kernel.Smp.Mailbox.{IsGiven, IsReady, mailbox-IsReady}

abbrev pub AllReady : Board → ℕ → List Ipi → Type 0
AllReady g arena [] = Unit {0}
AllReady g arena (i ∷ is) = IsReady g arena i × AllReady g arena is

-- How many of the ids are not the boot CPU's and belong to a CPU that works.
unfoldable pub answering : Board → (ℕ → Bool) → List ℕ → ℕ
answering g works [] = 0
answering g works (id ∷ ids) =
    (if id == g.bsp_id then 0 else if works id then 1 else 0) + answering g works ids

-- The second and the third interrupt of the sequence: the startup of the page at 0x8000, where the
-- CPU finds the code of the trampoline and a complete mailbox.
pub record IsStartup (g : Board) (arena id : ℕ) (i : Ipi) : Type 0 where
  pub target : i.target ≡ id
  pub command : i.command ≡ 0x4608
  pub code : (n : ℕ) → n < g.blob_size → n < 0x100 → i.memory (0x8000 + n) ≡ g.blob n
  pub mailbox : IsReady g arena i

-- INIT and two startup interrupts for the CPU, the last one first.
abbrev pub IsWoken : Board → ℕ → ℕ → List Ipi → Type 0
IsWoken g arena id [] = ⊥
IsWoken g arena id (i ∷ []) = ⊥
IsWoken g arena id (i ∷ j ∷ []) = ⊥
IsWoken g arena id (i ∷ j ∷ k ∷ l) =
    IsStartup g arena id i × IsStartup g arena id j × (k.target ≡ id) × (k.command ≡ 0x4500)

-- A CPU that works sets its flag in time once it has got this sequence; one that does not never does.
abbrev pub Works : Board → ℕ → (ℕ → Bool) → Type 0
Works g arena works = (id : ℕ) (l : List Ipi) → IsWoken g arena id l → g.answers id l ≡ works id

answering_none : (g : Board) (works : ℕ → Bool) → answering g works [] ≡ 0
unfolding answering
answering_none g works = refl

count_step : (b : Bool) (n a : ℕ) → (if b then n + 1 else n) + a ≡ n + ((if b then 1 else 0) + a)
count_step true n a = omega arith
count_step false n a = omega arith

few_step : (b : Bool) (n : ℕ) → n < max_ap_cpus → (if b then n + 1 else n) ≤ max_ap_cpus
few_step true n h = omega arith
few_step false n h = omega arith

answering_own :
    (g : Board) (works : ℕ → Bool) (id : ℕ) (ids : List ℕ)
    → (id == g.bsp_id) ≡ true
    → answering g works (id ∷ ids) ≡ answering g works ids
unfolding answering
answering_own g works id ids e = rw e (omega arith)

answering_other :
    (g : Board) (works : ℕ → Bool) (id : ℕ) (ids : List ℕ)
    → (id == g.bsp_id) ≡ false
    → answering g works (id ∷ ids) ≡ (if works id then 1 else 0) + answering g works ids
unfolding answering
answering_other g works id ids e = rw e

wake-AllReady :
    (g : Board) (arena apic_id ap_stack started : ℕ) (s : Smp)
    → IsGiven g
    → IsArena arena
    → apic_id ≢ g.bsp_id
    → arena + 15 ≤ ap_stack
    → ap_stack + ap_stack_size ≤ arena + heap_size
    → AllReady g arena s.ipis
    → AllReady g arena (wake g apic_id ap_stack started s).ipis
unfolding wake send_init_sipi_sipi
wake-AllReady g arena apic_id ap_stack started s v at apart low high ready =
    let one = λ (command : ℕ).
      mailbox-IsReady g ap_stack (copy_blob g.blob g.blob_size s.memory) v (omega (arith, at)) arena
        apic_id command apart low high in
    (one _, (one _, (one _, ready)))

copied : (src : ℕ → ℕ) (k n : ℕ) (m : Memory) → n < k → copy_blob src k m (0x8000 + n) ≡ src n
unfolding copy_blob
copied src zero n m h = absurd (omega arith)
copied src (suc k) n m h = elim (Bool-cases (k == n)) [
  | inl e ↦
      let q = ==→eq k n e in
      subst (λ (x : ℕ). update (copy_blob src k m) (0x8000 + k) (src k) (0x8000 + x) ≡ src x) q
        (update_self (copy_blob src k m) (0x8000 + k) (src k))
  | inr e ↦
      let d = ==→ne k n e in
      update_ne (copy_blob src k m) (0x8000 + k) (0x8000 + n) (src k)
        (λ q. absurd (d (omega arith)))
      ∙ copied src k n m (omega arith)
]

-- The mailbox lies behind the code.
code_kept :
    (g : Board) (ap_stack n : ℕ) (m : Memory)
    → n < 0x100
    → fill_mailbox g ap_stack m (0x8000 + n) ≡ m (0x8000 + n)
unfolding fill_mailbox store_bytes
code_kept g ap_stack n m h = ground arith

wake-Works :
    (g : Board) (arena apic_id ap_stack started : ℕ) (s : Smp) (works : ℕ → Bool)
    → Works g arena works
    → IsGiven g
    → IsArena arena
    → apic_id ≢ g.bsp_id
    → arena + 15 ≤ ap_stack
    → ap_stack + ap_stack_size ≤ arena + heap_size
    → (wake g apic_id ap_stack started s).ap_ready started ≡ works apic_id
unfolding wake send_init_sipi_sipi
wake-Works g arena apic_id ap_stack started s works hardware v at apart low high =
    let m = copy_blob g.blob g.blob_size s.memory in
    let startup : IsStartup g arena apic_id
        (record { target = apic_id; command = 0x4608; memory = fill_mailbox g ap_stack m }) =
      record {
        target = refl;
        command = refl;
        code = λ n inside before.
            code_kept g ap_stack n m before ∙ copied g.blob g.blob_size n s.memory inside;
        mailbox = mailbox-IsReady g ap_stack m v (omega (arith, at)) arena apic_id _ apart low high;
      } in
    update_self (update s.ap_ready started false) started _
    ∙ hardware apic_id _ (startup, startup, refl, refl)

module _ (L : Lock) (arena : ℕ) (at : IsArena arena) where
  open L use {State}

  -- The loop ends with the CPUs that answer, at most 8; every interrupt it sent is for another CPU and
  -- comes with a complete mailbox; and the heap is well formed.
  pub record IsStarted (g : Board) (n : ℕ) (s : Smp) (h : Heap) (expected : ℕ) : Type 0 where
    pub count : n ≡ min max_ap_cpus expected
    pub ready : AllReady g arena s.ipis
    pub cells : List Cell
    pub heap : IsHeap arena h cells

  abbrev pub Ends : Board → ℕ → Result L → Type 0
  Ends g expected (Result.ends n s t h) = IsStarted g n s h expected
  Ends g expected (Result.panics c) = c ≡ panic_heap_oom
  Ends g expected Result.out_of_fuel = ⊥

  module _ (fuel : ℕ) (g : Board) (fu : 32768 < fuel) (v : IsGiven g) (works : ℕ → Bool)
      (hardware : Works g arena works) where
    next_round :
        (id : ℕ) (ids : List ℕ) (started : ℕ) (s1 : Smp) (t : State) (h : Heap)
        → started < max_ap_cpus
        → s1.ap_ready started ≡ works id
        → ((next : ℕ)
            → next ≤ max_ap_cpus
            → Ends g (next + answering g works ids) (start_loop L fuel g ids next s1 t h))
        → Ends g
            (started + ((if works id then 1 else 0) + answering g works ids))
            (start_loop L fuel g ids (if s1.ap_ready started then started + 1 else started) s1 t h)
    next_round id ids started s1 t h room answered go =
        subst
          (λ (b : Bool).
            Ends g (started + ((if works id then 1 else 0) + answering g works ids))
              (start_loop L fuel g ids (if b then started + 1 else started) s1 t h))
          (sym answered)
          (subst
            (λ (e : ℕ).
              Ends g e (start_loop L fuel g ids (if works id then started + 1 else started) s1 t h))
            (count_step (works id) started (answering g works ids))
            (go (if works id then started + 1 else started) (few_step (works id) started room)))

    start_loop_lem :
        (ids : List ℕ) (started : ℕ) (s : Smp) (t : State) (h : Heap) (l : List Cell)
        → IsHeap arena h l
        → AllReady g arena s.ipis
        → started ≤ max_ap_cpus
        → Ends g (started + answering g works ids) (start_loop L fuel g ids started s t h)
    unfolding start_loop
    start_loop_lem [] started s t h l hv ready few = record {
      count = omega (arith, answering_none g works);
      ready = ready;
      cells = l;
      heap = hv;
    }
    start_loop_lem (id ∷ ids) started s t h l hv ready few =
        elim (Bool-cases (leb max_ap_cpus started)) [
          | inl full ↦ rw full (record {
            count = omega (arith, leb→le _ _ full);
            ready = ready;
            cells = l;
            heap = hv;
          })
          | inr room ↦ elim (Bool-cases (id == g.bsp_id)) [
            | inl own ↦
                rw (room, own, answering_own g works id ids own)
                  (start_loop_lem ids started s t h l hv ready few)
            | inr other ↦
                elim (kmalloc_correct L arena at fuel ap_stack_size t h l hv fu (omega arith)
                  (omega arith)) [
                    | inl (none_left, e) ↦ rw (room, other, e) refl
                    | inr (x, k, h1, served) ↦
                        rw (room, other, served.result, answering_other g works id ids other)
                          (next_round id ids started (wake g id (x + 32 + 4) started s)
                            (L.unlock (L.lock t)) h1 (leb→lt _ _ room)
                            (wake-Works g arena id (x + 32 + 4) started s works hardware v at
                              (==→ne _ _ other) (omega (arith, served.inside))
                              (omega (arith, served.inside, served.room)))
                            (λ next few.
                              start_loop_lem ids next _ _ h1 _ served.valid
                                (wake-AllReady g arena id (x + 32 + 4) started s v at
                                  (==→ne _ _ other) (omega (arith, served.inside))
                                  (omega (arith, served.inside, served.room)) ready)
                                few))
                  ]
          ]
        ]

    pub smp_start_aps_correct :
        (ids : List ℕ) (s : Smp) (t : State) (h : Heap) (l : List Cell)
        → IsHeap arena h l
        → AllReady g arena s.ipis
        → 1 < length ids
        → Ends g (answering g works ids) (smp_start_aps L fuel g ids s t h)
    unfolding smp_start_aps
    smp_start_aps_correct ids s t h l hv ready several =
        let more : leb (length ids) 1 ≡ false = ground arith in
        let all : 0 + answering g works ids ≡ answering g works ids = omega arith in
        rw more (
          subst (λ (e : ℕ). Ends g e (start_loop L fuel g ids 0 s t h)) all
            (start_loop_lem ids 0 s t h l hv ready (omega arith)))
