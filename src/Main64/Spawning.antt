-- ===== src/Main64/Spawning.antt =====
-- main64.c: the phase of `kernel_main64` that makes the four threads.
use neka_kernel.Base.{
  ℕ, ◌+◌, ◌%◌, ◌<◌, ◌≤◌, ◌≡◌, refl, ap, ◌∙◌, sym, arith, true, false, ◌||◌, Option, none, List, [],
  ◌∷◌, ◌++◌, leb, ◌==◌, Bool-cases, ==→eq, inl, inr, update, update_self, bit_zero, lt→ltb,
}
use mathlib.Core.Path.{subst}
use neka_kernel.Paging64.{Paging64, Page, create_address_space, create_user_process}
use neka_kernel.Paging64.Supply.{IsSound}
use neka_kernel.Paging64.Kernel.{IsKernelMap}
use neka_kernel.Paging64.Private.{IsMade, create_address_space_lem}
use neka_kernel.Paging64.User.{IsProcess, create_user_process_lem}
use neka_kernel.Sched64.{
  Scheduler64, Thread64, Given, max_threads64, num_priorities64, sched64_init,
  sched64_create_thread,
}
use neka_kernel.Sched64.Rings.{Ring-same}
use neka_kernel.Sched64.Queues.{IsQueued}
use neka_kernel.Sched64.Create.{IsCreated, create_correct}
use neka_kernel.Terminal64.{Terminal64}
use neka_kernel.Main64.Runs.{Cmd, and_then, Ends, Ends-bind}
use neka_kernel.Main64.Boot.{Platform, Kernel}
use neka_kernel.Main64.Start.{spawn, set_up_threads, set_cr3, created}
use neka_kernel.Main64.Phases.{Allowed, SameCore, paging_bind}

-- `sched64_init` empties every queue.
init-IsQueued : (s : Scheduler64) → IsQueued (sched64_init s) (λ p. [])
unfolding sched64_init
init-IsQueued s = record {
  rings = λ p l. rw (lt→ltb p num_priorities64 l) tt;
  idle = λ p l. refl;
  distinct = λ p. tt;
  below = λ p. tt;
  apart = λ p r d. tt;
  bounded = λ p. omega arith;
  bits = λ p l. bit_zero p;
  small = omega arith;
}

init_idle : (s : Scheduler64) (c : ℕ) → c < 16 → (sched64_init s).current c ≡ none
unfolding sched64_init
init_idle s c l = rw (lt→ltb c 16 l)

-- The kernel with `n` threads in the queues `q`, none of which runs.
pub record IsPopulated (fuel : ℕ) (k0 : Kernel) (n : ℕ) (q : ℕ → List ℕ) (k : Kernel) : Type 0 where
  pub sound : IsSound fuel k.paging
  pub kernel : IsKernelMap k.paging
  pub second : (k.paging.mem k.paging.kernel_pdpt 1 % 2 == 0) ≡ true
  pub pml4 : k.paging.kernel_pml4 ≡ k0.paging.kernel_pml4
  pub queued : IsQueued k.scheduler q
  pub count : k.scheduler.thread64_count ≡ n
  pub idle : (c : ℕ) → c < 16 → k.scheduler.current c ≡ none
  pub nkern : k.scheduler.nkern ≡ k0.scheduler.nkern
  pub heap : k.heap ≡ k0.heap
  pub smp : k.smp ≡ k0.smp
  pub g_rsdp : k.g_rsdp ≡ k0.g_rsdp
  pub core : SameCore k0 k

module _ (fuel : ℕ) (b : Platform) (k0 : Kernel) where
  -- The kernel with the new thread and its address space.
  IsPopulated-more :
      (g : Given) (prio n : ℕ) (q : ℕ → List ℕ) (k : Kernel) (cr3 : ℕ) (p : Paging64)
      (s : Scheduler64)
      → IsPopulated fuel k0 n q k
      → IsMade fuel k.paging cr3 p
      → IsCreated g prio k.scheduler q s
      → IsPopulated fuel k0
          (n + 1)
          (update q prio (q prio ++ (n ∷ [])))
          (record k { paging = p; scheduler = s })
  IsPopulated-more g prio n q k cr3 p s v m h = record {
    sound = m.sound;
    kernel = m.kernel;
    second =
        let page = ap p.mem m.same_pdpt ∙ (m.keeps k.paging.kernel_pdpt v.kernel.pdpt_taken).0 in
        ap (λ (t : Page). t 1 % 2 == 0) page ∙ v.second;
    pml4 = m.same_pml4 ∙ v.pml4;
    queued = subst (λ (t : ℕ). IsQueued s (update q prio (q prio ++ (t ∷ [])))) v.count h.queued;
    count = h.counted ∙ ap (λ (t : ℕ). t + 1) v.count;
    idle = λ c l. ap (λ (f : ℕ → Option ℕ). f c) h.running ∙ v.idle c l;
    nkern = h.unlocked ∙ v.nkern;
    heap = v.heap;
    smp = v.smp;
    g_rsdp = v.g_rsdp;
    core = record { fpu = v.core.fpu; gdt = v.core.gdt; idt = v.core.idt };
  }

  created_lem :
      (g : Given) (prio n : ℕ) (q : ℕ → List ℕ) (k : Kernel) (cr3 : ℕ) (p : Paging64)
      → IsPopulated fuel k0 n q k
      → IsMade fuel k.paging cr3 p
      → n < max_threads64
      → prio < num_priorities64
      → max_threads64 ≤ fuel
      → Ends
          (Allowed b)
          (λ t k'. (t ≡ n) × IsPopulated fuel k0 (n + 1) (update q prio (q prio ++ (n ∷ []))) k')
          (created (sched64_create_thread fuel g prio k.scheduler) (record k { paging = p }))
  created_lem g prio n q k cr3 p v m room in_range enough =
      elim (create_correct fuel g prio k.scheduler q v.queued (omega (arith, v.count))) [
        | inl (refused, e) ↦
            absurd (elim refused [ inl full ↦ omega (arith, v.count) | inr high ↦ omega arith ])
        | inr (_, _, made) ↦
            rw (made.1) (v.count, IsPopulated-more g prio n q k cr3 p made.0 v m made.2)
      ]

  spawn_bind :
      (g : Given) (prio n : ℕ) (q : ℕ → List ℕ) (k : Kernel) {B : Type 0} (R : B → Kernel → Type 0)
      (next : ℕ → Cmd Kernel B)
      → IsPopulated fuel k0 n q k
      → n < max_threads64
      → prio < num_priorities64
      → max_threads64 ≤ fuel
      → ((t : ℕ) (k' : Kernel)
          → (t ≡ n) × IsPopulated fuel k0 (n + 1) (update q prio (q prio ++ (n ∷ []))) k'
          → Ends (Allowed b) R (next t k'))
      → Ends (Allowed b) R (and_then (spawn fuel g prio k) next)
  unfolding spawn
  spawn_bind g prio n q k R next v room in_range enough go =
      let accepted : (leb max_threads64 k.scheduler.thread64_count || leb num_priorities64 prio)
          ≡ false =
        ground (arith, v.count) in
      let P = λ (t : ℕ) (k' : Kernel).
        (t ≡ n) × IsPopulated fuel k0 (n + 1) (update q prio (q prio ++ (n ∷ []))) k' in
      Ends-bind (Allowed b) P R (spawn fuel g prio k) next
        (rw (accepted, spawn)
          (paging_bind b k (IsMade fuel k.paging) P (create_address_space fuel k.paging) _
            (create_address_space_lem fuel k.paging v.sound v.kernel)
            (λ cr3 p m.
              created_lem (record g { address_space = cr3 }) prio n q k cr3 p v m room in_range
                enough)))
        go

-- A write to the address space of a thread leaves the queues alone.
set_cr3-IsQueued :
    (s : Scheduler64) (q : ℕ → List ℕ) (t c : ℕ)
    → IsQueued s q
    → IsQueued
        (record s { threads64 = update s.threads64 t (record (s.threads64 t) { cr3 = c }) })
        q
set_cr3-IsQueued s q t c v =
    let threads = update s.threads64 t (record (s.threads64 t) { cr3 = c }) in
    let same : (x : ℕ) → (threads x).next ≡ (s.threads64 x).next = λ x. elim (Bool-cases (t == x)) [
      | inl e ↦ rw e (ap (λ (y : ℕ). (s.threads64 y).next) (==→eq t x e))
      | inr e ↦ rw e
    ] in
    record {
      rings = λ p l. Ring-same s.threads64 threads (s.ready_queue p) (q p) same (v.rings p l);
      idle = v.idle;
      distinct = v.distinct;
      below = v.below;
      apart = v.apart;
      bounded = v.bounded;
      bits = v.bits;
      small = v.small;
    }

-- Threads A, B and the launcher, numbers 0, 1 and 3, have priority 5, and thread C has priority 2.
abbrev pub ready_queues : ℕ → List ℕ
ready_queues =
    update (update (update (update (λ p. []) 5 (0 ∷ [])) 5 (0 ∷ 1 ∷ [])) 2 (2 ∷ [])) 5
      (0 ∷ 1 ∷ 3 ∷ [])

-- The kernel with its four threads, of which the launcher has a process of its own.
pub record AreReady (fuel : ℕ) (k0 k : Kernel) : Type 0 where
  pub queued : IsQueued k.scheduler ready_queues
  pub idle : (c : ℕ) → c < 16 → k.scheduler.current c ≡ none
  pub before : Paging64
  pub process : IsProcess fuel before (k.scheduler.threads64 3).cr3 k.paging
  pub pml4 : k.paging.kernel_pml4 ≡ k0.paging.kernel_pml4
  pub nkern : k.scheduler.nkern ≡ k0.scheduler.nkern
  pub heap : k.heap ≡ k0.heap
  pub smp : k.smp ≡ k0.smp
  pub g_rsdp : k.g_rsdp ≡ k0.g_rsdp
  pub core : SameCore k0 k

unfolded_init :
    (s : Scheduler64) → ((sched64_init s).thread64_count ≡ 0) × ((sched64_init s).nkern ≡ s.nkern)
unfolding sched64_init
unfolded_init s = (refl, refl)

init-IsPopulated :
    (fuel : ℕ) (k : Kernel)
    → IsSound fuel k.paging
    → IsKernelMap k.paging
    → (k.paging.mem k.paging.kernel_pdpt 1 % 2 == 0) ≡ true
    → IsPopulated fuel k 0 (λ p. []) (record k { scheduler = sched64_init k.scheduler })
init-IsPopulated fuel k sound v gone = record {
  sound = sound;
  kernel = v;
  second = gone;
  pml4 = refl;
  queued = init-IsQueued k.scheduler;
  count = (unfolded_init k.scheduler).0;
  idle = init_idle k.scheduler;
  nkern = (unfolded_init k.scheduler).1;
  heap = refl;
  smp = refl;
  g_rsdp = refl;
  core = record { fpu = refl; gdt = refl; idt = refl };
}

with_process :
    (fuel : ℕ) (k k4 : Kernel) (t cr3 : ℕ) (p : Paging64) (screen : Terminal64)
    → t ≡ 3
    → IsPopulated fuel k 4 ready_queues k4
    → IsProcess fuel k4.paging cr3 p
    → AreReady fuel k (record (set_cr3 t cr3 (record k4 { paging = p })) { terminal = screen })
with_process fuel k k4 t cr3 p screen e w m = record {
  queued = set_cr3-IsQueued k4.scheduler ready_queues t cr3 w.queued;
  idle = w.idle;
  before = k4.paging;
  process = rw e (
      subst (λ (c : ℕ). IsProcess fuel k4.paging c p)
        (sym (
          ap (λ (u : Thread64). u.cr3)
            (update_self k4.scheduler.threads64 3
              (record (k4.scheduler.threads64 3) { cr3 = cr3 }))))
        m);
  pml4 = m.same_pml4 ∙ w.pml4;
  nkern = w.nkern;
  heap = w.heap;
  smp = w.smp;
  g_rsdp = w.g_rsdp;
  core = record { fpu = w.core.fpu; gdt = w.core.gdt; idt = w.core.idt };
}

pub set_up_threads_lem :
    (fuel : ℕ) (b : Platform) (k : Kernel)
    → max_threads64 ≤ fuel
    → IsSound fuel k.paging
    → IsKernelMap k.paging
    → (k.paging.mem k.paging.kernel_pdpt 1 % 2 == 0) ≡ true
    → Ends (Allowed b) (λ u. AreReady fuel k) (set_up_threads fuel b k)
unfolding set_up_threads
set_up_threads_lem fuel b k enough sound v gone =
    let start : Kernel = record k { scheduler = sched64_init k.scheduler } in
    let R = λ (u : Unit {0}). AreReady fuel k in
    spawn_bind fuel b k b.thread_a 5 0 (λ p. []) start R _ (init-IsPopulated fuel k sound v gone)
      (omega arith) (omega arith) enough
      (λ t0 k1 h1.
        spawn_bind fuel b k b.thread_b 5 1 _ k1 R _ h1.1 (omega arith) (omega arith) enough
          (λ t1 k2 h2.
            spawn_bind fuel b k b.thread_c_low_priority 2 2 _ k2 R _ h2.1 (omega arith)
              (omega arith) enough
              (λ t2 k3 h3.
                spawn_bind fuel b k b.thread_ring3_launcher 5 3 _ k3 R _ h3.1 (omega arith)
                  (omega arith) enough
                  (λ t3 k4 h4.
                    let w = h4.1 in
                    paging_bind b k4 (IsProcess fuel k4.paging) R
                      (create_user_process fuel k4.paging) _
                      (create_user_process_lem fuel k4.paging w.sound w.kernel w.second)
                      (λ cr3 p m. with_process fuel k k4 t3 cr3 p _ h4.0 w m)))))
