-- ===== src/Main64/Signatures.antt =====
-- main64.c: the threads that sign their private pages never find a signature damaged.
use neka_kernel.Base.{
  ℕ, ◌≡◌, ◌≢◌, refl, sym, arith, Bool, true, false, Option, some, none, List, [], ◌∷◌, ◌%◌, ◌==◌,
  Bool-cases, inl, inr,
}
use mathlib.Core.Path.{subst}
use neka_kernel.Nkern.{Nkern}
use neka_kernel.Nkern.Client.{depth-nkern_lock, depth-nkern_unlock}
use neka_kernel.Paging64.{Paging64, Page, create_address_space}
use neka_kernel.Paging64.Outcomes.{Ends, Ends-map}
use neka_kernel.Paging64.Supply.{IsSound}
use neka_kernel.Paging64.Kernel.{IsKernelMap}
use neka_kernel.Paging64.Private.{IsMade, create_address_space_lem}
use neka_kernel.Nkern.{nkern_lock, nkern_unlock}
use neka_kernel.Main64.Demo.{
  Phase, counts, prints, holds, Demo, Shared, Pair, moves, enter_section, thread_a, thread_b,
  run_threads,
}
use neka_kernel.Main64.Views.{IsPair, IsPair-swap, made-IsPair}
use neka_kernel.Main64.Rounds.{Fits, depth_at, Steps, Continues, sign_and_check_lem}

-- Thread A holds the kernel lock in its critical section, and nowhere else.
abbrev Locked : ℕ → ℕ → Nkern → Type 0
Locked cpu k n = n.preempt_disable_count cpu ≡ k

module _ (cpu : ℕ) (s : Paging64) (c1 c2 p1 p2 : ℕ) where
  enters :
      (counter : ℕ) (u : Shared)
      → Locked cpu 0 u.nkern
      → Continues s c1 c2 p1 p2 b'A' (Locked cpu) counter u (enter_section cpu counter u)
  unfolding enter_section
  enters counter u k = elim (Bool-cases (counter % 5 == 0)) [
    | inl fifth ↦ record {
      phase = holds;
      nkern = nkern_lock cpu u.nkern;
      result = rw fifth;
      fits = λ page. tt;
      lock = omega (arith, depth-nkern_lock cpu u.nkern);
    }
    | inr no_fifth ↦ record {
      phase = counts;
      nkern = u.nkern;
      result = rw no_fifth;
      fits = λ page. tt;
      lock = k;
    }
  ]

  thread_a_lem :
      (d : Demo) (u : Shared)
      → IsPair (record s { mem = u.mem }) c1 c2 p1 p2
      → Fits b'A' (u.mem p1) d.phase
      → Locked cpu (depth_at d.phase) u.nkern
      → Steps s c1 c2 p1 p2 b'A' (Locked cpu) u (thread_a cpu c1 d u)
  unfolding thread_a
  thread_a_lem d u v fits k =
      sign_and_check_lem s c1 c2 p1 p2 b'A' (Locked cpu) (enter_section cpu)
        (λ n. (nkern_unlock cpu n).1) enters (λ n held. omega (arith, depth-nkern_unlock cpu n))
        (omega arith) d.phase d.counter u v fits k

  -- Thread B leaves the lock alone.
  thread_b_lem :
      (d : Demo) (u : Shared)
      → IsPair (record s { mem = u.mem }) c2 c1 p2 p1
      → Fits b'B' (u.mem p2) d.phase
      → Steps s c2 c1 p2 p1 b'B' (λ k n. n ≡ u.nkern) u (thread_b c2 d u)
  unfolding thread_b
  thread_b_lem d u v fits =
      sign_and_check_lem s c2 c1 p2 p1 b'B' (λ k n. n ≡ u.nkern)
        (λ counter w. moves counter counts w) (λ n. n)
        (λ counter w same. record {
          phase = counts;
          nkern = w.nkern;
          result = refl;
          fits = λ page. tt;
          lock = same;
        })
        (λ n same. same) (omega arith) d.phase d.counter u v fits refl

  -- Both threads between two steps.
  record IsUndamaged (p : Pair) : Type 0 where
    pair : IsPair (record s { mem = p.shared.mem }) c1 c2 p1 p2
    fits_a : Fits b'A' (p.shared.mem p1) p.a.phase
    fits_b : Fits b'B' (p.shared.mem p2) p.b.phase
    lock : Locked cpu (depth_at p.a.phase) p.shared.nkern

  run_threads_lem :
      (turns : List Bool) (p : Pair)
      → IsUndamaged p
      → (p' : Pair) × (run_threads cpu c1 c2 turns p ≡ some p') × IsUndamaged p'
  unfolding run_threads
  run_threads_lem [] p v = (p, refl, v)
  run_threads_lem (true ∷ turns) p v =
      let a = thread_a_lem p.a p.shared v.pair v.fits_a v.lock in
      let (p', e, w) =
        run_threads_lem turns (record p { a = a.demo; shared = a.shared })
          (record {
            pair = a.pair;
            fits_a = a.fits;
            fits_b = subst (λ (q : Page). Fits b'B' q p.b.phase) (sym a.other) v.fits_b;
            lock = a.lock;
          }) in
      (p', rw (a.result, run_threads) e, w)
  run_threads_lem (false ∷ turns) p v =
      let b = thread_b_lem p.b p.shared (IsPair-swap _ c1 c2 p1 p2 v.pair) v.fits_b in
      let (p', e, w) =
        run_threads_lem turns (record p { b = b.demo; shared = b.shared })
          (record {
            pair = IsPair-swap _ c2 c1 p2 p1 b.pair;
            fits_a = subst (λ (q : Page). Fits b'A' q p.a.phase) (sym b.other) v.fits_a;
            fits_b = b.fits;
            lock = rw b.lock v.lock;
          }) in
      (p', rw (b.result, run_threads) e, w)

-- Both threads before their first round.
abbrev pub at_start : (ℕ → Page) → Nkern → Pair
at_start mem n =
    let fresh : Demo = record { counter = 0; phase = counts } in
    record { a = fresh; b = fresh; shared = record { mem = mem; nkern = n } }

-- No page fault, no thread about to print "CORRUPTED", and the lock held in the critical section of
-- thread A only.
abbrev pub IsIntact : ℕ → Option Pair → Type 0
IsIntact cpu none = ⊥
IsIntact cpu (some p) =
    (p.a.phase ≢ prints false)
    × (p.b.phase ≢ prints false)
    × (p.shared.nkern.preempt_disable_count cpu ≡ depth_at p.a.phase)

never_damaged : (c : ℕ) (page : Page) (phase : Phase) → Fits c page phase → phase ≢ prints false
never_damaged c page phase fits e = let told : false ≡ true = subst (Fits c page) e fits in cc

made-IsIntact :
    (fuel cpu : ℕ) (s s1 s2 : Paging64) (n : Nkern) (c1 c2 : ℕ) (turns : List Bool)
    → n.preempt_disable_count cpu ≡ 0
    → IsMade fuel s c1 s1
    → IsMade fuel s1 c2 s2
    → IsIntact cpu (run_threads cpu c1 c2 turns (at_start s2.mem n))
made-IsIntact fuel cpu s s1 s2 n c1 c2 turns idle h1 h2 =
    let (p, e, v) =
      run_threads_lem cpu s2 c1 c2 h1.frame h2.frame turns (at_start s2.mem n) (record {
        pair = made-IsPair fuel s s1 s2 c1 c2 h1 h2;
        fits_a = tt;
        fits_b = tt;
        lock = idle;
      }) in
    rw e (never_damaged b'A' _ p.a.phase v.fits_a, never_damaged b'B' _ p.b.phase v.fits_b, v.lock)

-- Let two address spaces be made one after the other on a sound state with the kernel's map. In
-- whatever order the steps of threads A and B then follow one another, with a switch between any two
-- accesses to memory: none of them faults, each thread finds its own signature whole whenever it
-- checks, and the CPU is inside the kernel lock exactly in the critical section of thread A.
pub signatures_hold :
    (fuel cpu : ℕ) (s : Paging64) (n : Nkern)
    → IsSound fuel s
    → IsKernelMap s
    → n.preempt_disable_count cpu ≡ 0
    → Ends
        (λ c1 s1.
          Ends
            (λ c2 s2.
              (turns : List Bool) → IsIntact cpu (run_threads cpu c1 c2 turns (at_start s2.mem n)))
            (create_address_space fuel s1))
        (create_address_space fuel s)
signatures_hold fuel cpu s n sound v idle =
    let Good = λ (c1 c2 : ℕ) (s2 : Paging64).
      (turns : List Bool) → IsIntact cpu (run_threads cpu c1 c2 turns (at_start s2.mem n)) in
    Ends-map (IsMade fuel s) (λ c1 s1. Ends (Good c1) (create_address_space fuel s1))
      (create_address_space fuel s) (create_address_space_lem fuel s sound v)
      (λ c1 s1 h1.
        Ends-map (IsMade fuel s1) (Good c1) (create_address_space fuel s1)
          (create_address_space_lem fuel s1 h1.sound h1.kernel)
          (λ c2 s2 h2 turns. made-IsIntact fuel cpu s s1 s2 n c1 c2 turns idle h1 h2))
