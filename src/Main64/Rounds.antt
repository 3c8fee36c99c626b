-- ===== src/Main64/Rounds.antt =====
-- main64.c: one step of a thread that signs its private page and checks the signature later.
use neka_kernel.Base.{
  ℕ, ◌+◌, ◌%◌, ◌^◌, ◌<◌, ◌≤◌, ◌≡◌, refl, ap, ◌∙◌, arith, true, Option, some, ltb, ltb→lt, ltb→le,
  ◌==◌, eq→==, Bool-cases, ==→ne, inl, inr,
}
use neka_kernel.Nkern.{Nkern}
use neka_kernel.Paging64.{Paging64, Page}
use neka_kernel.Main64.Demo.{
  Phase, counts, writes, works, reads, prints, holds, Demo, Shared, moves, get_byte, sign_and_check,
  write_signature, verify_signature,
}
use neka_kernel.Main64.Bytes.{get_byte-set_byte}
use neka_kernel.Main64.Views.{
  IsPair, signed, signed-IsPair, own_frame, other_frame, store_char_lem, load_char_lem,
}

-- The first `n` bytes of the page carry the signature.
abbrev pub Carries : ℕ → Page → ℕ → Type 0
Carries c page n = (j : ℕ) → j < n → get_byte page j ≡ c

-- What the place in the loop says of the private page; a printed line never tells of damage.
abbrev pub Fits : ℕ → Page → Phase → Type 0
Fits c page counts = Unit {0}
Fits c page (writes i) = (i ≤ 4) × Carries c page i
Fits c page works = Carries c page 4
Fits c page (reads i) = Carries c page 4
Fits c page (prints verdict) = verdict ≡ true
Fits c page holds = Unit {0}

-- How often the thread holds the kernel lock there.
abbrev pub depth_at : Phase → ℕ
depth_at holds = 1
depth_at _ = 0

module _ (s : Paging64) (c1 c2 p1 p2 c : ℕ) (K : ℕ → Nkern → Type 0) where
  -- A step that ends well, with memory in which both spaces are as before, the other private page
  -- too, and the lock as the new place says.
  pub record Steps (u : Shared) (r : Option (Demo × Shared)) : Type 0 where
    pub demo : Demo
    pub shared : Shared
    pub result : r ≡ some (demo, shared)
    pub pair : IsPair (record s { mem = shared.mem }) c1 c2 p1 p2
    pub fits : Fits c (shared.mem p1) demo.phase
    pub other : shared.mem p2 ≡ u.mem p2
    pub lock : K (depth_at demo.phase) shared.nkern

  -- What comes behind the printed line: the kernel lock may be taken, the memory stays.
  pub record Continues (counter : ℕ) (u : Shared) (r : Option (Demo × Shared)) : Type 0 where
    pub phase : Phase
    pub nkern : Nkern
    pub result : r ≡ moves counter phase (record u { nkern = nkern })
    pub fits : (page : Page) → Fits c page phase
    pub lock : K (depth_at phase) nkern

  module _ (printed : ℕ → Shared → Option (Demo × Shared)) (released : Nkern → Nkern)
      (prints_lem : (counter : ℕ) (u : Shared)
        → K 0 u.nkern
        → Continues counter u (printed counter u))
      (releases : (n : Nkern) → K 1 n → K 0 (released n)) (byte : c < 256) where
    abbrev release : Shared → Shared
    release u = record u { nkern = released u.nkern }

    Carries-next :
        (u : Shared) (v : IsPair (record s { mem = u.mem }) c1 c2 p1 p2) (i : ℕ)
        → i < 4
        → Carries c (u.mem p1) i
        → Carries c (signed (record s { mem = u.mem }) c1 c2 p1 p2 v i c p1) (i + 1)
    Carries-next u v i h has j l =
        ap (λ (p : Page). get_byte p j) (own_frame (record s { mem = u.mem }) c1 c2 p1 p2 v i c)
        ∙ get_byte-set_byte (u.mem p1) c byte i h j (omega arith)
        ∙ elim (Bool-cases (i == j)) [
          | inl e ↦ rw e
          | inr e ↦ rw e (has j (omega (arith, ==→ne i j e)))
        ]

    pub sign_and_check_lem :
        (phase : Phase) (counter : ℕ) (u : Shared)
        → IsPair (record s { mem = u.mem }) c1 c2 p1 p2
        → Fits c (u.mem p1) phase
        → K (depth_at phase) u.nkern
        → Steps u
            (sign_and_check c1 c printed release (record { counter = counter; phase = phase }) u)
    unfolding sign_and_check write_signature verify_signature
    sign_and_check_lem counts counter u v fits k = record {
      demo = record { counter = (counter + 1) % 2 ^ 32; phase = writes 0 };
      shared = u;
      result = refl;
      pair = v;
      fits = (omega arith, λ j h. absurd (omega arith));
      other = refl;
      lock = k;
    }
    sign_and_check_lem (writes i) counter u v (most, has) k = elim (Bool-cases (ltb i 4)) [
      | inl more ↦
          let h = ltb→lt i 4 more in
          let s1 = record s { mem = u.mem } in
          record {
            demo = record { counter = counter; phase = writes (i + 1) };
            shared = record u { mem = signed s1 c1 c2 p1 p2 v i c };
            result = rw (more, store_char_lem s1 c1 c2 p1 p2 v i c h);
            pair = signed-IsPair s1 c1 c2 p1 p2 v i c;
            fits = (omega arith, Carries-next u v i h has);
            other = other_frame s1 c1 c2 p1 p2 v i c;
            lock = k;
          }
      | inr done ↦ record {
        demo = record { counter = counter; phase = works };
        shared = u;
        result = rw done;
        pair = v;
        fits = λ j h. has j (omega (arith, ltb→le i 4 done));
        other = refl;
        lock = k;
      }
    ]
    sign_and_check_lem works counter u v fits k = record {
      demo = record { counter = counter; phase = reads 0 };
      shared = u;
      result = refl;
      pair = v;
      fits = fits;
      other = refl;
      lock = k;
    }
    sign_and_check_lem (reads i) counter u v fits k = elim (Bool-cases (ltb i 4)) [
      | inl more ↦
          let h = ltb→lt i 4 more in
          record {
            demo = record { counter = counter; phase = reads (i + 1) };
            shared = u;
            result = rw (
              more,
              load_char_lem (record s { mem = u.mem }) c1 c2 p1 p2 v i h,
              eq→== _ _ (fits i h),
            );
            pair = v;
            fits = fits;
            other = refl;
            lock = k;
          }
      | inr done ↦ record {
        demo = record { counter = counter; phase = prints true };
        shared = u;
        result = rw done;
        pair = v;
        fits = refl;
        other = refl;
        lock = k;
      }
    ]
    sign_and_check_lem (prints verdict) counter u v fits k =
        let next = prints_lem counter u k in
        record {
          demo = record { counter = counter; phase = next.phase };
          shared = record u { nkern = next.nkern };
          result = next.result;
          pair = v;
          fits = next.fits (u.mem p1);
          other = refl;
          lock = next.lock;
        }
    sign_and_check_lem holds counter u v fits k = record {
      demo = record { counter = counter; phase = counts };
      shared = release u;
      result = refl;
      pair = v;
      fits = tt;
      other = refl;
      lock = releases u.nkern k;
    }
