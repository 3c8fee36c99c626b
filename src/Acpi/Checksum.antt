-- ===== src/Acpi/Checksum.antt =====
-- acpi.c: the checksum, and the scan for the RSDP.
use neka_kernel.Base.{
  ℕ, zero, suc, ◌+◌, ◌*◌, ◌%◌, ◌^◌, ◌<◌, ◌≤◌, ◌≡◌, ◌⊎◌, ap, ◌∙◌, sym, arith, Bool, true, false,
  ◌&&◌, ◌==◌, refl, Option, some, ltb, Bool-cases, ltb→lt, ltb→le, eq→==, ==→eq, inl, inr,
}
use mathlib.Core.Path.{subst}
use neka_kernel.Acpi.{
  Memory, checksum_loop, checksum_ok, has_signature, rsdp_signature, scan_for_rsdp,
}

abbrev pub byte_sum : Memory → ℕ → ℕ → ℕ
byte_sum mem addr zero = 0
byte_sum mem addr (suc n) = mem addr + byte_sum mem (addr + 1) n

checksum_loop_lem :
    (mem : Memory) (addr n sum : ℕ)
    → sum < 256
    → checksum_loop mem addr n sum ≡ (sum + byte_sum mem addr n) % 256
unfolding checksum_loop
checksum_loop_lem mem addr zero sum h = omega arith
checksum_loop_lem mem addr (suc n) sum h =
    omega (arith, checksum_loop_lem mem (addr + 1) n ((sum + mem addr) % 2 ^ 8) (omega arith))

-- `checksum_ok` accepts a range exactly when the sum of its bytes is a multiple of 256.
pub checksum_ok_correct :
    (mem : Memory) (addr len : ℕ)
    → (checksum_ok mem addr len ≡ true → byte_sum mem addr len % 256 ≡ 0)
      × (byte_sum mem addr len % 256 ≡ 0 → checksum_ok mem addr len ≡ true)
unfolding checksum_ok
checksum_ok_correct mem addr len =
    let e = checksum_loop_lem mem addr len 0 (omega arith) in
    (λ h. omega (arith, ==→eq _ _ h), λ h. eq→== _ _ (omega arith))

-- The signature stands at an address, and the checksum of the first 20 bytes is right.
abbrev pub IsRsdp : Memory → ℕ → Type 0
IsRsdp mem a =
    (mem a ≡ b'R')
    × (mem (a + 1) ≡ b'S')
    × (mem (a + 2) ≡ b'D')
    × (mem (a + 3) ≡ b' ')
    × (mem (a + 4) ≡ b'P')
    × (mem (a + 5) ≡ b'T')
    × (mem (a + 6) ≡ b'R')
    × (mem (a + 7) ≡ b' ')
    × (byte_sum mem a 20 % 256 ≡ 0)

-- The test of the scan, and what it means.
abbrev is_rsdp : Memory → ℕ → Bool
is_rsdp mem a = has_signature mem a rsdp_signature && checksum_ok mem a 20

signature_reads :
    (mem : Memory) (a : ℕ)
    → has_signature mem a rsdp_signature ≡ (
        (mem a == 82)
        && ((mem (a + 1) == 83)
            && ((mem (a + 2) == 68)
                && ((mem (a + 3) == 32)
                    && ((mem (a + 4) == 80)
                        && ((mem (a + 5) == 84)
                            && ((mem (a + 6) == 82) && ((mem (a + 7) == 32) && true))))))))
unfolding has_signature
signature_reads mem a =
    let e2 : a + 1 + 1 ≡ a + 2 = omega arith in
    let e3 : a + 2 + 1 ≡ a + 3 = omega arith in
    let e4 : a + 3 + 1 ≡ a + 4 = omega arith in
    let e5 : a + 4 + 1 ≡ a + 5 = omega arith in
    let e6 : a + 5 + 1 ≡ a + 6 = omega arith in
    let e7 : a + 6 + 1 ≡ a + 7 = omega arith in rw (has_signature, e2, e3, e4, e5, e6, e7) refl

and_parts : (a b : Bool) → (a && b) ≡ true → (a ≡ true) × (b ≡ true)
and_parts true b h = (refl, h)
and_parts false b h = absurd (cc h)

equal_part : (x y : ℕ) (b : Bool) → ((x == y) && b) ≡ true → (x ≡ y) × (b ≡ true)
equal_part x y b h = let (e, rest) = and_parts (x == y) b h in (==→eq x y e, rest)

is_rsdp-IsRsdp : (mem : Memory) (a : ℕ) → is_rsdp mem a ≡ true → IsRsdp mem a
is_rsdp-IsRsdp mem a h =
    let c = checksum_ok_correct mem a 20 in
    let (sig, good) = and_parts (has_signature mem a rsdp_signature) (checksum_ok mem a 20) h in
    let (h0, r1) = equal_part (mem a) 82 _ (sym (signature_reads mem a) ∙ sig) in
    let (h1, r2) = equal_part (mem (a + 1)) 83 _ r1 in
    let (h2, r3) = equal_part (mem (a + 2)) 68 _ r2 in
    let (h3, r4) = equal_part (mem (a + 3)) 32 _ r3 in
    let (h4, r5) = equal_part (mem (a + 4)) 80 _ r4 in
    let (h5, r6) = equal_part (mem (a + 5)) 84 _ r5 in
    let (h6, r7) = equal_part (mem (a + 6)) 82 _ r6 in
    let (h7, r8) = equal_part (mem (a + 7)) 32 true r7 in
    (h0, h1, h2, h3, h4, h5, h6, h7, (checksum_ok_correct mem a 20).0 good)

IsRsdp-is_rsdp : (mem : Memory) (a : ℕ) → IsRsdp mem a → is_rsdp mem a ≡ true
IsRsdp-is_rsdp mem a (h0, h1, h2, h3, h4, h5, h6, h7, sum) =
    rw (signature_reads mem a, h0, h1, h2, h3, h4, h5, h6, h7)
      ((checksum_ok_correct mem a 20).1 sum)

-- What the scan finds.
abbrev pub IsScanned : Memory → ℕ → ℕ → Option ℕ → Type 0
IsScanned mem addr end r =
    ((k : ℕ) × (addr + 16 * k < end)
      × IsRsdp mem (addr + 16 * k)
      × ((j : ℕ) → j < k → ¬ IsRsdp mem (addr + 16 * j))
      × (r ≡ some (addr + 16 * k)))
    ⊎ (((k : ℕ) → addr + 16 * k < end → ¬ IsRsdp mem (addr + 16 * k)) × (r ≡ some 0))

module _ (mem : Memory) (addr end : ℕ) (miss : ¬ IsRsdp mem addr) where
  none_before :
      (n : ℕ)
      → ((j : ℕ) → j < n → ¬ IsRsdp mem (addr + 16 + 16 * j))
      → (j : ℕ) → j < suc n
      → ¬ IsRsdp mem (addr + 16 * j)
  none_before n others zero l = let here : addr + 16 * 0 ≡ addr = omega arith in rw here miss
  none_before n others (suc j) l =
      let there : addr + 16 * suc j ≡ addr + 16 + 16 * j = omega arith in
      rw there (others j (omega arith))

  scan_later : (r : Option ℕ) → IsScanned mem (addr + 16) end r → IsScanned mem addr end r
  scan_later r (inl (k, before, hit, others, e)) =
      let there : addr + 16 + 16 * k ≡ addr + 16 * suc k = omega arith in
      inl
        (suc k, omega arith, subst (IsRsdp mem) there hit, none_before k others, e ∙ ap some there)
  scan_later r (inr (others, e)) =
      inr (λ k l. none_before k (λ j less. others j (omega arith)) k (omega arith), e)

-- Over a range that ends 16 bytes before 2^64, with fuel for each 16 bytes and one more, the scan
-- ends: with the first address at a multiple of 16 from the start on that holds an RSDP, or with a
-- null pointer when no such address before the end does.
pub scan_for_rsdp_correct :
    (fuel : ℕ) (mem : Memory) (addr end : ℕ)
    → end + 16 < 2 ^ 64
    → 0 < fuel
    → end + 16 ≤ addr + 16 * fuel
    → IsScanned mem addr end (scan_for_rsdp fuel mem addr end)
unfolding scan_for_rsdp
scan_for_rsdp_correct zero mem addr end no_wrap some_fuel enough = absurd (omega arith)
scan_for_rsdp_correct (suc fuel) mem addr end no_wrap some_fuel enough =
    elim (Bool-cases (ltb addr end)) [
      | inr done ↦ inr (λ k l. absurd (omega (arith, ltb→le _ _ done)), rw (scan_for_rsdp, done))
      | inl more ↦
          elim (Bool-cases (has_signature mem addr rsdp_signature && checksum_ok mem addr 20)) [
            | inl hit ↦
                let here : addr + 16 * 0 ≡ addr = omega arith in
                inl (
                  0,
                  omega (arith, ltb→lt _ _ more),
                  rw here (is_rsdp-IsRsdp mem addr hit),
                  λ j l. absurd (omega arith),
                  rw (scan_for_rsdp, more, hit, here),
                )
            | inr miss ↦
                let l = ltb→lt _ _ more in
                let step : (addr + 16) % 2 ^ 64 ≡ addr + 16 = omega arith in
                let skip : scan_for_rsdp (suc fuel) mem addr end
                    ≡ scan_for_rsdp fuel mem (addr + 16) end =
                  rw (scan_for_rsdp, more, miss, step) in
                subst (IsScanned mem addr end) (sym skip) (
                  scan_later mem addr end (λ h. absurd (cc (IsRsdp-is_rsdp mem addr h, miss))) _
                    (scan_for_rsdp_correct fuel mem (addr + 16) end no_wrap (omega arith)
                      (omega arith)))
          ]
    ]
