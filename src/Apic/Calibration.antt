-- ===== src/Apic/Calibration.antt =====
-- apic.c: the count that the PIT gets for the calibration of the timer.
use neka_kernel.Base.{
  ℕ, ◌+◌, ◌*◌, ◌/◌, ◌<◌, ◌≤◌, ◌≡◌, arith, ltb, ltb→lt, ltb→le, List, [], ◌∷◌, ◌==◌, if◌then◌else◌,
  Bool-cases, ◌⊎◌, inl, inr,
}
use native.Mathlib.Nat.{le-div_iff_mul-le, div-lt_iff_lt-mul, div-le_self}
use neka_kernel.Apic.{Apic, Access, writes, outb, wrmsr, maps, pit_count, lapic_calibrate_ticks}

-- The bytes that go out of the port of channel 2, in their order.
abbrev pub channel_bytes : List Access → List ℕ
channel_bytes [] = []
channel_bytes (outb port v ∷ l) = if port == 0x42 then v ∷ channel_bytes l else channel_bytes l
channel_bytes (writes a v ∷ l) = channel_bytes l
channel_bytes (maps a ∷ l) = channel_bytes l
channel_bytes (wrmsr a v ∷ l) = channel_bytes l

-- What the PIT takes from two bytes, of which the low one comes first.
abbrev pub received : List ℕ → ℕ
received [] = 0
received (low ∷ []) = low
received (low ∷ high ∷ l) = low + high * 256

-- The count that a calibration over `ms` milliseconds sends, on a device without earlier accesses.
abbrev pub sent : ℕ → ℕ → ℕ → Apic → ℕ
sent ms x remaining a =
    received
      (channel_bytes (lapic_calibrate_ticks ms x remaining (record a { accesses = [] })).1.accesses)

short_period :
    (ms x remaining : ℕ) (a : Apic)
    → 0 < ms
    → ms ≤ 54
    → let n = sent ms x remaining a in
      (n ≡ 1193182 * ms / 1000) × (n * 1000 ≤ 1193182 * ms) × (1193182 * ms < (n + 1) * 1000)
unfolding lapic_calibrate_ticks pit_count
short_period ms x remaining a low high = omega arith

long_period :
    (ms x remaining : ℕ) (a : Apic)
    → 55 ≤ ms
    → ms ≤ 1000
    → sent ms x remaining a < 1193182 * ms / 1000
unfolding lapic_calibrate_ticks pit_count
long_period ms x remaining a low high = omega arith

-- `apic_timer_init` calibrates over 1000 / `hz` milliseconds, for a rate of 1 to 1000 Hz. From 19 Hz
-- on the two bytes that `lapic_calibrate_ticks` sends to the PIT are its count of them at 1193182 Hz,
-- rounded down; below, the count does not fit in two bytes, and the PIT receives less.
pub pit_count_fits :
    (hz x remaining : ℕ) (a : Apic)
    → 0 < hz
    → hz ≤ 1000
    → let ms = 1000 / hz in
      let n = sent ms x remaining a in
      ((19 ≤ hz)
        × (n ≡ 1193182 * ms / 1000)
        × (n * 1000 ≤ 1193182 * ms)
        × (1193182 * ms < (n + 1) * 1000))
      ⊎ ((hz < 19) × (n < 1193182 * ms / 1000))
pit_count_fits hz x remaining a pos high = elim (Bool-cases (ltb hz 19)) [
  | inr e ↦
      let low = ltb→le _ _ e in
      let some_ms = (le-div_iff_mul-le {k = hz} {x = 1} {y = 1000} pos).1 (omega arith) in
      let few_ms = (div-lt_iff_lt-mul {k = hz} {x = 1000} {y = 55} pos).1 (omega arith) in
      let s = short_period (1000 / hz) x remaining a some_ms (omega (arith, few_ms)) in
      inl (low, s.0, s.1, s.2)
  | inl e ↦
      let low = ltb→lt _ _ e in
      let many_ms = (le-div_iff_mul-le {k = hz} {x = 55} {y = 1000} pos).1 (omega arith) in
      inr (low, long_period (1000 / hz) x remaining a many_ms (div-le_self 1000 hz))
]
