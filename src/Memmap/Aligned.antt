-- ===== src/Memmap/Aligned.antt =====
-- memmap.c: frames begin at multiples of 4096.
use neka_kernel.Base.{
  ℕ, zero, suc, ◌+◌, ◌%◌, ◌≡◌, inl, inr, refl, sym, ◌∙◌, arith, some, ltb, Bool-cases,
}
use mathlib.Core.Path.{subst}
use mathlib.Core.Option.{some-injective}
use neka_kernel.Memmap.{Memmap, Frame, Round, alloc_round, memmap_alloc_frame}
use neka_kernel.Memmap.Frames.{loop_done, loop_next, loop_skip, loop_found, Round-cases}

-- The cursor and the end of the reserved image are at multiples of 4096.
pub record IsAligned (m : Memmap) : Type 0 where
  pub offset : m.cur_offset % 4096 ≡ 0
  pub reserved : m.reserve_end % 4096 ≡ 0

abbrev RoundAligned : Round → Type 0
RoundAligned Round.next_region = Unit {0}
RoundAligned (Round.skip_to o) = o % 4096 ≡ 0
RoundAligned (Round.found a) = a % 4096 ≡ 0

round_aligned : (m : Memmap) → IsAligned m → RoundAligned (alloc_round m)
unfolding alloc_round
round_aligned m v = ground arith

abbrev Aligned : Frame × Memmap → Type 0
Aligned (Frame.frame a, m) = (a % 4096 ≡ 0) × IsAligned m
Aligned (Frame.panics c, m) = Unit {0}

no_fuel : {A : Type 0} (m : Memmap) (r : Frame × Memmap) → memmap_alloc_frame zero m ≡ some r → A
unfolding memmap_alloc_frame
no_fuel m r e = absurd (ground arith)

pub alloc_frame-Aligned :
    (fuel : ℕ) (m : Memmap) (r : Frame × Memmap)
    → IsAligned m
    → memmap_alloc_frame fuel m ≡ some r
    → Aligned r
alloc_frame-Aligned zero m r v e = no_fuel m r e
alloc_frame-Aligned (suc fuel) m r v e = elim (Bool-cases (ltb m.cur_region m.region_count)) [
  | inr done ↦ subst Aligned (some-injective _ _ (sym (loop_done fuel m done) ∙ e)) tt
  | inl more ↦
      let v_round = round_aligned m v in
      elim (Round-cases (alloc_round m)) [
        | inl q ↦
            alloc_frame-Aligned fuel (record m { cur_region = m.cur_region + 1; cur_offset = 0 }) r
              (record { offset = refl; reserved = v.reserved }) (sym (loop_next fuel m more q) ∙ e)
        | inr (inl (o, q)) ↦
            alloc_frame-Aligned fuel (record m { cur_offset = o }) r
              (record { offset = subst RoundAligned q v_round; reserved = v.reserved })
              (sym (loop_skip fuel m more o q) ∙ e)
        | inr (inr (a, q)) ↦
            subst Aligned (some-injective _ _ (sym (loop_found fuel m more a q) ∙ e)) (
              subst RoundAligned q v_round,
              record { offset = omega (arith, v.offset); reserved = v.reserved },
            )
      ]
]
