-- ===== src/Terminal64/Whole.antt =====
-- terminal64.c: the lock of the console keeps the texts of different CPUs apart.
use neka_kernel.Base.{
  ℕ, ◌≡◌, ◌≢◌, inl, inr, refl, ap, ◌∙◌, sym, Bool, true, false, Option, none, some, List, [], ◌∷◌,
  ◌==◌, if◌then◌else◌, update, update_self, update_ne, Bool-cases, ==→eq, ==→ne,
}
use mathlib.Core.Path.{subst}
use neka_kernel.Terminal64.{Terminal64, putc_vga, serial_putc, kprint}
use neka_kernel.Terminal64.Printing.{
  Stage, outside, acquires, prints, sends, restores, Console, goes, step_from, step, run_steps,
  taken_from, texts_of, print_all,
}

abbrev pub is_inside : Stage → Bool
is_inside outside = false
is_inside (acquires s) = false
is_inside (prints s) = true
is_inside (sends ch s) = true
is_inside restores = false

-- The console once the text of a CPU inside the lock is complete.
abbrev pub finish : Stage → Terminal64 → Terminal64
finish outside t = t
finish (acquires s) t = t
finish (prints rest) t = kprint rest t
finish (sends ch rest) t = kprint rest (serial_putc ch t)
finish restores t = t

-- The lock is free and every text is complete, or one CPU is inside and only its text is not.
abbrev pub IsOrderly : List (List ℕ) → Terminal64 → Option ℕ → Console → Type 0
IsOrderly log t none k =
    (k.print_lock ≡ false)
    × ((c : ℕ) → is_inside (k.stage c) ≡ false)
    × (k.terminal ≡ print_all log t)
IsOrderly log t (some c) k =
    (k.print_lock ≡ true)
    × (is_inside (k.stage c) ≡ true)
    × ((d : ℕ) → c ≢ d → is_inside (k.stage d) ≡ false)
    × (finish (k.stage c) k.terminal ≡ print_all log t)

-- A step of a CPU that stays outside of the lock.
module _ (log : List (List ℕ)) (t : Terminal64) (k k' : Console) (c : ℕ) (g : Stage)
    (at : k'.stage ≡ update k.stage c g) (locked : k'.print_lock ≡ k.print_lock)
    (same : k'.terminal ≡ k.terminal) (before : is_inside (k.stage c) ≡ false)
    (after : is_inside g ≡ false) where
  others_stay : (d : ℕ) → c ≢ d → k'.stage d ≡ k.stage d
  others_stay d apart = ap (λ (f : ℕ → Stage). f d) at ∙ update_ne k.stage c d g apart

  own : k'.stage c ≡ g
  own = ap (λ (f : ℕ → Stage). f c) at ∙ update_self k.stage c g

  still_outside : (d : ℕ) → is_inside (k.stage d) ≡ false → is_inside (k'.stage d) ≡ false
  still_outside d h = elim (Bool-cases (c == d)) [
    | inl e ↦
        subst (λ (x : ℕ). is_inside (k'.stage x) ≡ false) (==→eq c d e) (ap is_inside own ∙ after)
    | inr e ↦ ap is_inside (others_stay d (==→ne c d e)) ∙ h
  ]

  outside_step : (o : Option ℕ) → IsOrderly log t o k → IsOrderly log t o k'
  outside_step none (free, none_in, e) = (locked ∙ free, λ d. still_outside d (none_in d), same ∙ e)
  outside_step (some d) (held, in_d, rest_out, e) =
      let apart : c ≢ d = λ q.
        let wrong : is_inside (k.stage d) ≡ false =
          subst (λ (x : ℕ). is_inside (k.stage x) ≡ false) q before in
        cc in
      let there = others_stay d apart in
      (
        locked ∙ held,
        ap is_inside there ∙ in_d,
        λ x q. still_outside x (rest_out x q),
        ap (λ (s : Stage). finish s k'.terminal) there ∙ ap (finish (k.stage d)) same ∙ e,
      )

-- What a step leaves.
abbrev Keeps : List (List ℕ) → Terminal64 → Console → Type 0
Keeps log t k = (o : Option ℕ) × IsOrderly log t o k

module _ (log : List (List ℕ)) (t : Terminal64) (k : Console) (c : ℕ) where
  -- The CPU that is inside is the one with the lock.
  owner :
      (o : Option ℕ)
      → IsOrderly log t o k
      → is_inside (k.stage c) ≡ true
      → IsOrderly log t (some c) k
  owner none (free, none_in, e) inside = absurd (let out = none_in c in cc)
  owner (some d) (held, in_d, rest_out, e) inside = elim (Bool-cases (d == c)) [
    | inl q ↦ subst (λ (x : ℕ). IsOrderly log t (some x) k) (==→eq d c q) (held, in_d, rest_out, e)
    | inr q ↦ absurd (let out = rest_out c (==→ne d c q) in cc)
  ]

  acquire_step :
      (text : List ℕ) (b : Bool) (o : Option ℕ)
      → k.print_lock ≡ b
      → IsOrderly log t o k
      → Keeps
          (if b then log else text ∷ log)
          t
          (if b then k else goes c (prints text) (record k { print_lock = true }))
  unfolding print_all
  acquire_step text true o locked h = (o, h)
  acquire_step text false none locked (free, none_in, e) = (
    some c,
    (
      refl,
      ap is_inside (update_self k.stage c (prints text)),
      λ d apart. ap is_inside (update_ne k.stage c d (prints text) apart) ∙ none_in d,
      ap (λ (g : Stage). finish g k.terminal) (update_self k.stage c (prints text))
          ∙ ap (kprint text) e,
    ),
  )
  acquire_step text false (some d) locked (held, in_d, rest_out, e) = absurd cc

  restore_step :
      (b : Bool) (o : Option ℕ)
      → is_inside (k.stage c) ≡ false
      → IsOrderly log t o k
      → Keeps log t
          (goes c outside (if b then record k { interrupts = update k.interrupts c true } else k))
  restore_step true o before h =
      (o, outside_step log t k _ c outside refl refl refl before refl o h)
  restore_step false o before h =
      (o, outside_step log t k _ c outside refl refl refl before refl o h)

  -- A step of the CPU inside to another stage `g` inside.
  inside_step :
      (g : Stage) (t' : Terminal64)
      → IsOrderly log t (some c) k
      → is_inside g ≡ true
      → finish g t' ≡ finish (k.stage c) k.terminal
      → Keeps log t (goes c g (record k { terminal = t' }))
  inside_step g t' (held, in_c, rest_out, e) inside same = (
    some c,
    (
      held,
      ap is_inside (update_self k.stage c g) ∙ inside,
      λ d apart. ap is_inside (update_ne k.stage c d g apart) ∙ rest_out d apart,
      ap (λ (x : Stage). finish x t') (update_self k.stage c g) ∙ same ∙ e,
    ),
  )

  release_step :
      IsOrderly log t (some c) k
      → k.stage c ≡ prints []
      → Keeps log t (goes c restores (record k { print_lock = false }))
  unfolding kprint
  release_step (held, in_c, rest_out, e) at = (
    none,
    (
      refl,
      λ d. elim (Bool-cases (c == d)) [
        | inl q ↦
            subst (λ (x : ℕ). is_inside (update k.stage c restores x) ≡ false) (==→eq c d q)
              (ap is_inside (update_self k.stage c restores))
        | inr q ↦
            ap is_inside (update_ne k.stage c d restores (==→ne c d q)) ∙ rest_out d (==→ne c d q)
      ],
      sym (ap (λ (g : Stage). finish g k.terminal) at) ∙ e,
    ),
  )

  stage_step :
      (g : Stage) (s : List ℕ) (o : Option ℕ)
      → k.stage c ≡ g
      → IsOrderly log t o k
      → Keeps (taken_from g k.print_lock log) t (step_from g c s k)
  unfolding step_from kprint
  stage_step outside s o at h =
      (o, outside_step log t k _ c (acquires s) refl refl refl (ap is_inside at) refl o h)
  stage_step (acquires text) s o at h = acquire_step text k.print_lock o refl h
  stage_step (prints []) s o at h = release_step (owner o h (ap is_inside at)) at
  stage_step (prints (ch ∷ rest)) s o at h =
      inside_step (sends ch rest) (putc_vga ch k.terminal) (owner o h (ap is_inside at)) refl
        (sym (ap (λ (g : Stage). finish g k.terminal) at))
  stage_step (sends ch rest) s o at h =
      inside_step (prints rest) (serial_putc ch k.terminal) (owner o h (ap is_inside at)) refl
        (sym (ap (λ (g : Stage). finish g k.terminal) at))
  stage_step restores s o at h = restore_step (k.flags c) o (ap is_inside at) h

run_lem :
    (l : List (ℕ × List ℕ)) (log : List (List ℕ)) (t : Terminal64) (k : Console)
    → Keeps log t k
    → Keeps (texts_of l k log) t (run_steps l k)
unfolding texts_of run_steps step
run_lem [] log t k h = h
run_lem ((c, s) ∷ l) log t k (o, h) = run_lem l _ t _ (stage_step log t k c (k.stage c) s o refl h)

-- Let any number of CPUs call `kprint`, their steps in any order, from a state with all of them
-- outside. At any moment, the texts stand on the console whole, one after the other in the order in
-- which their CPUs have taken the lock, but for the rest of the text of the one CPU that has it.
pub texts_are_whole :
    (l : List (ℕ × List ℕ)) (k : Console)
    → k.print_lock ≡ false
    → ((c : ℕ) → is_inside (k.stage c) ≡ false)
    → (o : Option ℕ) × IsOrderly (texts_of l k []) k.terminal o (run_steps l k)
unfolding print_all
texts_are_whole l k free none_in = run_lem l [] k.terminal k (none, (free, none_in, refl))
