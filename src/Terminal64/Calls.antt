-- ===== src/Terminal64/Calls.antt =====
-- terminal64.c: runs of calls of `kprint` and `kprint_hex64`.
use neka_kernel.Base.{
  ℕ, ◌≤◌, ◌≡◌, refl, ap, ◌∙◌, List, [], ◌∷◌, ◌++◌, ◌==◌, if◌then◌else◌, characters_of,
}
use neka_kernel.Terminal64.{
  Terminal64, Call, text, char, hex64, kprint, kprint_hex64, print_call, print_calls, characters,
  hex_loop, hex_start,
}
use neka_kernel.Terminal64.Screen.{IsOnScreen, kprint_stays, append-nil}

-- The characters of a call.
abbrev pub written : Call → List ℕ
written (text s) = characters_of s
written (char c) = if c == 0 then [] else c ∷ []
written (hex64 n) = characters (hex_loop 16 0 n hex_start) 0 18

abbrev pub all_written : List Call → List ℕ
all_written [] = []
all_written (c ∷ cs) = written c ++ all_written cs

print_call-kprint : (c : Call) (t : Terminal64) → print_call c t ≡ kprint (written c) t
unfolding print_call kprint_hex64
print_call-kprint (text s) t = refl
print_call-kprint (char c) t = refl
print_call-kprint (hex64 n) t = refl

print_calls_first :
    (c : Call) (cs : List Call) (t : Terminal64)
    → print_calls (c ∷ cs) t ≡ print_calls cs (kprint (written c) t)
unfolding print_calls
print_calls_first c cs t = ap (print_calls cs) (print_call-kprint c t)

append_assoc : (xs ys zs : List ℕ) → (xs ++ ys) ++ zs ≡ xs ++ (ys ++ zs)
append_assoc [] ys zs = refl
append_assoc (x ∷ xs) ys zs = ap (λ l. x ∷ l) (append_assoc xs ys zs)

-- Whatever a run of calls prints, the cursor stays on the screen, nothing outside of it is written,
-- and the characters go out of the serial port in order.
pub print_calls_stay :
    (cs : List Call) (t : Terminal64)
    → IsOnScreen t
    → IsOnScreen (print_calls cs t)
      × ((i : ℕ) → 2000 ≤ i → (print_calls cs t).vga_memory i ≡ t.vga_memory i)
      × ((print_calls cs t).serial ≡ t.serial ++ all_written cs)
unfolding print_calls
print_calls_stay [] t on = (on, λ i h. refl, append-nil t.serial)
print_calls_stay (c ∷ cs) t on =
    let first = kprint_stays (written c) t on in
    let rest = print_calls_stay cs (kprint (written c) t) first.0 in
    rw (print_calls_first c cs t) (
      rest.0,
      λ i h. rest.1 i h ∙ first.1 i h,
      rest.2
          ∙ ap (λ l. l ++ all_written cs) first.2
          ∙ append_assoc t.serial (written c) (all_written cs),
    )
