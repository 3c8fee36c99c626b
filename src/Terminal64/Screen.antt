-- ===== src/Terminal64/Screen.antt =====
-- terminal64.c: where printed characters go.
use neka_kernel.Base.{
  ℕ, zero, suc, ◌+◌, ◌*◌, ◌%◌, ◌<◌, ◌≤◌, ◌≡◌, ◌≢◌, refl, ap, ◌∙◌, arith, List, [], ◌∷◌, ◌++◌,
  length, get_or, update_self, update_ne, ne→==,
}
use neka_kernel.Terminal64.{Terminal64, cell, putc_vga, serial_putc, kprint}

-- The cursor is on the screen.
abbrev pub IsOnScreen : Terminal64 → Type 0
IsOnScreen t = (t.term_row < 25) × (t.term_col < 80)

abbrev pub position : Terminal64 → ℕ
position t = t.term_row * 80 + t.term_col

module _ (c : ℕ) (t : Terminal64) (on : IsOnScreen t) where
  abbrev after : Terminal64
  after = serial_putc c (putc_vga c t)

  putc-IsOnScreen : IsOnScreen after
  unfolding putc_vga serial_putc
  putc-IsOnScreen = ground arith

  putc_outside : (i : ℕ) → 2000 ≤ i → after.vga_memory i ≡ t.vga_memory i
  unfolding putc_vga serial_putc
  putc_outside i h = ground arith

  putc_position : c ≢ 10 → position after ≡ (position t + 1) % 2000
  unfolding putc_vga serial_putc
  putc_position d = ground arith

  putc_cell : c ≢ 10 → after.vga_memory (position t) ≡ cell c
  unfolding putc_vga serial_putc
  putc_cell d = rw (ne→== c 10 d) (update_self t.vga_memory (position t) (cell c))

  putc_others : c ≢ 10 → (i : ℕ) → position t ≢ i → after.vga_memory i ≡ t.vga_memory i
  unfolding putc_vga serial_putc
  putc_others d i e = rw (ne→== c 10 d) (update_ne t.vga_memory (position t) i (cell c) e)

  putc_serial : after.serial ≡ t.serial ++ (c ∷ [])
  unfolding putc_vga serial_putc
  putc_serial = ground arith

append-snoc : (xs ys : List ℕ) (c : ℕ) → (xs ++ (c ∷ [])) ++ ys ≡ xs ++ (c ∷ ys)
append-snoc [] ys c = refl
append-snoc (x ∷ xs) ys c = ap (λ l. x ∷ l) (append-snoc xs ys c)

pub append-nil : (xs : List ℕ) → xs ≡ xs ++ []
append-nil [] = refl
append-nil (x ∷ xs) = ap (λ l. x ∷ l) (append-nil xs)

-- Whatever is printed, from a cursor on the screen: the cursor stays on the screen, nothing outside
-- of its 2000 cells is written, and the serial port gets the same characters.
pub kprint_stays :
    (cs : List ℕ) (t : Terminal64)
    → IsOnScreen t
    → IsOnScreen (kprint cs t)
      × ((i : ℕ) → 2000 ≤ i → (kprint cs t).vga_memory i ≡ t.vga_memory i)
      × ((kprint cs t).serial ≡ t.serial ++ cs)
unfolding kprint
kprint_stays [] t on = (on, λ i h. refl, append-nil t.serial)
kprint_stays (c ∷ cs) t on =
    let rest = kprint_stays cs (after c t on) (putc-IsOnScreen c t on) in
    (
      rest.0,
      λ i h. rest.1 i h ∙ putc_outside c t on i h,
      rest.2 ∙ ap (λ l. l ++ cs) (putc_serial c t on) ∙ append-snoc t.serial cs c,
    )

abbrev pub NoNewline : List ℕ → Type 0
NoNewline [] = Unit {0}
NoNewline (c ∷ cs) = (c ≢ 10) × NoNewline cs

-- What a line that fits the screen leaves, with the first character at `start`.
pub record IsPrinted (cs : List ℕ) (start : ℕ) (t t' : Terminal64) : Type 0 where
  pub moved : position t' ≡ (start + length cs) % 2000
  pub shown : (i : ℕ) → i < length cs → t'.vga_memory ((start + i) % 2000) ≡ cell (get_or cs i 0)
  pub kept :
      (j : ℕ)
      → ((i : ℕ) → i < length cs → (start + i) % 2000 ≢ j)
      → t'.vga_memory j ≡ t.vga_memory j

module _ (c : ℕ) (cs : List ℕ) (t : Terminal64) (on : IsOnScreen t) (plain : c ≢ 10)
    (fits : length (c ∷ cs) ≤ 2000)
    (rest : IsPrinted cs (position (after c t on)) (after c t on) (kprint cs (after c t on))) where
  shown_at :
      (i : ℕ)
      → i < length (c ∷ cs)
      → (kprint cs (after c t on)).vga_memory ((position t + i) % 2000) ≡ cell (get_or (c ∷ cs) i 0)
  shown_at zero l =
      let here : (position t + 0) % 2000 ≡ position t = omega (arith, on.0, on.1) in
      rw here (
        rest.kept (position t)
          (λ i l e. absurd (omega (arith, on.0, on.1, putc_position c t on plain)))
        ∙ putc_cell c t on plain)
  shown_at (suc i) l =
      let there : (position t + suc i) % 2000 ≡ (position (after c t on) + i) % 2000 =
        omega (arith, putc_position c t on plain) in
      rw there (rest.shown i (omega arith))

-- Characters other than the newline, at most a screenful, stand one after the other from the cursor
-- on, going on at the top behind the last cell; the cursor stands behind them, and no other cell
-- changes.
pub kprint_shows :
    (cs : List ℕ) (t : Terminal64)
    → IsOnScreen t
    → NoNewline cs
    → length cs ≤ 2000
    → IsPrinted cs (position t) t (kprint cs t)
unfolding kprint
kprint_shows [] t on plain fits = record {
  moved = omega (arith, on.0, on.1);
  shown = λ i l. absurd (omega arith);
  kept = λ j out. refl;
}
kprint_shows (c ∷ cs) t on plain fits =
    let at : position (after c t on) ≡ (position t + 1) % 2000 = putc_position c t on plain.0 in
    let low : position t < 2000 = omega (arith, on.0, on.1) in
    let rest : IsPrinted cs (position (after c t on)) (after c t on) (kprint cs (after c t on)) =
      kprint_shows cs (after c t on) (putc-IsOnScreen c t on) plain.1 (omega arith) in
    record {
      moved = omega (arith, rest.moved);
      shown = λ i l. shown_at c cs t on plain.0 fits rest i l;
      kept = λ j out.
          rest.kept j (λ i l e. absurd (out (i + 1) (omega arith) (omega arith)))
          ∙ putc_others c t on plain.0 j (λ e. absurd (out 0 (omega arith) (omega arith)));
    }
