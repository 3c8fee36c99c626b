-- ===== src/Terminal64/Printing.antt =====
-- terminal64.c: `kprint` on several CPUs at once, a call on shared state at a time.
use neka_kernel.Base.{ℕ, Bool, true, false, List, [], ◌∷◌, if◌then◌else◌, update}
use neka_kernel.Terminal64.{Terminal64, putc_vga, serial_putc, kprint}

-- Where a CPU stands: outside of `kprint`, before the lock with the text, inside the lock with the rest
-- of it, there between the two calls for a character, and behind the lock.
pub data Stage : Type 0 where
  outside : Stage
  acquires : List ℕ → Stage
  prints : List ℕ → Stage
  sends : ℕ → List ℕ → Stage
  restores : Stage

-- The console with `print_lock`, and for each CPU its stage, its interrupt flag and `flags`.
pub record Console : Type 0 where
  pub terminal : Terminal64
  pub print_lock : Bool
  pub stage : ℕ → Stage
  pub interrupts : ℕ → Bool
  pub flags : ℕ → Bool

abbrev pub goes : ℕ → Stage → Console → Console
goes c g k = record k { stage = update k.stage c g }

-- The next step of the CPU `c` from a stage. A CPU outside calls `kprint` with the text `s`.
unfoldable pub step_from : Stage → ℕ → List ℕ → Console → Console
step_from outside c s k = goes c (acquires s) (record k {
  flags = update k.flags c (k.interrupts c);
  interrupts = update k.interrupts c false;
})
step_from (acquires text) c s k =
    if k.print_lock then k else goes c (prints text) (record k { print_lock = true })
step_from (prints []) c s k = goes c restores (record k { print_lock = false })
step_from (prints (ch ∷ rest)) c s k =
    goes c (sends ch rest) (record k { terminal = putc_vga ch k.terminal })
step_from (sends ch rest) c s k =
    goes c (prints rest) (record k { terminal = serial_putc ch k.terminal })
step_from restores c s k =
    goes c outside (if k.flags c then record k { interrupts = update k.interrupts c true } else k)

unfoldable pub step : ℕ → List ℕ → Console → Console
unfolding step_from
step c s k = step_from (k.stage c) c s k

-- The steps of the CPUs in the order of a list.
unfoldable pub run_steps : List (ℕ × List ℕ) → Console → Console
unfolding step
run_steps [] k = k
run_steps ((c, s) ∷ l) k = run_steps l (step c s k)

-- The text with which a step takes the lock.
abbrev pub taken_from : Stage → Bool → List (List ℕ) → List (List ℕ)
taken_from outside locked log = log
taken_from (acquires text) locked log = if locked then log else text ∷ log
taken_from (prints rest) locked log = log
taken_from (sends ch rest) locked log = log
taken_from restores locked log = log

-- The texts in the order in which the lock was taken, the last one first.
unfoldable pub texts_of : List (ℕ × List ℕ) → Console → List (List ℕ) → List (List ℕ)
unfolding step
texts_of [] k log = log
texts_of ((c, s) ∷ l) k log = texts_of l (step c s k) (taken_from (k.stage c) k.print_lock log)

-- One `kprint` after the other.
unfoldable pub print_all : List (List ℕ) → Terminal64 → Terminal64
print_all [] t = t
print_all (s ∷ log) t = kprint s (print_all log t)
