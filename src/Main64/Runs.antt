-- ===== src/Main64/Runs.antt =====
-- How the functions of main64.c end.
use neka_kernel.Base.{ℕ}

-- The halts of `neka_panic` by their category, with the code; paging64.c and memmap.c share one.
pub data Panic : Type 0 where
  frames : ℕ → Panic
  apic : ℕ → Panic
  heap : ℕ → Panic
  sched : ℕ → Panic

-- A function ends with a value and a state, in a panic with its code, in a fault, which is a page fault
-- or a store over the words of the heap, or, where a
-- loop inside lacks fuel, without an answer.
pub data Run (S A : Type 0) : Type 0 where
  ok : A → S → Run S A
  panics : Panic → Run S A
  faults : Run S A
  out_of_fuel : Run S A

abbrev pub Cmd : Type 0 → Type 0 → Type 0
Cmd S A = S → Run S A

module _ {S A B : Type 0} where
  abbrev pub and_then : Run S A → (A → Cmd S B) → Run S B
  and_then (ok a s) k = k a s
  and_then (panics c) k = panics c
  and_then faults k = faults
  and_then out_of_fuel k = out_of_fuel

  infixl 5 ◌>>=◌ ◌>>◌
  abbrev pub ◌>>=◌ : Cmd S A → (A → Cmd S B) → Cmd S B
  m >>= k = λ s. and_then (m s) k

  abbrev pub ◌>>◌ : Cmd S A → Cmd S B → Cmd S B
  m >> n = m >>= λ _. n

-- The command ends with a value for which `P` holds.
abbrev pub Returns : {S A : Type 0} → (A → S → Type 0) → Run S A → Type 0
Returns P (ok a s) = P a s
Returns P (panics c) = ⊥
Returns P faults = ⊥
Returns P out_of_fuel = ⊥

pub Returns-bind :
    {S A B : Type 0} (P : A → S → Type 0) (Q : B → S → Type 0) (r : Run S A) (k : A → Cmd S B)
    → Returns P r
    → ((a : A) (s : S) → P a s → Returns Q (k a s))
    → Returns Q (and_then r k)
Returns-bind P Q (ok a s) k h next = next a s h
Returns-bind P Q (panics c) k h next = elim h [ ]
Returns-bind P Q faults k h next = elim h [ ]
Returns-bind P Q out_of_fuel k h next = elim h [ ]

pub Returns-map :
    {S A : Type 0} (P Q : A → S → Type 0) (r : Run S A)
    → Returns P r
    → ((a : A) (s : S) → P a s → Q a s)
    → Returns Q r
Returns-map P Q (ok a s) h next = next a s h
Returns-map P Q (panics c) h next = elim h [ ]
Returns-map P Q faults h next = elim h [ ]
Returns-map P Q out_of_fuel h next = elim h [ ]

-- The command ends with a value for which `P` holds, or in a panic that `Q` allows.
abbrev pub Ends : {S A : Type 0} → (Panic → Type 0) → (A → S → Type 0) → Run S A → Type 0
Ends Q P (ok a s) = P a s
Ends Q P (panics c) = Q c
Ends Q P faults = ⊥
Ends Q P out_of_fuel = ⊥

pub Ends-bind :
    {S A B : Type 0} (Q : Panic → Type 0) (P : A → S → Type 0) (R : B → S → Type 0) (r : Run S A)
    (k : A → Cmd S B)
    → Ends Q P r
    → ((a : A) (s : S) → P a s → Ends Q R (k a s))
    → Ends Q R (and_then r k)
Ends-bind Q P R (ok a s) k h next = next a s h
Ends-bind Q P R (panics c) k h next = h
Ends-bind Q P R faults k h next = elim h [ ]
Ends-bind Q P R out_of_fuel k h next = elim h [ ]
