-- ===== src/Prelude/Fallible.antt =====
-- Chains of calls that may fail and leave the state alone.
use plot_thread.Prelude.Outcome.{Result, bind}

infixl 5 ◌>>=◌ ◌>>◌
abbrev pub ◌>>=◌ : {A B : Type 0} → Result A → (A → Result B) → Result B
m >>= f = bind m f

abbrev pub ◌>>◌ : {B : Type 0} → Result (Unit {0}) → Result B → Result B
m >> k = bind m (λ _. k)
