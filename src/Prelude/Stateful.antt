-- ===== src/Prelude/Stateful.antt =====
-- Chains of calls on a state that may fail.
use mathlib.Core.Path.{◌≡◌, refl}
use mathlib.Core.Bool.{Bool, true, false}
use plot_thread.Prelude.Tests.{if◌then◌else◌}
use plot_thread.Prelude.Outcome.{Result, ok, err, panic, Action, continue}

infixl 5 ◌>>=◌ ◌>>◌
abbrev pub ◌>>=◌ : {S A B : Type 0} → Action S A → (A → Action S B) → Action S B
◌>>=◌ m f s = continue (m s) f

abbrev pub ◌>>◌ : {S B : Type 0} → Action S (Unit {0}) → Action S B → Action S B
◌>>◌ m k s = continue (m s) (λ _. k)

-- A chain that succeeds has succeeded at each link.
pub continue-eq-ok :
    {S A B : Type 0} (r : Result A × S) (f : A → Action S B) {b : B} {s' : S}
    → continue r f ≡ (ok b, s')
    → (a : A) × (s : S) × (r ≡ (ok a, s)) × (f a s ≡ (ok b, s'))
continue-eq-ok (ok a, s) f h = (a, s, refl, h)
continue-eq-ok (err e, s) f h = cc
continue-eq-ok (panic, s) f h = cc

-- `if b { m } else { n }` over calls.
abbrev pub branch : {S A : Type 0} → Bool → Action S A → Action S A → Action S A
branch b m n s = if b then m s else n s

-- What every link keeps, the chain keeps.
pub continue-keeps :
    {S A B : Type 0} (P : S → Type 0) (r : Result A × S) (f : A → Action S B)
    → P r.1
    → ((a : A) (s : S) → P s → P (f a s).1)
    → P (continue r f).1
continue-keeps P (ok a, s) f h keep = keep a s h
continue-keeps P (err e, s) f h keep = h
continue-keeps P (panic, s) f h keep = h

pub branch-keeps :
    {S A : Type 0} (P : S → Type 0) (b : Bool) (m n : Action S A) (s : S)
    → P (m s).1
    → P (n s).1
    → P (branch b m n s).1
branch-keeps P true m n s h k = h
branch-keeps P false m n s h k = k

-- The same, where what the first link gave matters to the rest.
pub continue-keeps_from :
    {S A B : Type 0} (P : S → Type 0) (r : Result A × S) (f : A → Action S B)
    → P r.1
    → ((a : A) (s : S) → r ≡ (ok a, s) → P (f a s).1)
    → P (continue r f).1
continue-keeps_from P (ok a, s) f h keep = keep a s refl
continue-keeps_from P (err e, s) f h keep = h
continue-keeps_from P (panic, s) f h keep = h
