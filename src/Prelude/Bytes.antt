-- ===== src/Prelude/Bytes.antt =====
-- Byte strings: Go's []byte, [n]byte and string, their equality, copying into a fixed array, and
-- encoding/binary's big-endian integers.
use mathlib.Core.Path.{◌≡◌, refl, ap}
use mathlib.Core.Logic.{◌↔◌}
use mathlib.Core.Bool.{Bool, true, false, ◌&&◌}
use mathlib.Core.List.{List, [], ◌∷◌}
use mathlib.Core.Option.{Option, none, some}
use native.Mathlib.Omega.{arith}
use Prim.Native.Nat.{ℕ, zero, suc}
use plot_thread.Prelude.Tests.{◌==◌}
use plot_thread.Prelude.Lists.{length}

abbrev pub Bytes : Type 0
Bytes = List ℕ

-- `bytes.Equal`, and `==` of arrays and strings.
unfoldable pub bytes_eq : Bytes → Bytes → Bool
bytes_eq [] [] = true
bytes_eq [] (y ∷ ys) = false
bytes_eq (x ∷ xs) [] = false
bytes_eq (x ∷ xs) (y ∷ ys) = (x == y) && bytes_eq xs ys

pub bytes_eq_iff : (xs ys : Bytes) → (bytes_eq xs ys ≡ true) ↔ (xs ≡ ys)
unfolding bytes_eq
bytes_eq_iff [] [] = (λ _. refl, λ _. refl)
bytes_eq_iff [] (y ∷ ys) = (λ h. cc, λ h. cc)
bytes_eq_iff (x ∷ xs) [] = (λ h. cc, λ h. cc)
bytes_eq_iff (x ∷ xs) (y ∷ ys) = ground (arith, bytes_eq_iff xs ys)

pub bytes_eq_refl : (xs : Bytes) → bytes_eq xs xs ≡ true
bytes_eq_refl xs = (bytes_eq_iff xs xs).1 refl

-- A slice that may be nil is read as its bytes.
abbrev pub or_empty : Option Bytes → Bytes
or_empty none = []
or_empty (some b) = b

-- `var a [n]byte; copy(a[:], b)`: the first n bytes, padded with zeros.
unfoldable pub copy_array : ℕ → Bytes → Bytes
copy_array zero b = []
copy_array (suc n) [] = 0 ∷ copy_array n []
copy_array (suc n) (x ∷ b) = x ∷ copy_array n b

pub copy_array-exact : (b : Bytes) → copy_array (length b) b ≡ b
unfolding copy_array
copy_array-exact [] = refl
copy_array-exact (x ∷ b) = ap (◌∷◌ x) (copy_array-exact b)

pub length-copy_array : (n : ℕ) (b : Bytes) → length (copy_array n b) ≡ n
unfolding copy_array
length-copy_array zero b = refl
length-copy_array (suc n) [] = ap suc (length-copy_array n [])
length-copy_array (suc n) (x ∷ b) = ap suc (length-copy_array n b)

pub copy_array-key : (n : ℕ) (b : Bytes) → length b ≡ n → copy_array n b ≡ b
copy_array-key n b h = rw (← h) (copy_array-exact b)
