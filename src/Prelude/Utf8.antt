-- ===== src/Prelude/Utf8.antt =====
-- `utf8.ValidString`: the ranges that the bytes after a first byte must lie in.
use plot_thread.Prelude.Tests.{ltb, leb, ◌==◌, if◌then◌else◌}
use plot_thread.Prelude.Bytes.{Bytes}
use Prim.Native.Nat.{ℕ}
use mathlib.Core.Path.{◌≡◌, refl}
use mathlib.Core.Bool.{Bool, true, false, ◌&&◌}
use mathlib.Core.List.{List, [], ◌∷◌}
use mathlib.Core.Option.{Option, none, some}

abbrev rest : ℕ × ℕ
rest = (0x80, 0xbf)

following : ℕ → Option (List (ℕ × ℕ))
following b =
    if ltb b 0x80
    then some []
    else if ltb b 0xc2
    then none
    else if ltb b 0xe0
    then some (rest ∷ [])
    else if b == 0xe0
    then some ((0xa0, 0xbf) ∷ rest ∷ [])
    else if b == 0xed
    then some ((0x80, 0x9f) ∷ rest ∷ [])
    else if ltb b 0xf0
    then some (rest ∷ rest ∷ [])
    else if b == 0xf0
    then some ((0x90, 0xbf) ∷ rest ∷ rest ∷ [])
    else if ltb b 0xf4
    then some (rest ∷ rest ∷ rest ∷ [])
    else if b == 0xf4
    then some ((0x80, 0x8f) ∷ rest ∷ rest ∷ [])
    else none

valid_after : List (ℕ × ℕ) → Bytes → Bool
unfolding following
valid_after [] [] = true
valid_after (r ∷ rs) [] = false
valid_after [] (b ∷ bs) = elim (following b) [ none ↦ false | some rs ↦ valid_after rs bs ]
valid_after ((lo, hi) ∷ rs) (b ∷ bs) = (leb lo b && leb b hi) && valid_after rs bs

unfoldable pub valid_utf8 : Bytes → Bool
unfolding valid_after
valid_utf8 s = valid_after [] s

-- "é€" is valid, and a surrogate, an overlong form and a cut character are not.
valid_euro : valid_utf8 (0xc3 ∷ 0xa9 ∷ 0xe2 ∷ 0x82 ∷ 0xac ∷ []) ≡ true
unfolding valid_utf8
valid_euro = refl

invalid_surrogate : valid_utf8 (0xed ∷ 0xa0 ∷ 0x80 ∷ []) ≡ false
unfolding valid_utf8
invalid_surrogate = refl

invalid_overlong : valid_utf8 (0xc0 ∷ 0x80 ∷ []) ≡ false
unfolding valid_utf8
invalid_overlong = refl
