-- ===== src/Processor/Limits.antt =====
-- processor.go: `computeMaxRepresentationsPerPlot`, and checkpoints.go.
pub mod Growth
use plot_thread.Prelude.{
  ℕ, suc, ◌+◌, ◌*◌, ◌/◌, ◌%◌, ◌^◌, ◌≡◌, refl, Bool, true, false, not, Option, none, some, List, [],
  ◌∷◌, if◌then◌else◌, ℤ, pos, negsuc, leb_ℤ, eqb_ℤ, sub_ℕ, quot_ℤ, rem_ℤ, add64, Result, ok, err,
  panic, Error, refuse, ltb,
}
use plot_thread.Prelude.Bytes.{Bytes, bytes_eq}

-- MAX_REPRESENTATIONS_PER_PLOT_EXCEEDED_AT_HEIGHT
abbrev pub exceeded_at_height : ℕ
exceeded_at_height = 1852032

-- PLOTS_UNTIL_REPRESENTATIONS_PER_PLOT_DOUBLING
abbrev pub plots_until_doubling : ℕ
plots_until_doubling = 105000

-- INITIAL_MAX_REPRESENTATIONS_PER_PLOT
abbrev pub initial_max : ℕ
initial_max = 10000

abbrev scale : ℕ → ℤ → ℤ
scale k (pos n) = pos (k * n)
scale k (negsuc n) = sub_ℕ 0 (k * suc n)

-- `int64(1 << uint64(doublings))`: a negative count is a huge shift.
abbrev shifted : ℤ → ℕ
shifted (pos d) = 2 ^ d
shifted (negsuc _) = 0

-- Below the height at which the limit is fixed the products stay below 2 ^ 48, so they do not wrap.
unfoldable pub compute_max_representations_per_plot : ℤ → Result ℤ
compute_max_representations_per_plot height =
    let doublings = quot_ℤ height plots_until_doubling in
    let factor = shifted doublings in
    let interpolate =
      quot_ℤ (scale (initial_max * factor) (rem_ℤ height plots_until_doubling))
        plots_until_doubling in
    if leb_ℤ (pos exceeded_at_height) height
    then ok (pos 2147483647)
    else if leb_ℤ (pos 64) doublings
    then panic
    else ok (add64 (pos (initial_max * factor)) interpolate)

-- `CheckpointsEnabled` and `Checkpoints`
abbrev checkpoints_enabled : Bool
checkpoints_enabled = false

abbrev checkpoints : List (ℤ × Bytes)
checkpoints = []

checkpoint_at : ℤ → List (ℤ × Bytes) → Option Bytes
checkpoint_at height [] = none
checkpoint_at height ((h, s) ∷ rest) = if eqb_ℤ h height then some s else checkpoint_at height rest

abbrev hex_digit : ℕ → ℕ
hex_digit d = if ltb d 10 then d + b'0' else d + 87

-- `hex.EncodeToString`
unfoldable pub encode_hex : Bytes → Bytes
encode_hex [] = []
encode_hex (b ∷ bs) = hex_digit (b / 16) ∷ hex_digit (b % 16) ∷ encode_hex bs

unfoldable pub checkpoint_check : Bytes → ℤ → Result (Unit {0})
unfolding checkpoint_at encode_hex
checkpoint_check plot_id height =
    if not checkpoints_enabled then ok tt else elim (checkpoint_at height checkpoints) [
      | none ↦ ok tt
      | some s ↦ refuse (not (bytes_eq (encode_hex plot_id) s)) Error.checkpoint_mismatch
    ]
