-- ===== src/Processor/CheckPlot.antt =====
-- processor.go: `checkPlot`, the checks of a plot by itself.
pub mod Rules
use plot_thread.Prelude.{
  ℕ, Bool, true, false, not, ◌||◌, List, [], ◌∷◌, ltb, ◌==◌, length, if◌then◌else◌, ℤ, pos, ltb_ℤ,
  eqb_ℤ, add64, Result, ok, bind, refuse, Error,
}
use plot_thread.Prelude.Fallible.{◌>>=◌, ◌>>◌}
use plot_thread.Prelude.Bytes.{Bytes, bytes_eq}
use plot_thread.Prelude.Assoc.{Assoc, insert}
use plot_thread.Representation.{Representation, Crypto, id, is_plotroot}
use plot_thread.Representation.Check.{check_representation, max_number}
use plot_thread.Plot.{Plot, check_pow, compute_hash_list_root}
use plot_thread.Processor.Limits.{compute_max_representations_per_plot, checkpoint_check}

-- MAX_FUTURE_SECONDS
abbrev pub max_future_seconds : ℤ
max_future_seconds = pos 7200

unfoldable pub refuse_plotroots : List Representation → Result (Unit {0})
refuse_plotroots [] = ok tt
refuse_plotroots (tx ∷ txs) = do
  refuse (is_plotroot tx) Error.multiple_plotroots
  refuse_plotroots txs

-- The first representation must be a plotroot, and no other one.
unfoldable pub check_plotroot : List Representation → Result (Unit {0})
check_plotroot [] = refuse true Error.no_representations
check_plotroot (tx ∷ txs) = refuse (not (is_plotroot tx)) Error.first_not_plotroot

unfoldable pub check_others : List Representation → Result (Unit {0})
check_others [] = ok tt
check_others (tx ∷ txs) = refuse_plotroots txs

module _ (c : Crypto) where
  -- `txIDs`, the set of the IDs of representations that are sane by themselves.
  unfoldable pub collect_ids : List Representation → Assoc Bool → Result (Assoc Bool)
  collect_ids [] tx_ids = ok tx_ids
  collect_ids (tx ∷ txs) tx_ids = do
    tx_id ← id c tx
    check_representation tx
    collect_ids txs (insert tx_id true tx_ids)

  unfoldable pub check_representations : Plot → Result (Unit {0})
  check_representations plot = do
    tx_ids ← collect_ids plot.representations []
    refuse (not (length tx_ids == length plot.representations)) Error.duplicate_representation

  unfoldable pub check_root : Plot → Result (Unit {0})
  check_root plot = do
    (root, _) ← compute_hash_list_root c [] plot.representations
    refuse (not (bytes_eq root plot.header.hash_list_root)) Error.hash_list_root_mismatch

  -- The checks of the header alone.
  unfoldable pub check_header : Bytes → Plot → ℤ → Result (Unit {0})
  check_header plot_id plot now = do
    refuse (ltb_ℤ plot.header.time (pos 0) || ltb_ℤ max_number plot.header.time) Error.invalid_time
    refuse (ltb_ℤ (add64 now max_future_seconds) plot.header.time) Error.time_too_far
    refuse (not (check_pow plot plot_id)) Error.insufficient_work
    refuse (ltb_ℤ plot.header.nonce (pos 0) || ltb_ℤ max_number plot.header.nonce)
        Error.invalid_nonce
    refuse (ltb_ℤ plot.header.height (pos 0) || ltb_ℤ max_number plot.header.height)
        Error.invalid_height
    checkpoint_check plot_id plot.header.height
    refuse (ltb_ℤ plot.header.representation_count (pos 0)) Error.negative_count
    refuse (not (eqb_ℤ plot.header.representation_count (pos (length plot.representations))))
        Error.count_mismatch

  unfoldable pub check_size : Plot → Result (Unit {0})
  check_size plot = do
    max ← compute_max_representations_per_plot plot.header.height
    refuse (ltb_ℤ max (pos (length plot.representations))) Error.too_many

  unfoldable pub check_plot : Bytes → Plot → ℤ → Result (Unit {0})
  check_plot plot_id plot now = do
    check_header plot_id plot now
    check_plotroot plot.representations
    check_size plot
    check_others plot.representations
    check_representations plot
    check_root plot
