-- ===== src/Processor/Median.antt =====
-- processor.go: `computeMedianTimestamp`. Plot storage's `GetPlotHeader` is a parameter.
pub mod Middle
use plot_thread.Prelude.{
  ℕ, zero, suc, ◌/◌, Bool, true, false, Option, none, some, List, [], ◌∷◌, if◌then◌else◌, length,
  get_elem?, ℤ, pos, ltb_ℤ, Result, ok, err, panic, bind, some_or, Error,
}
use plot_thread.Prelude.Fallible.{◌>>=◌, ◌>>◌}
use plot_thread.Prelude.Bytes.{Bytes}
use plot_thread.Plot.{PlotHeader}

-- NUM_PLOTS_FOR_MEDIAN_TMESTAMP
abbrev pub num_plots_for_median_timestamp : ℕ
num_plots_for_median_timestamp = 11

-- `sort.Slice` by `<`: an ascending list of the same numbers.
unfoldable pub insert_timestamp : ℤ → List ℤ → List ℤ
insert_timestamp t [] = t ∷ []
insert_timestamp t (u ∷ us) = if ltb_ℤ u t then u ∷ insert_timestamp t us else t ∷ u ∷ us

unfoldable pub sort_timestamps : List ℤ → List ℤ
sort_timestamps [] = []
sort_timestamps (t ∷ ts) = insert_timestamp t (sort_timestamps ts)

-- `timestamps[len(timestamps)/2]`
unfoldable pub middle : List ℤ → Result ℤ
middle times = elim (get_elem? times (length times / 2)) [ none ↦ panic | some t ↦ ok t ]

module _ (get_plot_header : Bytes → Result (Option (PlotHeader × ℤ))) where
  -- The times of the last plots, as many as asked for or down to the first one.
  unfoldable pub timestamps : ℕ → PlotHeader → Result (List ℤ)
  timestamps zero header = ok []
  timestamps (suc n) header = bind (get_plot_header header.previous) (λ found. elim found [
    | none ↦ ok (header.time ∷ [])
    | some (previous, _) ↦ bind (timestamps n previous) (λ times. ok (header.time ∷ times))
  ])

  unfoldable pub compute_median_timestamp : PlotHeader → Result ℤ
  compute_median_timestamp prev_header = do
    times ← timestamps num_plots_for_median_timestamp prev_header
    middle (sort_timestamps times)
