-- ===== src/Processor/Target.antt =====
-- processor.go: `computeTarget`, by Bitcoin's rule and, from a height on, by Bitcoin Cash's. The
-- plot store's `GetPlotHeader` and the ledger's `GetPlotIDForHeight` are parameters.
pub mod Bounds
use plot_thread.Prelude.{
  ℕ, zero, suc, ◌+◌, ◌-◌, ◌*◌, ◌/◌, ◌^◌, Bool, true, false, not, Option, none, some, if◌then◌else◌,
  ltb, ℤ, pos, negsuc, pos_part, neg_part, ltb_ℤ, leb_ℤ, eqb_ℤ, sub_ℕ, rem_ℤ, add64, sub64, ◌-ℤ◌,
  Result, ok, err, panic, bind,
}
use plot_thread.Prelude.Fallible.{◌>>=◌, ◌>>◌}
use plot_thread.Prelude.Bytes.{Bytes}
use plot_thread.Plot.{PlotHeader, get_big_int, set_big_int}

-- RETARGET_INTERVAL
abbrev pub retarget_interval : ℕ
retarget_interval = 2016

-- RETARGET_TIME
abbrev pub retarget_time : ℕ
retarget_time = 1209600

-- INITIAL_TARGET, a one of 16 bits above 208 zero bits.
abbrev pub initial_target : ℕ
initial_target = 0xffff * 2 ^ 208

-- BITCOIN_CASH_RETARGET_ALGORITHM_HEIGHT
abbrev pub bitcoin_cash_height : ℕ
bitcoin_cash_height = 28861

-- RETARGET_SMA_WINDOW
abbrev pub retarget_sma_window : ℕ
retarget_sma_window = 144

-- TARGET_SPACING
abbrev pub target_spacing : ℕ
target_spacing = 600

-- `actualTimespan` held between two positive bounds.
unfoldable pub clamp_timespan : ℕ → ℕ → ℤ → ℕ
clamp_timespan low high actual =
    if ltb_ℤ actual (pos low)
    then low
    else if ltb_ℤ (pos high) actual
    then high
    else pos_part actual

-- `new(big.Int).SetBytes`, scaled and cut off at the initial target.
unfoldable pub retarget : ℕ → ℕ → ℕ
retarget prev_target timespan =
    let new_target = prev_target * timespan / retarget_time in
    if ltb initial_target new_target then initial_target else new_target

-- Dereferencing a header that is not there stops the program.
unfoldable pub deref : {A : Type 0} → Option A → Result A
deref none = panic
deref (some a) = ok a

-- `big.Int.Div` rounds so that the remainder is not negative.
unfoldable pub div_int : ℤ → ℕ → ℤ
div_int (pos n) d = pos (n / d)
div_int (negsuc n) d = negsuc (n / d)

-- A work times TARGET_SPACING.
abbrev pub scaled : ℤ → ℤ
scaled (pos n) = pos (n * target_spacing)
scaled (negsuc n) = sub_ℕ 0 (suc n * target_spacing)

-- 2 ^ 256 divided by a work; work zero is a division by zero.
unfoldable pub div_work : ℤ → Result ℤ
div_work (pos zero) = panic
div_work (pos (suc w)) = ok (pos (2 ^ 256 / suc w))
div_work (negsuc w) = ok (sub_ℕ 0 (2 ^ 256 / suc w))

-- `SetBigInt` takes the bytes of the absolute value.
unfoldable pub cut_off : ℤ → Result Bytes
cut_off target =
    if ltb_ℤ (pos initial_target) target
    then set_big_int initial_target
    else set_big_int (pos_part target + neg_part target)

module _ (get_plot_header : Bytes → Result (Option (PlotHeader × ℤ)))
    (get_plot_id_for_height : ℤ → Result (Option Bytes)) where
  -- The header of a plot that the code takes to be there.
  unfoldable pub header_of : Bytes → Result PlotHeader
  unfolding deref
  header_of plot_id = do found ← get_plot_header plot_id; (header, _) ← deref found; ok header

  unfoldable pub walk_back : ℕ → PlotHeader → Result PlotHeader
  unfolding header_of
  walk_back zero header = ok header
  walk_back (suc plots) header = do previous ← header_of header.previous; walk_back plots previous

  -- One plot less for the first interval, which has no plot before it.
  abbrev pub plots_to_go_back : ℤ → ℕ
  plots_to_go_back height =
      if eqb_ℤ (add64 height (pos 1)) (pos retarget_interval)
      then retarget_interval - 1
      else retarget_interval

  -- The target of the first plot of an interval.
  unfoldable pub retarget_from : PlotHeader → Result Bytes
  retarget_from prev = do
    first ← walk_back (plots_to_go_back prev.height) prev
    let timespan =
        clamp_timespan (retarget_time / 4) (retarget_time * 4) (sub64 prev.time first.time)
    set_big_int (retarget (get_big_int prev.target) timespan)

  unfoldable pub compute_target_bitcoin : PlotHeader → Result Bytes
  compute_target_bitcoin prev =
      if not (eqb_ℤ (rem_ℤ (add64 prev.height (pos 1)) retarget_interval) (pos 0))
      then ok prev.target
      else retarget_from prev

  unfoldable pub compute_target_bitcoin_cash : PlotHeader → Result Bytes
  unfolding header_of clamp_timespan div_int div_work cut_off deref
  compute_target_bitcoin_cash prev = do
    found ← get_plot_id_for_height (sub64 prev.height (pos retarget_sma_window))
    first_id ← deref found
    first ← header_of first_id
    let work = pos (get_big_int prev.thread_work) -ℤ pos (get_big_int first.thread_work)
    let timespan =
        clamp_timespan (retarget_sma_window / 2 * target_spacing)
          (2 * retarget_sma_window * target_spacing) (sub64 prev.time first.time)
    target ← div_work (div_int (scaled work) timespan)
    cut_off (target -ℤ pos 1)

  unfoldable pub compute_target : PlotHeader → Result Bytes
  compute_target prev =
      if leb_ℤ (pos bitcoin_cash_height) prev.height
      then compute_target_bitcoin_cash prev
      else compute_target_bitcoin prev
