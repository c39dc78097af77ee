-- ===== src/Tests/Threads.antt =====
-- The theorems on the acceptance of plots, at concrete inputs.
use plot_thread.Prelude.{ℕ, ◌≡◌, ◌≤◌, ◌<◌, ◌*◌, refl, Option, [], ◌∷◌, ℤ, pos, Result, ok, ltb_ℤ}
use plot_thread.Prelude.Bytes.{Bytes, bytes_eq}
use plot_thread.Prelude.Assoc.{Assoc, lookup}
use plot_thread.Plot.{PlotHeader}
use plot_thread.Processor.Reorganize.{header_eq, walk_down, scan_both, lower, find_ways}
use plot_thread.Processor.Target.{deref}
use plot_thread.Processor.Ancestor.{Way, find_ways-Way}
use plot_thread.Processor.Median.{
  num_plots_for_median_timestamp, timestamps, compute_median_timestamp,
}
use plot_thread.Processor.Median.Middle.{count_of, compute_median_timestamp-halves}

-- A fork: two plots on the first one, the second of them with a successor.
abbrev on : ℕ → ℤ → ℤ → PlotHeader
on previous time height = record {
  previous = previous ∷ [];
  hash_list_root = [];
  time = time;
  target = [];
  thread_work = [];
  nonce = pos 7;
  height = height;
  representation_count = pos 1;
}

abbrev first : PlotHeader
first = on 0 (pos 100) (pos 0)

abbrev left : PlotHeader
left = on 1 (pos 200) (pos 1)

abbrev right : PlotHeader
right = on 1 (pos 300) (pos 1)

abbrev above : PlotHeader
above = on 3 (pos 250) (pos 2)

abbrev fork : Assoc (PlotHeader × ℤ)
fork =
    (1 ∷ [], (first, pos 0))
    ∷ (2 ∷ [], (left, pos 0))
    ∷ (3 ∷ [], (right, pos 0))
    ∷ (4 ∷ [], (above, pos 0))
    ∷ []

abbrev headers : Bytes → Result (Option (PlotHeader × ℤ))
headers plot_id = ok (lookup plot_id fork)

ways_lem :
    find_ways headers 5 (2 ∷ []) left (4 ∷ []) above ≡ ok ((2 ∷ []) ∷ [], (3 ∷ []) ∷ (4 ∷ []) ∷ [])
unfolding find_ways walk_down scan_both lower header_eq deref lookup bytes_eq
ways_lem = refl

find_ways-Way_example :
    (a : Bytes) × (b : Bytes) × (k : PlotHeader) × Way headers a k (2 ∷ []) left ((2 ∷ []) ∷ [])
    × Way headers b k (4 ∷ []) above ((4 ∷ []) ∷ (3 ∷ []) ∷ [])
find_ways-Way_example =
    find_ways-Way headers 5 (2 ∷ []) left (4 ∷ []) above ((2 ∷ []) ∷ [], (3 ∷ []) ∷ (4 ∷ []) ∷ [])
      ways_lem

times_lem :
    timestamps headers num_plots_for_median_timestamp above ≡ ok (pos 250 ∷ pos 300 ∷ pos 100 ∷ [])
unfolding timestamps lookup bytes_eq
times_lem = refl

compute_median_timestamp-halves_example :
    (m : ℤ) × (compute_median_timestamp headers above ≡ ok m)
    × (2 * count_of (λ t. ltb_ℤ t m) (pos 250 ∷ pos 300 ∷ pos 100 ∷ []) ≤ 3)
    × (2 * count_of (λ t. ltb_ℤ m t) (pos 250 ∷ pos 300 ∷ pos 100 ∷ []) < 3)
compute_median_timestamp-halves_example =
    compute_median_timestamp-halves headers above (pos 250 ∷ pos 300 ∷ pos 100 ∷ []) times_lem
