-- ===== src/Processor/Median/Middle.antt =====
-- processor.go: what `computeMedianTimestamp` returns.
use plot_thread.Prelude.{
  ℕ, zero, suc, ◌+◌, ◌*◌, ◌/◌, ◌≡◌, refl, ◌<◌, ◌≤◌, ◌≤ℤ◌, Bool, Bool-cases, Option, some, List, [],
  ◌∷◌, if◌then◌else◌, length, get_elem?, All, ℤ, ltb_ℤ, Result, ok, arith, inl, inr,
}
use plot_thread.Prelude.Bytes.{Bytes}
use plot_thread.Plot.{PlotHeader}
use plot_thread.Processor.Median.{
  num_plots_for_median_timestamp, insert_timestamp, sort_timestamps, timestamps, middle,
  compute_median_timestamp,
}

-- How many times pass a test.
unfoldable pub count_of : (ℤ → Bool) → List ℤ → ℕ
count_of test [] = 0
count_of test (t ∷ ts) = (if test t then 1 else 0) + count_of test ts

abbrev IsAscending : List ℤ → Type 0
IsAscending [] = Unit
IsAscending (t ∷ ts) = All (λ u. t ≤ℤ u) ts × IsAscending ts

insert-All :
    (x t : ℤ) (us : List ℤ)
    → x ≤ℤ t
    → All (λ u. x ≤ℤ u) us
    → All (λ u. x ≤ℤ u) (insert_timestamp t us)
unfolding insert_timestamp
insert-All x t [] le all = (le, tt)
insert-All x t (u ∷ us) le all = ground (arith, insert-All x t us le all.1)

below-All : (x y : ℤ) (us : List ℤ) → x ≤ℤ y → All (λ u. y ≤ℤ u) us → All (λ u. x ≤ℤ u) us
below-All x y [] le all = tt
below-All x y (u ∷ us) le all = (omega arith, below-All x y us le all.1)

insert-IsAscending : (t : ℤ) (us : List ℤ) → IsAscending us → IsAscending (insert_timestamp t us)
unfolding insert_timestamp
insert-IsAscending t [] asc = (tt, tt)
insert-IsAscending t (u ∷ us) asc = elim (Bool-cases (ltb_ℤ u t)) [
  | inl lt ↦
      rw (lt, insert_timestamp)
        (insert-All u t us (ground arith) asc.0, insert-IsAscending t us asc.1)
  | inr ge ↦
      let le : t ≤ℤ u = ground arith in
      rw (ge, insert_timestamp) ((le, below-All t u us le asc.0), asc)
]

sort-IsAscending : (ts : List ℤ) → IsAscending (sort_timestamps ts)
unfolding sort_timestamps
sort-IsAscending [] = tt
sort-IsAscending (t ∷ ts) = insert-IsAscending t (sort_timestamps ts) (sort-IsAscending ts)

count_of-insert :
    (test : ℤ → Bool) (t : ℤ) (us : List ℤ)
    → count_of test (insert_timestamp t us) ≡ (if test t then 1 else 0) + count_of test us
unfolding insert_timestamp count_of
count_of-insert test t [] = refl
count_of-insert test t (u ∷ us) = ground (arith, count_of-insert test t us)

count_of-sort :
    (test : ℤ → Bool) (ts : List ℤ) → count_of test (sort_timestamps ts) ≡ count_of test ts
unfolding sort_timestamps count_of
count_of-sort test [] = refl
count_of-sort test (t ∷ ts) =
    ground (arith, count_of-insert test t (sort_timestamps ts), count_of-sort test ts)

length-insert : (t : ℤ) (us : List ℤ) → length (insert_timestamp t us) ≡ suc (length us)
unfolding insert_timestamp
length-insert t [] = refl
length-insert t (u ∷ us) = ground (arith, length-insert t us)

length-sort : (ts : List ℤ) → length (sort_timestamps ts) ≡ length ts
unfolding sort_timestamps
length-sort [] = refl
length-sort (t ∷ ts) = omega (arith, length-insert t (sort_timestamps ts), length-sort ts)

count_of-le : (test : ℤ → Bool) (ts : List ℤ) → count_of test ts ≤ length ts
unfolding count_of
count_of-le test [] = omega arith
count_of-le test (t ∷ ts) = ground (arith, count_of-le test ts)

none_below : (x : ℤ) (us : List ℤ) → All (λ u. x ≤ℤ u) us → count_of (λ u. ltb_ℤ u x) us ≡ 0
unfolding count_of
none_below x [] all = refl
none_below x (u ∷ us) all = ground (arith, none_below x us all.1)

All-get : (x m : ℤ) (us : List ℤ) (i : ℕ) → All (λ u. x ≤ℤ u) us → get_elem? us i ≡ some m → x ≤ℤ m
All-get x m [] i all at = absurd (ground arith)
All-get x m (u ∷ us) zero all at = ground arith
All-get x m (u ∷ us) (suc i) all at = All-get x m us i all.1 at

-- At most i entries of an ascending list are below its i-th, and those above it come after it.
counts_at :
    (ts : List ℤ) (i : ℕ) (m : ℤ)
    → IsAscending ts
    → get_elem? ts i ≡ some m
    → (count_of (λ t. ltb_ℤ t m) ts ≤ i) × (count_of (λ t. ltb_ℤ m t) ts + suc i ≤ length ts)
unfolding count_of
counts_at [] i m asc at = absurd (ground arith)
counts_at (t ∷ ts) zero m asc at =
    let same : t ≡ m = ground arith in
    ground (arith, same, none_below t ts asc.0, count_of-le (λ u. ltb_ℤ t u) ts)
counts_at (t ∷ ts) (suc i) m asc at =
    ground (arith, counts_at ts i m asc.1 at, All-get t m ts i asc.0 at)

get_total : (ts : List ℤ) (i : ℕ) → i < length ts → (m : ℤ) × (get_elem? ts i ≡ some m)
get_total [] i lt = absurd (omega arith)
get_total (t ∷ ts) zero lt = (t, refl)
get_total (t ∷ ts) (suc i) lt = get_total ts i (omega arith)

middle_lem :
    (ts : List ℤ)
    → 0 < length ts
    → (m : ℤ) × (middle (sort_timestamps ts) ≡ ok m)
      × (2 * count_of (λ t. ltb_ℤ t m) ts ≤ length ts)
      × (2 * count_of (λ t. ltb_ℤ m t) ts < length ts)
unfolding middle
middle_lem ts some_times =
    let sorted = sort_timestamps ts in
    let (m, at) = get_total sorted (length sorted / 2) (omega (arith, length-sort ts)) in
    let (below, above) = counts_at sorted (length sorted / 2) m (sort-IsAscending ts) at in
    (
      m,
      ground (arith, at),
      omega (arith, below, count_of-sort (λ t. ltb_ℤ t m) ts, length-sort ts),
      omega (arith, above, count_of-sort (λ t. ltb_ℤ m t) ts, length-sort ts),
    )

module _ (get_plot_header : Bytes → Result (Option (PlotHeader × ℤ))) where
  timestamps-first :
      (n : ℕ) (header : PlotHeader) (ts : List ℤ)
      → timestamps get_plot_header (suc n) header ≡ ok ts
      → 0 < length ts
  unfolding timestamps
  timestamps-first n header ts e = ground arith

  -- Wherever the times of the last plots can be read, there is a median: at most half of them are
  -- earlier, and less than half of them later.
  pub compute_median_timestamp-halves :
      (prev_header : PlotHeader) (ts : List ℤ)
      → timestamps get_plot_header num_plots_for_median_timestamp prev_header ≡ ok ts
      → (m : ℤ) × (compute_median_timestamp get_plot_header prev_header ≡ ok m)
        × (2 * count_of (λ t. ltb_ℤ t m) ts ≤ length ts)
        × (2 * count_of (λ t. ltb_ℤ m t) ts < length ts)
  unfolding compute_median_timestamp
  compute_median_timestamp-halves prev_header ts e =
      let (m, found, below, above) = middle_lem ts (timestamps-first 10 prev_header ts e) in
      (m, ground (arith, e, found), below, above)
