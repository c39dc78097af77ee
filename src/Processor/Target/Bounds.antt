-- ===== src/Processor/Target/Bounds.antt =====
-- processor.go: a new target lies within a factor of four of the last one, and is never easier than
-- the initial target.
use plot_thread.Prelude.{
  ℕ, ◌*◌, ◌/◌, ◌≡◌, ◌≤◌, Bool-cases, inl, inr, Option, ℤ, pos, eqb_ℤ, rem_ℤ, add64, sub64, Result,
  ok, bind-eq-ok, arith,
}
use plot_thread.Prelude.Bytes.{Bytes}
use plot_thread.Plot.{PlotHeader, get_big_int, set_big_int}
use plot_thread.Plot.Work.{get_big_int-set_big_int}
use plot_thread.Processor.Target.{
  retarget_interval, retarget_time, initial_target, clamp_timespan, retarget, walk_back,
  plots_to_go_back, retarget_from, compute_target_bitcoin,
}

clamp_bounds :
    (actual : ℤ)
    → (302400 ≤ clamp_timespan (retarget_time / 4) (retarget_time * 4) actual)
      × (clamp_timespan (retarget_time / 4) (retarget_time * 4) actual ≤ 4838400)
unfolding clamp_timespan
clamp_bounds actual = ground arith

share_low : (p s : ℕ) → 302400 ≤ s → p / 4 ≤ p * s / 1209600
share_low p s le = let grown : p * 302400 ≤ p * s = grind arith in omega arith

share_high : (p s : ℕ) → s ≤ 4838400 → p * s / 1209600 ≤ p * 4
share_high p s le = let grown : p * s ≤ p * 4838400 = grind arith in omega arith

retarget_bounds :
    (prev span : ℕ)
    → 302400 ≤ span
    → span ≤ 4838400
    → prev ≤ initial_target
    → (retarget prev span ≤ initial_target)
      × (prev / 4 ≤ retarget prev span)
      × (retarget prev span ≤ prev * 4)
unfolding retarget
retarget_bounds prev span low high h =
    ground (arith, share_low prev span low, share_high prev span high)

get_big_int-retarget :
    (prev span : ℕ) (target : Bytes)
    → retarget prev span ≤ initial_target
    → set_big_int (retarget prev span) ≡ ok target
    → get_big_int target ≡ retarget prev span
get_big_int-retarget prev span target h e =
    let (b, made, same) = (get_big_int-set_big_int (retarget prev span)).0 (omega arith) in
    ground (arith, made, same, e)

module _ (get_plot_header : Bytes → Result (Option (PlotHeader × ℤ)))
    (get_plot_id_for_height : ℤ → Result (Option Bytes)) where
  retarget_from_bounds :
      (prev : PlotHeader) (target : Bytes)
      → get_big_int prev.target ≤ initial_target
      → retarget_from get_plot_header get_plot_id_for_height prev ≡ ok target
      → (get_big_int target ≤ initial_target)
        × (get_big_int prev.target / 4 ≤ get_big_int target)
        × (get_big_int target ≤ get_big_int prev.target * 4)
  unfolding retarget_from
  retarget_from_bounds prev target h made =
      let (first, walked, set) =
        bind-eq-ok
          (walk_back get_plot_header get_plot_id_for_height
            (plots_to_go_back get_plot_header get_plot_id_for_height prev.height) prev)
          _ made in
      let span =
        clamp_timespan (retarget_time / 4) (retarget_time * 4) (sub64 prev.time first.time) in
      let (low, high) = clamp_bounds (sub64 prev.time first.time) in
      let (cut, down, up) = retarget_bounds (get_big_int prev.target) span low high h in
      rw (get_big_int-retarget (get_big_int prev.target) span target cut set) (cut, down, up)

  -- After a header whose target is not above the initial one, the target that Bitcoin's rule
  -- computes is not above it either, and is at least a quarter of the last target and at most
  -- four times that.
  pub compute_target_bitcoin_bounds :
      (prev : PlotHeader) (target : Bytes)
      → get_big_int prev.target ≤ initial_target
      → compute_target_bitcoin get_plot_header get_plot_id_for_height prev ≡ ok target
      → (get_big_int target ≤ initial_target)
        × (get_big_int prev.target / 4 ≤ get_big_int target)
        × (get_big_int target ≤ get_big_int prev.target * 4)
  unfolding compute_target_bitcoin
  compute_target_bitcoin_bounds prev target h made =
      elim (Bool-cases (eqb_ℤ (rem_ℤ (add64 prev.height (pos 1)) retarget_interval) (pos 0))) [
        | inr within ↦ let same : prev.target ≡ target = ground arith in rw (← same) (omega arith)
        | inl due ↦
            let retargeted : retarget_from get_plot_header get_plot_id_for_height prev ≡ ok target =
              ground arith in
            retarget_from_bounds prev target h retargeted
      ]
