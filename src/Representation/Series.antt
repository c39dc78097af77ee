-- ===== src/Representation/Series.antt =====
-- processor.go and representation.go: the series, and the window of heights of a representation.
use plot_thread.Prelude.{
  ◌≡◌, ◌+◌, ◌<◌, ◌≤◌, ℕ, not, true, Option, none, some, ℤ, pos, arith, int64_bound, add64, sub64,
  quot_ℤ, ◌/◌, ◌-◌,
}
use plot_thread.Prelude.Bytes.{Bytes}
use plot_thread.Representation.{
  Representation, plots_until_new_series, is_mature, is_expired, new_representation,
}
use plot_thread.Representation.Check.{check_representation_series}

-- The series of a height, without overflow.
add64-quot :
    (n : ℕ)
    → n < int64_bound
    → add64 (pos (n / plots_until_new_series)) (pos 1) ≡ pos (n / 1008 + 1)
unfolding add64
add64-quot n h = ground arith

sub64-high : (n : ℕ) → n < int64_bound → sub64 (pos (n + 1)) (pos 1) ≡ pos n
unfolding sub64
sub64-high n h = ground arith

-- Go's division takes the first hundred heights to series 1.
quot-sub64 :
    (n : ℕ)
    → n < int64_bound
    → quot_ℤ (sub64 (pos n) (pos 100)) plots_until_new_series ≡ pos ((n - 100) / 1008)
unfolding sub64
quot-sub64 n h = ground arith

-- For heights from 0 to the largest int64, a plotroot made for the plot of a height has the series that this height
-- asks for, and a user representation made on a tip of a height has one that is accepted at every
-- height from there up to 908 plots later.
pub check_series-new_representation :
    (now rand : ℤ) (key : Bytes) (for : Option Bytes) (m e : ℤ) (memo : Bytes) (height later : ℕ)
    → later ≤ 908
    → height + later < int64_bound
    → (check_representation_series
          (new_representation now rand none for m e (pos height) memo)
          (pos height)
        ≡ true)
      × (check_representation_series
            (new_representation now rand (some key) for m e (pos height) memo)
            (pos (height + later))
          ≡ true)
unfolding check_representation_series new_representation
check_series-new_representation now rand key for m e memo height later h b = (
  simp (add64-quot height (omega arith)) (ground arith),
  simp
      (
        add64-quot (height + later) b,
        sub64-high ((height + later) / 1008) (omega arith),
        quot-sub64 height (omega arith),
        add64-quot (height - 100) (omega arith),
      )
      (ground arith),
)

-- A maturity acts as an expiration does: a representation with a maturity may enter a plot at
-- exactly the heights at which one that expires at that height may.
pub is_mature-is_expired :
    (tx : Representation) (height : ℤ)
    → is_mature tx height ≡ not (is_expired (record tx { expires = tx.matures }) height)
unfolding is_mature is_expired
is_mature-is_expired tx height = ground arith
