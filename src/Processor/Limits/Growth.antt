-- ===== src/Processor/Limits/Growth.antt =====
-- processor.go: the limit on representations grows with the height, up to the largest int32.
use plot_thread.Prelude.{
  ℕ, zero, suc, ◌+◌, ◌-◌, ◌*◌, ◌/◌, ◌%◌, ◌^◌, ◌≡◌, ◌≤◌, ◌<◌, ◌≤ℤ◌, ◌<ℤ◌, ◌⊎◌, inl, inr, refl, ℤ,
  pos, negsuc, add64, ok, arith, subst, ltb, if◌then◌else◌,
}
use native.Mathlib.Nat.{pow-suc, add-zero}
use native.Mathlib.Decide.{dec_lt, dec_le}
use plot_thread.Processor.Limits.{compute_max_representations_per_plot}

-- The limit as a number, for a height that is not negative.
limit : ℕ → ℕ
limit h = 10000 * 2 ^ (h / 105000) + 10000 * 2 ^ (h / 105000) * (h % 105000) / 105000

pow_mono : (d k : ℕ) → d ≤ k → 2 ^ d ≤ 2 ^ k
pow_mono d zero h = let e : d ≡ 0 = omega arith in rw e (omega arith)
pow_mono d (suc k) h = elim (dec_le d k) [
  | yes le ↦ omega (arith, pow-suc 2 k, pow_mono d k le)
  | no more ↦ let e : d ≡ suc k = omega arith in rw e (omega arith)
]

share-le : (f r : ℕ) → r < 105000 → f * r / 105000 ≤ f
share-le f r h = grind arith

share_mono : (f r s : ℕ) → r ≤ s → f * r / 105000 ≤ f * s / 105000
share_mono f r s h = grind arith

limit_step : (h : ℕ) → limit h ≤ limit (h + 1)
unfolding limit
limit_step h = elim (dec_lt (h % 105000) 104999) [
  | yes within ↦
      let same : (h + 1) / 105000 ≡ h / 105000 = omega arith in
      let next : (h + 1) % 105000 ≡ h % 105000 + 1 = omega arith in
      rw (same, next)
        (omega (arith, share_mono (10000 * 2 ^ (h / 105000)) (h % 105000) (h % 105000 + 1)))
  | no last ↦
      let next : (h + 1) / 105000 ≡ suc (h / 105000) = omega arith in
      let start : (h + 1) % 105000 ≡ 0 = omega arith in
      rw (next, start)
        (omega (
          arith,
          pow-suc 2 (h / 105000),
          share-le (10000 * 2 ^ (h / 105000)) (h % 105000) (omega arith),
        ))
]

limit_mono : (h k : ℕ) → limit h ≤ limit (h + k)
limit_mono h zero = rw add-zero (omega arith)
limit_mono h (suc k) =
    let e : h + suc k ≡ h + k + 1 = omega arith in
    rw e (omega (arith, limit_mono h k, limit_step (h + k)))

limit-last : limit 1852031 ≤ 2147483647
unfolding limit
limit-last = omega arith

limit_bound : (h : ℕ) → h < 1852032 → limit h ≤ 2147483647
limit_bound h lt =
    let e : h + (1852031 - h) ≡ 1852031 = omega arith in
    let grown : limit h ≤ limit 1852031 =
      subst (λ n. limit h ≤ limit n) e (limit_mono h (1852031 - h)) in
    omega (arith, limit-last, grown)

compute-limit :
    (h : ℕ) → h < 1852032 → compute_max_representations_per_plot (pos h) ≡ ok (pos (limit h))
unfolding compute_max_representations_per_plot limit add64
compute-limit h lt = ground (arith, limit_bound h lt)

-- The limit at every height.
capped : ℕ → ℕ
capped h = if ltb h 1852032 then limit h else 2147483647

compute-capped : (h : ℕ) → compute_max_representations_per_plot (pos h) ≡ ok (pos (capped h))
unfolding capped
compute-capped h = elim (dec_lt h 1852032) [
  | yes below ↦ ground (arith, compute-limit h below)
  | no above ↦ unfold compute_max_representations_per_plot in ground arith
]

limit-initial : limit 0 ≡ 10000
unfolding limit
limit-initial = refl

capped_bounds :
    (h k : ℕ) → (10000 ≤ capped h) × (capped h ≤ capped (h + k)) × (capped (h + k) ≤ 2147483647)
unfolding capped
capped_bounds h k =
    let low : limit 0 ≤ limit h = subst (λ n. limit 0 ≤ limit n) add_zero' (limit_mono 0 h) in
    ground (arith, low, limit-initial, limit_mono h k, limit_bound h, limit_bound (h + k))
  where
    add_zero' : 0 + h ≡ h
    add_zero' = omega arith

-- Go's division truncates: just below 0 the initial limit is interpolated downwards, and a negative
-- number of doublings shifts the factor out.
below_zero : ℕ → ℕ
below_zero i = if ltb (suc i) 105000 then 10000 - 10000 * suc i / 105000 else 0

compute-below_zero :
    (i : ℕ) → compute_max_representations_per_plot (negsuc i) ≡ ok (pos (below_zero i))
unfolding compute_max_representations_per_plot below_zero add64
compute-below_zero i = ground arith

below_zero_mono : (i j : ℕ) → i ≤ j → below_zero j ≤ below_zero i
unfolding below_zero
below_zero_mono i j h = ground (arith, share_mono 10000 (suc i) (suc j) (omega (arith, h)))

below_zero-le : (i : ℕ) → below_zero i ≤ 10000
unfolding below_zero
below_zero-le i = ground arith

value : ℤ → ℕ
value (pos h) = capped h
value (negsuc i) = below_zero i

compute-value : (h : ℤ) → compute_max_representations_per_plot h ≡ ok (pos (value h))
unfolding value
compute-value (pos h) = compute-capped h
compute-value (negsuc i) = compute-below_zero i

capped_mono : (h k : ℕ) → h ≤ k → capped h ≤ capped k
capped_mono h k le =
    let e : h + (k - h) ≡ k = omega arith in
    subst (λ n. capped h ≤ capped n) e (capped_bounds h (k - h)).1

value_mono : (h k : ℤ) → h ≤ℤ k → value h ≤ value k
unfolding value
value_mono (pos h) (pos k) le = capped_mono h k (omega arith)
value_mono (pos h) (negsuc k) le = absurd (omega arith)
value_mono (negsuc h) (pos k) le = omega (arith, below_zero-le h, (capped_bounds k 0).0)
value_mono (negsuc h) (negsuc k) le = below_zero_mono k h (omega arith)

value-le : (h : ℤ) → value h ≤ 2147483647
unfolding value
value-le (pos h) = omega (arith, (capped_bounds h 0).1, (capped_bounds h 0).2)
value-le (negsuc i) = omega (arith, below_zero-le i)

value-initial : (h : ℤ) → (h <ℤ pos 0) ⊎ (10000 ≤ value h)
unfolding value
value-initial (pos h) = inr (capped_bounds h 0).0
value-initial (negsuc i) = inl (omega arith)

-- At every height, negative ones included, the limit is computed without a panic, lies between 0 and
-- the largest int32, and is never greater than at a greater height; from height 0 on it is at least
-- the initial limit.
pub compute_max-grows :
    (h k : ℤ)
    → h ≤ℤ k
    → (m : ℕ) × (n : ℕ) × (compute_max_representations_per_plot h ≡ ok (pos m))
      × (compute_max_representations_per_plot k ≡ ok (pos n))
      × (m ≤ n)
      × (n ≤ 2147483647)
      × ((h <ℤ pos 0) ⊎ (10000 ≤ m))
compute_max-grows h k le = (
  value h,
  value k,
  compute-value h,
  compute-value k,
  value_mono h k le,
  value-le k,
  value-initial h,
)
