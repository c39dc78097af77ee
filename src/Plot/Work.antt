-- ===== src/Plot/Work.antt =====
-- plot.go: the work of a thread.
use native.Mathlib.Decide.{dec_lt}
use plot_thread.Prelude.{
  ℕ, suc, refl, length, ◌⊎◌, inl, inr, ◌*◌, ◌+◌, ◌/◌, ◌^◌, ◌≡◌, ◌<◌, ◌≤◌, ok, panic, arith,
}
use plot_thread.Prelude.Bytes.{Bytes}
use plot_thread.Prelude.BigEndian.{big_endian, length-big_endian, from_big_endian-big_endian}
use plot_thread.Plot.{get_big_int, set_big_int, compute_plot_work, compute_thread_work}

-- A number that fits is stored and read back; one that does not stops the program.
pub get_big_int-set_big_int :
    (i : ℕ)
    → (i < 2 ^ 256 → (b : Bytes) × (set_big_int i ≡ ok b) × (get_big_int b ≡ i))
      × (2 ^ 256 ≤ i → set_big_int i ≡ panic)
unfolding set_big_int
get_big_int-set_big_int i = (
  λ h. (big_endian 32 i, ground arith, from_big_endian-big_endian 32 i (omega arith)),
  λ h. ground arith,
)

div-floor : (n d : ℕ) → (n / suc d * suc d ≤ n) × (n < (n / suc d + 1) * suc d)
div-floor n d = grind arith

-- The work of a target t: nothing for 0, and otherwise the whole part of 2 ^ 256 over t + 1, the
-- share of the IDs that meet it.
abbrev pub IsWork : ℕ → ℕ → Type 0
IsWork t w =
    ((t ≡ 0) × (w ≡ 0)) ⊎ ((0 < t) × (w * (t + 1) ≤ 2 ^ 256) × (2 ^ 256 < (w + 1) * (t + 1)))

compute_plot_work-IsWork : (target : Bytes) → IsWork (get_big_int target) (compute_plot_work target)
unfolding compute_plot_work
compute_plot_work-IsWork target = elim (dec_lt 0 (get_big_int target)) [
  | yes more ↦
      let (low, high) = div-floor (2 ^ 256) (get_big_int target) in
      let e : suc (get_big_int target) ≡ get_big_int target + 1 = omega arith in
      inr (ground (arith, more, rw e at low, rw e at high))
  | no none ↦ inl (ground (arith, none))
]

-- The work of a thread after a plot is that before it and the work of the plot's target, stored in 32
-- bytes where it is below 2 ^ 256, and a panic where it is not.
pub compute_thread_work-adds :
    (target thread_work : Bytes)
    → (w : ℕ) × (compute_plot_work target ≡ w)
      × IsWork (get_big_int target) w
      × (((b : Bytes) × (compute_thread_work target thread_work ≡ ok b)
            × (length b ≡ 32)
            × (get_big_int b ≡ get_big_int thread_work + w))
          ⊎ ((2 ^ 256 ≤ get_big_int thread_work + w)
              × (compute_thread_work target thread_work ≡ panic)))
unfolding compute_thread_work set_big_int
compute_thread_work-adds target thread_work =
    let w = compute_plot_work target in
    let sum = get_big_int thread_work + w in
    (
      w,
      refl,
      compute_plot_work-IsWork target,
      elim (dec_lt sum (2 ^ 256)) [
        | yes fits ↦ inl (
          big_endian 32 sum,
          ground (arith, fits),
          length-big_endian 32 sum,
          from_big_endian-big_endian 32 sum (omega (arith, fits)),
        )
        | no over ↦ inr (omega (arith, over), ground (arith, over))
      ],
    )
