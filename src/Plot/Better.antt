-- ===== src/Plot/Better.antt =====
-- plot.go: `Compare` is a strict order, so that peers settle on one thread.
use plot_thread.Prelude.{◌≡◌, ◌≢◌, ◌⊎◌, true, false, ℤ, Result, ok, arith}
use plot_thread.Prelude.Bytes.{Bytes}
use plot_thread.Representation.{Crypto}
use plot_thread.Plot.{PlotHeader, get_big_int, header_id, lesser_id, compare}

module _ (c : Crypto) (marshal_header : PlotHeader → Result Bytes) where
  -- Of two headers at most one is better than the other.
  pub compare-asymmetric :
      (a b : PlotHeader) (s t : ℤ)
      → compare c marshal_header a b s t ≡ ok true
      → compare c marshal_header b a t s ≡ ok false
  unfolding compare lesser_id
  compare-asymmetric a b s t h = ground arith

  lesser_id_trans :
      (x y z : PlotHeader)
      → lesser_id c marshal_header x y ≡ ok true
      → lesser_id c marshal_header y z ≡ ok true
      → lesser_id c marshal_header x z ≡ ok true
  unfolding lesser_id
  lesser_id_trans x y z h k = ground arith

  -- What is better than a better header is better itself.
  pub compare_trans :
      (x y z : PlotHeader) (r s t : ℤ)
      → compare c marshal_header x y r s ≡ ok true
      → compare c marshal_header y z s t ≡ ok true
      → compare c marshal_header x z r t ≡ ok true
  unfolding compare
  compare_trans x y z r s t h k = ground (arith, lesser_id_trans x y z)

  -- Of two headers whose IDs are different numbers, one is better than the other, whatever their
  -- work and storage times.
  pub compare_total :
      (a b : PlotHeader) (s t : ℤ) (i j : Bytes)
      → header_id c marshal_header a ≡ ok i
      → header_id c marshal_header b ≡ ok j
      → get_big_int i ≢ get_big_int j
      → (compare c marshal_header a b s t ≡ ok true) ⊎ (compare c marshal_header b a t s ≡ ok true)
  unfolding compare lesser_id
  compare_total a b s t i j hi hj ne = ground arith
