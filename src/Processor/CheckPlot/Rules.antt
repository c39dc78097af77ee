-- ===== src/Processor/CheckPlot/Rules.antt =====
-- processor.go: what a plot that `checkPlot` accepts is.
use plot_thread.Prelude.{
  suc, ◌+◌, ◌≡◌, ◌≢◌, ◌≤◌, refl, Bool, true, false, none, some, List, [], ◌∷◌, length, All, ℤ, pos,
  ◌≤ℤ◌, add64, ok, bind-eq-ok, arith,
}
use plot_thread.Prelude.Bytes.{Bytes, bytes_eq_iff}
use plot_thread.Prelude.Assoc.{Assoc, lookup, insert, lookup-insert}
use plot_thread.Representation.{Representation, Crypto, id, is_plotroot}
use plot_thread.Representation.Check.{
  check_representation, IsSane, check_representation-IsSane, Within,
}
use plot_thread.Plot.{Plot, check_pow, compute_hash_list_root, get_big_int}
use plot_thread.Processor.Limits.{compute_max_representations_per_plot}
use plot_thread.Processor.CheckPlot.{
  max_future_seconds, refuse_plotroots, check_plotroot, check_others, collect_ids,
  check_representations, check_root, check_header, check_size, check_plot,
}

-- A list of which no two entries are the same.
abbrev pub Unique : List Bytes → Type 0
Unique [] = Unit
Unique (i ∷ is) = All (λ j. i ≢ j) is × Unique is

-- The representations are sane, and these are their IDs.
abbrev pub SaneWith : Crypto → List Representation → List Bytes → Type 0
SaneWith c [] [] = Unit
SaneWith c [] (i ∷ is) = ⊥
SaneWith c (tx ∷ txs) [] = ⊥
SaneWith c (tx ∷ txs) (i ∷ is) = (id c tx ≡ ok i) × IsSane tx × SaneWith c txs is

length-insert :
    (k : Bytes) (v : Bool) (m : Assoc Bool)
    → length (insert k v m) ≡ elim (lookup k m) [ none ↦ suc (length m) | some _ ↦ length m ]
unfolding insert lookup
length-insert k v [] = refl
length-insert k v ((j, w) ∷ m) = ground (arith, length-insert k v m)

abbrev Missing : Assoc Bool → List Bytes → Type 0
Missing m = All (λ j. lookup j m ≡ none)

Missing-insert :
    (k : Bytes) (m : Assoc Bool) (is : List Bytes)
    → Missing (insert k true m) is
    → All (λ j. k ≢ j) is × Missing m is
Missing-insert k m [] h = (tt, tt)
Missing-insert k m (i ∷ is) h =
    ground (arith, lookup-insert i k true m, bytes_eq_iff k i, Missing-insert k m is h.1)

module _ (c : Crypto) where
  length-collect_ids :
      (txs : List Representation) (m m' : Assoc Bool)
      → collect_ids c txs m ≡ ok m'
      → length m' ≤ length m + length txs
  unfolding collect_ids
  length-collect_ids [] m m' e = ground arith
  length-collect_ids (tx ∷ txs) m m' e =
      let (tx_id, named, checked) = bind-eq-ok (id c tx) _ e in
      let (_, sane, rest) = bind-eq-ok (check_representation tx) _ checked in
      ground
        (arith, length-insert tx_id true m, length-collect_ids txs (insert tx_id true m) m' rest)

  -- As many IDs as representations: they are all different.
  collect_ids-SaneWith :
      (txs : List Representation) (m m' : Assoc Bool)
      → collect_ids c txs m ≡ ok m'
      → length m' ≡ length m + length txs
      → (is : List Bytes) × SaneWith c txs is × Unique is × Missing m is
  unfolding collect_ids
  collect_ids-SaneWith [] m m' e full = ([], tt, tt, tt)
  collect_ids-SaneWith (tx ∷ txs) m m' e full =
      let (tx_id, named, checked) = bind-eq-ok (id c tx) _ e in
      let (_, sane, rest) = bind-eq-ok (check_representation tx) _ checked in
      let bound = length-collect_ids txs (insert tx_id true m) m' rest in
      let new : lookup tx_id m ≡ none = ground (arith, length-insert tx_id true m, bound) in
      let (is, all, unique, missing) =
        collect_ids-SaneWith txs (insert tx_id true m) m' rest
          (ground (arith, length-insert tx_id true m, new)) in
      let (apart, absent) = Missing-insert tx_id m is missing in
      (
        tx_id ∷ is,
        (named, (check_representation-IsSane tx).0 (ground (arith, sane)), all),
        (apart, unique),
        (new, absent),
      )

-- The rules that a plot meets by itself.
abbrev pub HasPlotroot : List Representation → Type 0
HasPlotroot [] = ⊥
HasPlotroot (tx ∷ txs) = (is_plotroot tx ≡ true) × All (λ u. is_plotroot u ≡ false) txs

pub record IsWellFormed (c : Crypto) (plot_id : Bytes) (plot : Plot) (now : ℤ) : Type 0 where
  pub time : Within (pos 0) plot.header.time
  pub not_future : plot.header.time ≤ℤ add64 now max_future_seconds
  pub work : get_big_int plot_id ≤ get_big_int plot.header.target
  pub nonce : Within (pos 0) plot.header.nonce
  pub height : Within (pos 0) plot.header.height
  pub count : plot.header.representation_count ≡ pos (length plot.representations)
  pub plotroot : HasPlotroot plot.representations
  pub size :
      (max : ℤ) × (compute_max_representations_per_plot plot.header.height ≡ ok max)
      × (pos (length plot.representations) ≤ℤ max)
  pub ids : (is : List Bytes) × SaneWith c plot.representations is × Unique is
  pub root :
      (hasher : Bytes) × (compute_hash_list_root c [] plot.representations
        ≡ ok (plot.header.hash_list_root, hasher))

refuse_plotroots-All :
    (txs : List Representation)
    → refuse_plotroots txs ≡ ok tt
    → All (λ u. is_plotroot u ≡ false) txs
unfolding refuse_plotroots
refuse_plotroots-All [] h = tt
refuse_plotroots-All (tx ∷ txs) h = ground (arith, refuse_plotroots-All txs)

check_plotroots-HasPlotroot :
    (txs : List Representation)
    → check_plotroot txs ≡ ok tt
    → check_others txs ≡ ok tt
    → HasPlotroot txs
unfolding check_plotroot check_others
check_plotroots-HasPlotroot [] h k = cc
check_plotroots-HasPlotroot (tx ∷ txs) h k = ground (arith, refuse_plotroots-All txs k)

module _ (c : Crypto) where
  check_representations-SaneWith :
      (plot : Plot)
      → check_representations c plot ≡ ok tt
      → (is : List Bytes) × SaneWith c plot.representations is × Unique is
  unfolding check_representations
  check_representations-SaneWith plot h =
      let (m, collected, counted) = bind-eq-ok (collect_ids c plot.representations []) _ h in
      let (is, sane, unique, _) =
        collect_ids-SaneWith c plot.representations [] m collected (ground arith) in
      (is, sane, unique)

  check_header-rules :
      (plot_id : Bytes) (plot : Plot) (now : ℤ)
      → check_header c plot_id plot now ≡ ok tt
      → Within (pos 0) plot.header.time
        × (plot.header.time ≤ℤ add64 now max_future_seconds)
        × (get_big_int plot_id ≤ get_big_int plot.header.target)
        × Within (pos 0) plot.header.nonce
        × Within (pos 0) plot.header.height
        × (plot.header.representation_count ≡ pos (length plot.representations))
  unfolding check_header check_pow
  check_header-rules plot_id plot now h = ground arith

  check_size-rule :
      (plot : Plot)
      → check_size c plot ≡ ok tt
      → (max : ℤ) × (compute_max_representations_per_plot plot.header.height ≡ ok max)
        × (pos (length plot.representations) ≤ℤ max)
  unfolding check_size
  check_size-rule plot h =
      let (max, found, rest) =
        bind-eq-ok (compute_max_representations_per_plot plot.header.height) _ h in
      (max, found, ground arith)

  check_root-rule :
      (plot : Plot)
      → check_root c plot ≡ ok tt
      → (hasher : Bytes) × (compute_hash_list_root c [] plot.representations
          ≡ ok (plot.header.hash_list_root, hasher))
  unfolding check_root
  check_root-rule plot h =
      let (r, found, rest) = bind-eq-ok (compute_hash_list_root c [] plot.representations) _ h in
      (r.1, ground (arith, found, bytes_eq_iff r.0 plot.header.hash_list_root))

  -- A plot that `checkPlot` accepts meets every rule.
  pub check_plot-IsWellFormed :
      (plot_id : Bytes) (plot : Plot) (now : ℤ)
      → check_plot c plot_id plot now ≡ ok tt
      → IsWellFormed c plot_id plot now
  unfolding check_plot
  check_plot-IsWellFormed plot_id plot now h =
      let (_, header, h₁) = bind-eq-ok (check_header c plot_id plot now) _ h in
      let (_, first, h₂) = bind-eq-ok (check_plotroot plot.representations) _ h₁ in
      let (_, small, h₃) = bind-eq-ok (check_size c plot) _ h₂ in
      let (_, others, h₄) = bind-eq-ok (check_others plot.representations) _ h₃ in
      let (_, all, root) = bind-eq-ok (check_representations c plot) _ h₄ in
      let (time, not_future, work, nonce, height, count) =
        check_header-rules plot_id plot now header in
      record {
        time = time;
        not_future = not_future;
        work = work;
        nonce = nonce;
        height = height;
        count = count;
        plotroot = check_plotroots-HasPlotroot plot.representations first others;
        size = check_size-rule plot small;
        ids = check_representations-SaneWith plot all;
        root = check_root-rule plot root;
      }
