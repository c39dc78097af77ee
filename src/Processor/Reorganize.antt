-- ===== src/Processor/Reorganize.antt =====
-- processor.go: `acceptPlotContinue` and `reconnectTip`, which make a plot the tip if it ends the
-- better thread. The loops that look for the common ancestor take fuel.
use plot_thread.Prelude.{
  ℕ, zero, suc, Bool, true, false, not, ◌&&◌, Option, none, some, List, [], ◌∷◌, ◌++◌,
  if◌then◌else◌, ℤ, pos, ltb_ℤ, eqb_ℤ, Result, ok, err, bind, Action, pure, lift, Error, some_or,
}
use mathlib.Core.List.{reverse}
use plot_thread.Prelude.Stateful.{◌>>=◌, ◌>>◌, branch}
use plot_thread.Prelude.Bytes.{Bytes, bytes_eq}
use plot_thread.Representation.{Crypto}
use plot_thread.Plot.{Plot, PlotHeader, compare}
use plot_thread.LedgerDisk.Queries.{side}
use plot_thread.Processor.Target.{deref}
use plot_thread.Processor.State.{Processor, PlotStorage, Ledger, query, write_disk}
use plot_thread.Processor.Tips.{connect_plot, disconnect_plot, get_thread_tip_header}

-- `==` of headers.
unfoldable pub header_eq : PlotHeader → PlotHeader → Bool
header_eq a b =
    bytes_eq a.previous b.previous
    && bytes_eq a.hash_list_root b.hash_list_root
    && eqb_ℤ a.time b.time
    && bytes_eq a.target b.target
    && bytes_eq a.thread_work b.thread_work
    && eqb_ℤ a.nonce b.nonce
    && eqb_ℤ a.height b.height
    && eqb_ℤ a.representation_count b.representation_count

unfoldable pub lower : ℤ → ℤ → ℤ
lower a b = if ltb_ℤ b a then b else a

module _ (get_plot_header : Bytes → Result (Option (PlotHeader × ℤ))) where
  -- From a plot down to a height: the plots on the way, from the top, and where it ends.
  unfoldable pub walk_down : ℕ → ℤ → Bytes → PlotHeader → Result (List Bytes × Bytes × PlotHeader)
  walk_down zero min_height plot_id header = err Error.out_of_fuel
  walk_down (suc fuel) min_height plot_id header = elim (ltb_ℤ min_height header.height) [
    | false ↦ ok ([], plot_id, header)
    | true ↦ bind (get_plot_header header.previous) (λ found. bind (deref found) (λ previous.
        bind (walk_down fuel min_height header.previous previous.0)
          (λ way. ok (plot_id ∷ way.0, way.1, way.2))))
  ]

  -- Down both threads at once until the headers are the same: the plots to disconnect, from the
  -- top, and the plots to connect, from the bottom.
  unfoldable pub scan_both :
      ℕ → Bytes → PlotHeader → Bytes → PlotHeader → Result (List Bytes × List Bytes)
  scan_both zero tip_id tip new_id new = err Error.out_of_fuel
  scan_both (suc fuel) tip_id tip new_id new = elim (header_eq new tip) [
    | true ↦ ok ([], [])
    | false ↦ bind (get_plot_header tip.previous) (λ tip_found.
        bind (get_plot_header new.previous) (λ new_found. bind (deref tip_found) (λ tip'.
          bind (deref new_found) (λ new'.
            bind (scan_both fuel tip.previous tip'.0 new.previous new'.0)
              (λ ways. ok (tip_id ∷ ways.0, ways.1 ++ new_id ∷ []))))))
  ]

  -- What to disconnect and what to connect below a plot, from the tip and the plot's parent.
  unfoldable pub find_ways :
      ℕ → Bytes → PlotHeader → Bytes → PlotHeader → Result (List Bytes × List Bytes)
  find_ways fuel tip_id tip new_id new =
      bind (walk_down fuel (lower tip.height new.height) tip_id tip) (λ down.
        bind (walk_down fuel (lower tip.height new.height) new_id new) (λ up.
          bind (scan_both fuel down.1 down.2 up.1 up.2)
            (λ ways. ok (down.0 ++ ways.0, ways.1 ++ reverse up.0))))

module _ (c : Crypto) (marshal_header : PlotHeader → Result Bytes) {W F : Type 0}
    (plot_store : PlotStorage W) (ledger : Ledger W F) (fuel : ℕ) where
  open plot_store use {get_plot, get_plot_header}

  -- A plot that is not stored stops the program, in the source after the ledger's tip was read.
  unfoldable pub disconnect_all : Bytes → List Bytes → Action (Processor W F) (Unit {0})
  disconnect_all source [] = pure tt
  disconnect_all source (plot_id ∷ plot_ids) = do
    found ← query (get_plot plot_id)
    plot ← lift (deref found)
    disconnect_plot c ledger plot_id plot source
    disconnect_all source plot_ids

  unfoldable pub connect_all : Bytes → List Bytes → Action (Processor W F) (Unit {0})
  connect_all source [] = pure tt
  connect_all source (plot_id ∷ plot_ids) = do
    found ← query (get_plot plot_id)
    plot ← lift (deref found)
    connect_plot c ledger plot_id plot source true
    connect_all source plot_ids

  -- The reorganisation to the thread that the plot ends.
  unfoldable pub reorganize :
      Bytes
      → Plot
      → Bytes
      → PlotHeader
      → Option PlotHeader
      → Bytes
      → Action (Processor W F) (Unit {0})
  reorganize plot_id plot tip_id tip_header prev_header source = do
    prev ← lift (deref prev_header)
    ways ←
        query (λ w. find_ways (get_plot_header w) fuel tip_id tip_header plot.header.previous prev)
    disconnect_all source ways.0
    connect_all source ways.1
    connect_plot c ledger plot_id plot source false

  -- The plot becomes the tip, or a plot of a side branch.
  unfoldable pub adopt_if :
      Bool
      → Bytes
      → Plot
      → Bytes
      → PlotHeader
      → Option PlotHeader
      → Bytes
      → Action (Processor W F) (Unit {0})
  adopt_if better plot_id plot tip_id tip_header prev_header source =
      branch (not better) (write_disk (ledger.set_branch_type plot_id side))
        (reorganize plot_id plot tip_id tip_header prev_header source)

  unfoldable pub compare_with_tip :
      Bytes
      → Plot
      → ℤ
      → Option PlotHeader
      → Bytes
      → Bytes × Option (PlotHeader × ℤ)
      → Action (Processor W F) (Unit {0})
  compare_with_tip plot_id plot plot_when prev_header source tip = do
    tip_header ← lift (deref tip.1)
    better ← lift (compare c marshal_header plot.header tip_header.0 plot_when tip_header.1)
    adopt_if better plot_id plot tip.0 tip_header.0 prev_header source

  unfoldable pub accept_plot_continue :
      Bytes → Plot → ℤ → Option PlotHeader → Bytes → Action (Processor W F) (Unit {0})
  accept_plot_continue plot_id plot plot_when prev_header source = do
    found ← query (get_thread_tip_header ledger plot_store)
    tip ← lift (deref found)
    branch (bytes_eq plot_id tip.0) (pure tt)
        (compare_with_tip plot_id plot plot_when prev_header source tip)

  unfoldable pub reconnect_tip : Bytes → Bytes → Action (Processor W F) (Unit {0})
  reconnect_tip plot_id source = do
    found ← query (get_plot plot_id)
    plot ← lift (some_or found Error.missing_plot)
    stored ← query (λ w. get_plot_header w plot_id)
    prev ← query (λ w. get_plot_header w plot.header.previous)
    accept_plot_continue plot_id plot (elim stored [ none ↦ pos 0 | some h ↦ h.1 ])
        (elim prev [ none ↦ none | some h ↦ some h.0 ]) source
