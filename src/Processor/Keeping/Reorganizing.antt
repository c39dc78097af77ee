-- ===== src/Processor/Keeping/Reorganizing.antt =====
-- processor.go: what each call keeps, `acceptPlotContinue` and `reconnectTip` keep.
use plot_thread.Prelude.{
  ℕ, ◌≡◌, Bool, true, false, not, Option, none, some, List, [], ◌∷◌, ℤ, Result, ok, Action, pure,
  continue, Error, some_or, arith,
}
use plot_thread.Prelude.Stateful.{continue-keeps, continue-keeps_from, branch-keeps}
use plot_thread.Prelude.Bytes.{Bytes, bytes_eq}
use plot_thread.Representation.{Crypto}
use plot_thread.Plot.{Plot, PlotHeader, compare}
use plot_thread.LedgerDisk.Queries.{side}
use plot_thread.Processor.Target.{deref}
use plot_thread.Processor.State.{Processor, PlotStorage, Ledger, write_disk}
use plot_thread.Processor.Tips.{connect_plot, disconnect_plot, get_thread_tip_header}
use plot_thread.Processor.Reorganize.{
  find_ways, connect_all, disconnect_all, reorganize, adopt_if, compare_with_tip,
  accept_plot_continue, reconnect_tip,
}
use plot_thread.Processor.Laws.{IsSized}
use plot_thread.Processor.Calls.{write_disk-keeps}
use plot_thread.Processor.Keeping.{Keeps, IsGood, connect_plot-keeps, disconnect_plot-keeps}

module _ (c : Crypto) (marshal_header : PlotHeader → Result Bytes) {W F : Type 0}
    (plot_store : PlotStorage W) (ledger : Ledger W F) (fuel : ℕ) (Q : W → Type 0)
    (keeps : Keeps c plot_store ledger Q) where
  abbrev pub Good : Processor W F → Type 0
  Good = IsGood c plot_store ledger Q keeps

  found_plot-keeps :
      (plot_id : Bytes) (found : Option Plot) (p : Processor W F)
      (f : Plot → Action (Processor W F) (Unit {0}))
      → plot_store.get_plot plot_id p.disk ≡ ok found
      → Good p
      → ((plot : Plot) → IsSized plot_id plot → Good (f plot p).1)
      → Good (continue (deref found, p) f).1
  unfolding deref
  found_plot-keeps plot_id none p f e good keep = good
  found_plot-keeps plot_id (some plot) p f e good keep =
      keep plot (keeps.stored_sized plot_id plot p.disk good.0 e)

  -- A plot that is read from storage, and is there, is sized.
  read_plot-keeps :
      (plot_id : Bytes) (p : Processor W F) (f : Plot → Action (Processor W F) (Unit {0}))
      → Good p
      → ((plot : Plot) → IsSized plot_id plot → Good (f plot p).1)
      → Good
          (continue
            (plot_store.get_plot plot_id p.disk, p)
            (λ found q. continue (deref found, q) f)).1
  read_plot-keeps plot_id p f good keep =
      continue-keeps_from Good (plot_store.get_plot plot_id p.disk, p) _ good
        (λ found q e.
          let same : p ≡ q = ground arith in
          rw (← same) (found_plot-keeps plot_id found p f (ground arith) good keep))

  pub disconnect_all-keeps :
      (source : Bytes) (plot_ids : List Bytes) (p : Processor W F)
      → Good p
      → Good (disconnect_all c marshal_header plot_store ledger fuel source plot_ids p).1
  unfolding disconnect_all
  disconnect_all-keeps source [] p good = good
  disconnect_all-keeps source (plot_id ∷ plot_ids) p good =
      read_plot-keeps plot_id p _ good (λ plot sized.
        continue-keeps Good (disconnect_plot c ledger plot_id plot source p) _
          (disconnect_plot-keeps c plot_store ledger Q keeps plot_id plot source p sized good)
          (λ _ q good'. disconnect_all-keeps source plot_ids q good'))

  pub connect_all-keeps :
      (source : Bytes) (plot_ids : List Bytes) (p : Processor W F)
      → Good p
      → Good (connect_all c marshal_header plot_store ledger fuel source plot_ids p).1
  unfolding connect_all
  connect_all-keeps source [] p good = good
  connect_all-keeps source (plot_id ∷ plot_ids) p good =
      read_plot-keeps plot_id p _ good (λ plot sized.
        continue-keeps Good (connect_plot c ledger plot_id plot source true p) _
          (connect_plot-keeps c plot_store ledger Q keeps plot_id plot source true p sized good)
          (λ _ q good'. connect_all-keeps source plot_ids q good'))

  reorganize-keeps :
      (plot_id : Bytes) (plot : Plot) (tip_id : Bytes) (tip_header : PlotHeader)
      (prev_header : Option PlotHeader) (source : Bytes) (p : Processor W F)
      → IsSized plot_id plot
      → Good p
      → Good
          (reorganize c marshal_header plot_store ledger fuel plot_id plot tip_id tip_header
            prev_header source p).1
  unfolding reorganize
  reorganize-keeps plot_id plot tip_id tip_header prev_header source p sized good =
      continue-keeps Good (deref prev_header, p) _ good
        (λ prev q good₁.
          continue-keeps Good
            (
              find_ways (plot_store.get_plot_header q.disk) fuel tip_id tip_header
                  plot.header.previous prev,
              q,
            )
            _ good₁
            (λ ways r good₂.
              continue-keeps Good
                (disconnect_all c marshal_header plot_store ledger fuel source ways.0 r) _
                (disconnect_all-keeps source ways.0 r good₂)
                (λ _ s good₃.
                  continue-keeps Good
                    (connect_all c marshal_header plot_store ledger fuel source ways.1 s) _
                    (connect_all-keeps source ways.1 s good₃)
                    (λ _ t good₄.
                      connect_plot-keeps c plot_store ledger Q keeps plot_id plot source false t
                        sized good₄))))

  adopt_if-keeps :
      (better : Bool) (plot_id : Bytes) (plot : Plot) (tip_id : Bytes) (tip_header : PlotHeader)
      (prev_header : Option PlotHeader) (source : Bytes) (p : Processor W F)
      → IsSized plot_id plot
      → Good p
      → Good
          (adopt_if c marshal_header plot_store ledger fuel better plot_id plot tip_id tip_header
            prev_header source p).1
  unfolding adopt_if
  adopt_if-keeps better plot_id plot tip_id tip_header prev_header source p sized good =
      branch-keeps Good (not better) (write_disk (ledger.set_branch_type plot_id side))
        (reorganize c marshal_header plot_store ledger fuel plot_id plot tip_id tip_header
          prev_header source)
        p
        (write_disk-keeps Good (ledger.set_branch_type plot_id side) p good
          (λ w e. (keeps.set_branch_type_keeps plot_id side p.disk w good.0 e, good.1)))
        (reorganize-keeps plot_id plot tip_id tip_header prev_header source p sized good)

  compare_with_tip-keeps :
      (plot_id : Bytes) (plot : Plot) (plot_when : ℤ) (prev_header : Option PlotHeader)
      (source : Bytes) (tip : Bytes × Option (PlotHeader × ℤ)) (p : Processor W F)
      → IsSized plot_id plot
      → Good p
      → Good
          (compare_with_tip c marshal_header plot_store ledger fuel plot_id plot plot_when
            prev_header source tip p).1
  unfolding compare_with_tip
  compare_with_tip-keeps plot_id plot plot_when prev_header source tip p sized good =
      continue-keeps Good (deref tip.1, p) _ good
        (λ tip_header q good₁.
          continue-keeps Good
            (compare c marshal_header plot.header tip_header.0 plot_when tip_header.1, q) _ good₁
            (λ better r good₂.
              adopt_if-keeps better plot_id plot tip.0 tip_header.0 prev_header source r sized
                good₂))

  pub accept_plot_continue-keeps :
      (plot_id : Bytes) (plot : Plot) (plot_when : ℤ) (prev_header : Option PlotHeader)
      (source : Bytes) (p : Processor W F)
      → IsSized plot_id plot
      → Good p
      → Good
          (accept_plot_continue c marshal_header plot_store ledger fuel plot_id plot plot_when
            prev_header source p).1
  unfolding accept_plot_continue
  accept_plot_continue-keeps plot_id plot plot_when prev_header source p sized good =
      continue-keeps Good (get_thread_tip_header ledger plot_store p.disk, p) _ good
        (λ found q good₁.
          continue-keeps Good (deref found, q) _ good₁
            (λ tip r good₂.
              branch-keeps Good (bytes_eq plot_id tip.0) (pure tt)
                (compare_with_tip c marshal_header plot_store ledger fuel plot_id plot plot_when
                  prev_header source tip)
                r good₂
                (compare_with_tip-keeps plot_id plot plot_when prev_header source tip r sized
                  good₂)))

  pub reconnect_tip-keeps :
      (plot_id source : Bytes) (p : Processor W F)
      → Good p
      → Good (reconnect_tip c marshal_header plot_store ledger fuel plot_id source p).1
  unfolding reconnect_tip
  reconnect_tip-keeps plot_id source p good =
      continue-keeps_from Good (plot_store.get_plot plot_id p.disk, p) _ good
        (λ found q e.
          continue-keeps_from Good (some_or found Error.missing_plot, q) _ (ground (arith, good))
            (λ plot r e'.
              let here : p ≡ r = ground arith in
              let sized = keeps.stored_sized plot_id plot p.disk good.0 (ground arith) in
              let good₁ : Good r = rw (← here) good in
              continue-keeps Good (plot_store.get_plot_header r.disk plot_id, r) _ good₁
                (λ stored s good₂.
                  continue-keeps Good (plot_store.get_plot_header s.disk plot.header.previous, s) _
                    good₂
                    (λ prev t good₃.
                      accept_plot_continue-keeps plot_id plot _ _ source t sized good₃))))
