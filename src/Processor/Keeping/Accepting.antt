-- ===== src/Processor/Keeping/Accepting.antt =====
-- processor.go: what each call keeps, `processPlot` and `processRepresentation` keep.
use plot_thread.Prelude.{
  ℕ, false, not, ◌&&◌, ◌==◌, Option, some, ℤ, pos, add64, eqb_ℤ, Result, ok, err, panic, Action,
  pure, fail, refuse, Error,
}
use plot_thread.Prelude.Stateful.{continue-keeps, branch, branch-keeps}
use plot_thread.Prelude.Bytes.{Bytes, bytes_eq}
use plot_thread.Representation.{Crypto}
use plot_thread.Plot.{Plot, PlotHeader}
use plot_thread.LedgerDisk.Queries.{main, side, unknown}
use plot_thread.Processor.Target.{deref}
use plot_thread.Processor.CheckPlot.{check_plot}
use plot_thread.Processor.State.{Processor, PlotStorage, Ledger, write_disk}
use plot_thread.Processor.Reorganize.{accept_plot_continue}
use plot_thread.Processor.Accept.{
  check_header_after, check_all_confirmable, still_failed, recover, reconnect, store_and_continue,
  accept_new, accept_plot, begin_ledger, place, process_new, process_plot,
}
use plot_thread.Processor.Laws.{IsSized}
use plot_thread.Processor.Calls.{write_disk-keeps}
use plot_thread.Processor.Keeping.{Keeps, IsGood, connect_plot-keeps}
use plot_thread.Processor.Keeping.Reorganizing.{accept_plot_continue-keeps, reconnect_tip-keeps}

module _ {S : Type 0} where
  still_failed-keeps :
      (P : S → Type 0) (e : Error) (r : Result (Unit {0}) × S) → P r.1 → P (still_failed e r).1
  unfolding still_failed
  still_failed-keeps P e (ok u, s) h = h
  still_failed-keeps P e (err x, s) h = h
  still_failed-keeps P e (panic, s) h = h

  recover-keeps :
      (P : S → Type 0) (k : Action S (Unit {0})) (r : Result (Unit {0}) × S)
      → P r.1
      → ((s : S) → P s → P (k s).1)
      → P (recover k r).1
  unfolding recover
  recover-keeps P k (ok u, s) h keep = h
  recover-keeps P k (err e, s) h keep = still_failed-keeps P e (k s) (keep s h)
  recover-keeps P k (panic, s) h keep = h

module _ (c : Crypto) (marshal_header : PlotHeader → Result Bytes) {W F : Type 0}
    (plot_store : PlotStorage W) (ledger : Ledger W F) (fuel : ℕ) (Q : W → Type 0)
    (keeps : Keeps c plot_store ledger Q) where
  abbrev Good : Processor W F → Type 0
  Good = IsGood c plot_store ledger Q keeps

  reconnect-keeps :
      (tip : Option (Bytes × ℤ)) (source : Bytes) (p : Processor W F)
      → Good p
      → Good (reconnect c marshal_header plot_store ledger fuel tip source p).1
  unfolding reconnect
  reconnect-keeps tip source p good =
      continue-keeps Good (deref tip, p) _ good
        (λ found q good₁.
          reconnect_tip-keeps c marshal_header plot_store ledger fuel Q keeps found.0 source q
            good₁)

  stored-keeps :
      (plot_id : Bytes) (plot : Plot) (now : ℤ) (p : Processor W F)
      → IsSized plot_id plot
      → Good p
      → Good (write_disk (plot_store.store plot_id plot now) p).1
  stored-keeps plot_id plot now p sized good =
      write_disk-keeps Good (plot_store.store plot_id plot now) p good
        (λ w e. (keeps.store_keeps plot_id plot now p.disk w good.0 sized e, good.1))

  store_and_continue-keeps :
      (plot_id : Bytes) (plot : Plot) (now : ℤ) (prev : PlotHeader) (source : Bytes)
      (p : Processor W F)
      → IsSized plot_id plot
      → Good p
      → Good
          (store_and_continue c marshal_header plot_store ledger fuel plot_id plot now prev source
            p).1
  unfolding store_and_continue
  store_and_continue-keeps plot_id plot now prev source p sized good =
      continue-keeps Good (write_disk (plot_store.store plot_id plot now) p) _
        (stored-keeps plot_id plot now p sized good)
        (λ _ q good₁.
          continue-keeps Good (ledger.get_thread_tip q.disk, q) _ good₁
            (λ tip r good₂.
              recover-keeps Good (reconnect c marshal_header plot_store ledger fuel tip source)
                (accept_plot_continue c marshal_header plot_store ledger fuel plot_id plot now
                  (some prev) source r)
                (accept_plot_continue-keeps c marshal_header plot_store ledger fuel Q keeps plot_id
                  plot now (some prev) source r sized good₂)
                (λ s good₃. reconnect-keeps tip source s good₃)))

  accept_new-keeps :
      (plot_id : Bytes) (plot : Plot) (now : ℤ) (prev : PlotHeader) (source : Bytes)
      (p : Processor W F)
      → IsSized plot_id plot
      → Good p
      → Good (accept_new c marshal_header plot_store ledger fuel plot_id plot now prev source p).1
  unfolding accept_new
  accept_new-keeps plot_id plot now prev source p sized good =
      continue-keeps Good
        (check_header_after c marshal_header plot_store ledger fuel p.disk plot prev, p) _ good
        (λ _ q good₁.
          continue-keeps Good
            (check_all_confirmable c q.queue plot.header.height plot.representations, q) _ good₁
            (λ _ r good₂. store_and_continue-keeps plot_id plot now prev source r sized good₂))

  accept_plot-keeps :
      (plot_id : Bytes) (plot : Plot) (now : ℤ) (source : Bytes) (p : Processor W F)
      → IsSized plot_id plot
      → Good p
      → Good (accept_plot c marshal_header plot_store ledger fuel plot_id plot now source p).1
  unfolding accept_plot
  accept_plot-keeps plot_id plot now source p sized good =
      continue-keeps Good (plot_store.get_plot_header p.disk plot.header.previous, p) _ good
        (λ found q good₁.
          continue-keeps Good (deref found, q) _ good₁
            (λ prev r good₂.
              continue-keeps Good
                (
                  refuse (not (eqb_ℤ plot.header.height (add64 prev.0.height (pos 1))))
                      Error.unexpected_height,
                  r,
                )
                _ good₂
                (λ _ s good₃.
                  continue-keeps Good (ledger.get_branch_type plot_id s.disk, s) _ good₃
                    (λ branch_type t good₄.
                      branch-keeps Good (not (branch_type == unknown)) (pure tt)
                        (accept_new c marshal_header plot_store ledger fuel plot_id plot now prev.0
                          source)
                        t good₄ (accept_new-keeps plot_id plot now prev.0 source t sized good₄)))))

  begin_ledger-keeps :
      (plot_id : Bytes) (plot : Plot) (now : ℤ) (source : Bytes) (p : Processor W F)
      → IsSized plot_id plot
      → Good p
      → Good (begin_ledger c marshal_header plot_store ledger fuel plot_id plot now source p).1
  unfolding begin_ledger
  begin_ledger-keeps plot_id plot now source p sized good =
      continue-keeps Good (write_disk (plot_store.store plot_id plot now) p) _
        (stored-keeps plot_id plot now p sized good)
        (λ _ q good₁.
          connect_plot-keeps c plot_store ledger Q keeps plot_id plot source false q sized good₁)

  place-keeps :
      (parent_type : ℕ) (genesis_id plot_id : Bytes) (plot : Plot) (now : ℤ) (source : Bytes)
      (p : Processor W F)
      → IsSized plot_id plot
      → Good p
      → Good
          (place c marshal_header plot_store ledger fuel parent_type genesis_id plot_id plot now
            source p).1
  unfolding place
  place-keeps parent_type genesis_id plot_id plot now source p sized good =
      let begin = begin_ledger c marshal_header plot_store ledger fuel plot_id plot now source in
      branch-keeps Good (not (parent_type == main) && not (parent_type == side))
        (branch (bytes_eq plot_id genesis_id) begin (fail Error.orphan))
        (accept_plot c marshal_header plot_store ledger fuel plot_id plot now source) p
        (branch-keeps Good (bytes_eq plot_id genesis_id) begin (fail Error.orphan) p
          (begin_ledger-keeps plot_id plot now source p sized good) good)
        (accept_plot-keeps plot_id plot now source p sized good)

  process_new-keeps :
      (genesis_id plot_id : Bytes) (plot : Plot) (now : ℤ) (source : Bytes) (p : Processor W F)
      → IsSized plot_id plot
      → Good p
      → Good
          (process_new c marshal_header plot_store ledger fuel genesis_id plot_id plot now source
            p).1
  unfolding process_new
  process_new-keeps genesis_id plot_id plot now source p sized good =
      continue-keeps Good (check_plot c plot_id plot now, p) _ good
        (λ _ q good₁.
          continue-keeps Good (ledger.get_branch_type plot.header.previous q.disk, q) _ good₁
            (λ parent_type r good₂.
              place-keeps parent_type genesis_id plot_id plot now source r sized good₂))

  pub process_plot-keeps :
      (genesis_id plot_id : Bytes) (plot : Plot) (now : ℤ) (source : Bytes) (p : Processor W F)
      → IsSized plot_id plot
      → Good p
      → Good
          (process_plot c marshal_header plot_store ledger fuel genesis_id plot_id plot now source
            p).1
  unfolding process_plot
  process_plot-keeps genesis_id plot_id plot now source p sized good =
      continue-keeps Good (ledger.get_branch_type plot_id p.disk, p) _ good
        (λ branch_type q good₁.
          branch-keeps Good (not (branch_type == unknown)) (pure tt)
            (process_new c marshal_header plot_store ledger fuel genesis_id plot_id plot now source)
            q good₁ (process_new-keeps genesis_id plot_id plot now source q sized good₁))
