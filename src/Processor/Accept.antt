-- ===== src/Processor/Accept.antt =====
-- processor.go: `processPlot` and `acceptPlot`. The clock is an argument.
use plot_thread.Prelude.{
  ℕ, false, not, ◌&&◌, ◌==◌, Option, some, List, [], ◌∷◌, if◌then◌else◌, ℤ, pos, leb_ℤ, eqb_ℤ,
  add64, Result, ok, err, panic, bind, Action, pure, fail, lift, refuse, Error,
}
use plot_thread.Prelude.Stateful.{◌>>=◌, ◌>>◌, branch}
use plot_thread.Prelude.Bytes.{Bytes, bytes_eq}
use plot_thread.Representation.{
  Representation, Crypto, id, verify, is_plotroot, is_mature, is_expired,
}
use plot_thread.Representation.Check.{check_representation_series}
use plot_thread.RepresentationQueue.{RepresentationQueue, exists_signed}
use plot_thread.Plot.{Plot, PlotHeader, compute_thread_work}
use plot_thread.LedgerDisk.Queries.{main, side, unknown}
use plot_thread.Processor.Target.{deref, compute_target}
use plot_thread.Processor.CheckPlot.{check_plot}
use plot_thread.Processor.State.{Processor, PlotStorage, Ledger, query, write_disk}
use plot_thread.Processor.Tips.{connect_plot}
use plot_thread.Processor.Median.{compute_median_timestamp}
use plot_thread.Processor.Reorganize.{accept_plot_continue, reconnect_tip}

module _ (c : Crypto) where
  -- The rules for a representation of a plot of the given height. Only what is not in the queue
  -- with the same signature is verified.
  unfoldable pub check_confirmable : RepresentationQueue → ℤ → Representation → Result (Unit {0})
  check_confirmable queue height tx = bind (id c tx) (λ tx_id.
      bind (refuse (not (check_representation_series tx height)) Error.series_not_current) (λ _.
        if is_plotroot tx
        then ok tt
        else bind (refuse (not (is_mature tx height)) Error.not_mature) (λ _.
          bind (refuse (is_expired tx height) Error.is_expired) (λ _.
            if exists_signed queue tx_id tx.signature
            then ok tt
            else bind (verify c tx)
                (λ verified. refuse (not verified) Error.verification_failed)))))

  unfoldable pub check_all_confirmable :
      RepresentationQueue → ℤ → List Representation → Result (Unit {0})
  check_all_confirmable queue height [] = ok tt
  check_all_confirmable queue height (tx ∷ txs) =
      bind (check_confirmable queue height tx) (λ _. check_all_confirmable queue height txs)

-- The error of a call whose failure was dealt with; what went wrong there is logged only.
unfoldable pub still_failed : {S : Type 0} → Error → Result (Unit {0}) × S → Result (Unit {0}) × S
still_failed e (ok u, s) = (err e, s)
still_failed e (err e', s) = (err e, s)
still_failed e (panic, s) = (panic, s)

-- `if err := m; err != nil { k; return err }`
unfoldable pub recover :
    {S : Type 0} → Action S (Unit {0}) → Result (Unit {0}) × S → Result (Unit {0}) × S
recover k (ok u, s) = (ok u, s)
recover k (err e, s) = still_failed e (k s)
recover k (panic, s) = (panic, s)

module _ (c : Crypto) (marshal_header : PlotHeader → Result Bytes) {W F : Type 0}
    (plot_store : PlotStorage W) (ledger : Ledger W F) (fuel : ℕ) where
  open plot_store use {store, get_plot_header}

  -- The checks of a plot against its parent.
  unfoldable pub check_header_after : W → Plot → PlotHeader → Result (Unit {0})
  check_header_after w plot prev =
      bind (compute_target (get_plot_header w) (ledger.get_plot_id_for_height w) prev) (λ target.
        bind (refuse (not (bytes_eq plot.header.target target)) Error.incorrect_target) (λ _.
          bind (compute_thread_work plot.header.target prev.thread_work) (λ thread_work.
            bind
              (refuse (not (bytes_eq plot.header.thread_work thread_work))
                Error.incorrect_thread_work)
              (λ _. bind (compute_median_timestamp (get_plot_header w) prev) (λ median_timestamp.
                refuse (leb_ℤ plot.header.time median_timestamp) Error.time_too_early)))))

  unfoldable pub reconnect : Option (Bytes × ℤ) → Bytes → Action (Processor W F) (Unit {0})
  reconnect tip source = do
    (tip_id, _) ← lift (deref tip)
    reconnect_tip c marshal_header plot_store ledger fuel tip_id source

  unfoldable pub store_and_continue :
      Bytes → Plot → ℤ → PlotHeader → Bytes → Action (Processor W F) (Unit {0})
  store_and_continue plot_id plot now prev source = do
    write_disk (store plot_id plot now)
    tip ← query ledger.get_thread_tip
    λ p. recover (reconnect tip source) (
        accept_plot_continue c marshal_header plot_store ledger fuel plot_id plot now (some prev)
          source p)

  -- A plot that was not processed before, on its parent.
  unfoldable pub accept_new :
      Bytes → Plot → ℤ → PlotHeader → Bytes → Action (Processor W F) (Unit {0})
  accept_new plot_id plot now prev source = do
    query (λ w. check_header_after w plot prev)
    λ p. (check_all_confirmable c p.queue plot.header.height plot.representations, p)
    store_and_continue plot_id plot now prev source

  unfoldable pub accept_plot : Bytes → Plot → ℤ → Bytes → Action (Processor W F) (Unit {0})
  accept_plot plot_id plot now source = do
    found ← query (λ w. get_plot_header w plot.header.previous)
    (prev, _) ← lift (deref found)
    lift (
        refuse (not (eqb_ℤ plot.header.height (add64 prev.height (pos 1)))) Error.unexpected_height)
    branch_type ← query (ledger.get_branch_type plot_id)
    branch (not (branch_type == unknown)) (pure tt) (accept_new plot_id plot now prev source)

  unfoldable pub begin_ledger : Bytes → Plot → ℤ → Bytes → Action (Processor W F) (Unit {0})
  begin_ledger plot_id plot now source = do
    write_disk (store plot_id plot now)
    connect_plot c ledger plot_id plot source false

  -- By the branch type of the parent: only the genesis plot has none.
  unfoldable pub place : ℕ → Bytes → Bytes → Plot → ℤ → Bytes → Action (Processor W F) (Unit {0})
  place parent_type genesis_id plot_id plot now source =
      branch (not (parent_type == main) && not (parent_type == side))
        (branch (bytes_eq plot_id genesis_id) (begin_ledger plot_id plot now source)
          (fail Error.orphan))
        (accept_plot plot_id plot now source)

  unfoldable pub process_new : Bytes → Bytes → Plot → ℤ → Bytes → Action (Processor W F) (Unit {0})
  process_new genesis_id plot_id plot now source = do
    lift (check_plot c plot_id plot now)
    parent_type ← query (ledger.get_branch_type plot.header.previous)
    place parent_type genesis_id plot_id plot now source

  unfoldable pub process_plot : Bytes → Bytes → Plot → ℤ → Bytes → Action (Processor W F) (Unit {0})
  process_plot genesis_id plot_id plot now source = do
    branch_type ← query (ledger.get_branch_type plot_id)
    branch (not (branch_type == unknown)) (pure tt) (process_new genesis_id plot_id plot now source)
