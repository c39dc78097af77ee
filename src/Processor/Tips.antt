-- ===== src/Processor/Tips.antt =====
-- processor.go: `connectPlot`, `disconnectPlot` and `getThreadTipHeader`, over the interfaces of the
-- ledger and of plot storage.
use plot_thread.Prelude.{
  Bool, true, false, Option, none, some, List, [], ◌∷◌, ℤ, pos, sub64, Result, ok, panic, bind,
  Action, lift,
}
use plot_thread.Prelude.Stateful.{◌>>=◌, ◌>>◌}
use plot_thread.Prelude.Bytes.{Bytes}
use plot_thread.Representation.{Crypto}
use plot_thread.RepresentationQueue.{add_batch, remove_batch}
use plot_thread.Plot.{Plot, PlotHeader}
use plot_thread.Processor.State.{
  Processor, PlotStorage, Ledger, tip_change, look, on_disk, on_queue, notify,
}

-- `xs[1:]`, which is out of range for an empty slice.
unfoldable pub tail_of : {A : Type 0} → List A → Result (List A)
tail_of [] = panic
tail_of (x ∷ xs) = ok xs

module _ (c : Crypto) {W F : Type 0} (ledger : Ledger W F) where
  -- `RemoveBatch` with the graph and the ledger as they are now.
  unfoldable pub remove_confirmed : List Bytes → ℤ → Bool → Action (Processor W F) (Unit {0})
  remove_confirmed tx_ids height more = do
    graph ← look
    λ p.
        on_queue (remove_batch c graph (ledger.get_public_key_imbalance p.disk) tx_ids height more)
          p

  unfoldable pub connect_plot : Bytes → Plot → Bytes → Bool → Action (Processor W F) (Unit {0})
  connect_plot plot_id plot source more = do
    graph ← look
    tx_ids ← on_disk (ledger.connect_plot graph plot_id plot)
    confirmed ← lift (tail_of tx_ids)
    remove_confirmed confirmed plot.header.height more
    notify (tip_change plot_id plot source true more)

  unfoldable pub disconnect_plot : Bytes → Plot → Bytes → Action (Processor W F) (Unit {0})
  disconnect_plot plot_id plot source = do
    tx_ids ← on_disk (ledger.disconnect_plot plot_id plot)
    ids ← lift (tail_of tx_ids)
    txs ← lift (tail_of plot.representations)
    on_queue (add_batch ids txs (sub64 plot.header.height (pos 1)))
    notify (tip_change plot_id plot source false false)

module _ {W F : Type 0} (ledger : Ledger W F) where
  -- No tip is `none`; the header of the tip may be missing.
  unfoldable pub get_thread_tip_header :
      PlotStorage W → W → Result (Option (Bytes × Option (PlotHeader × ℤ)))
  get_thread_tip_header plot_store w = bind (ledger.get_thread_tip w) (λ tip. elim tip [
    | none ↦ ok none
    | some (tip_id, _) ↦
        bind (plot_store.get_plot_header w tip_id) (λ found. ok (some (tip_id, found)))
  ])
