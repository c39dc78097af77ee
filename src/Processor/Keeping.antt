-- ===== src/Processor/Keeping.antt =====
-- processor.go: what the ledger and plot storage keep in each of their calls, the processor keeps,
-- together with the agreement of the queue's map and list.
pub mod Reorganizing
pub mod Accepting
use plot_thread.Prelude.{
  ℕ, ◌≡◌, refl, ap, Bool, true, false, not, ◌&&◌, ◌==◌, Option, none, some, List, [], ◌∷◌, map, ℤ,
  pos, sub64, add64, eqb_ℤ, Result, ok, err, panic, Result-cases, Action, lift, pure, continue,
  refuse, Error, arith, inl, inr,
}
use plot_thread.Prelude.Stateful.{continue-keeps, continue-keeps_from, branch, branch-keeps}
use plot_thread.Prelude.Bytes.{Bytes, bytes_eq}
use plot_thread.Graph.{Graph}
use plot_thread.Representation.{Representation, Crypto, id}
use plot_thread.RepresentationQueue.{RepresentationQueue, add_batch, remove_batch}
use plot_thread.RepresentationQueue.Valid.{IsValid, HaveIds, add_batch-IsValid}
use plot_thread.RepresentationQueue.Adding.{remove_batch-IsValid}
use plot_thread.Plot.{Plot, PlotHeader}
use plot_thread.Processor.State.{
  Processor, PlotStorage, Ledger, look, query, on_disk, write_disk, on_queue, notify, tip_change,
}
use plot_thread.Processor.Tips.{tail_of, remove_confirmed, connect_plot, disconnect_plot}
use plot_thread.Processor.Laws.{IsSized}
use plot_thread.Processor.Calls.{on_disk-keeps, write_disk-keeps, on_disk-eq-ok}

module _ (c : Crypto) {W F : Type 0} (plot_store : PlotStorage W) (ledger : Ledger W F)
    (Q : W → Type 0) where
  -- Every call of the ledger and of plot storage keeps Q, and returns the IDs of representations.
  pub record Keeps : Type 0 where
    pub stored_sized :
        (plot_id : Bytes) (plot : Plot) (w : W)
        → Q w
        → plot_store.get_plot plot_id w ≡ ok (some plot)
        → IsSized plot_id plot
    pub store_keeps :
        (plot_id : Bytes) (plot : Plot) (now : ℤ) (w w' : W)
        → Q w
        → IsSized plot_id plot
        → plot_store.store plot_id plot now w ≡ ok w'
        → Q w'
    pub set_branch_type_keeps :
        (plot_id : Bytes) (branch_type : ℕ) (w w' : W)
        → Q w
        → ledger.set_branch_type plot_id branch_type w ≡ ok w'
        → Q w'
    pub connect_keeps :
        (graph : Graph F) (plot_id : Bytes) (plot : Plot) (w w' : W) (tx_ids : List Bytes)
        → Q w
        → IsSized plot_id plot
        → ledger.connect_plot graph plot_id plot w ≡ ok (tx_ids, w')
        → Q w'
    pub disconnect_keeps :
        (plot_id : Bytes) (plot : Plot) (w w' : W) (tx_ids : List Bytes)
        → Q w
        → IsSized plot_id plot
        → ledger.disconnect_plot plot_id plot w ≡ ok (tx_ids, w')
        → Q w' × (map (id c) plot.representations ≡ map ok tx_ids)

map-HaveIds :
    (c : Crypto) (txs : List Representation) (ids : List Bytes)
    → map (id c) txs ≡ map ok ids
    → HaveIds c ids txs
map-HaveIds c [] ids e = tt
map-HaveIds c (tx ∷ txs) [] e = tt
map-HaveIds c (tx ∷ txs) (i ∷ ids) e = (ground arith, map-HaveIds c txs ids (ground arith))

-- The rest of the IDs goes with the rest of the representations.
HaveIds-tail_of :
    (c : Crypto) (txs txs' : List Representation) (ids ids' : List Bytes)
    → HaveIds c ids txs
    → tail_of ids ≡ ok ids'
    → tail_of txs ≡ ok txs'
    → HaveIds c ids' txs'
unfolding tail_of
HaveIds-tail_of c txs txs' [] ids' h e k = cc
HaveIds-tail_of c [] txs' (i ∷ ids) ids' h e k = cc
HaveIds-tail_of c (tx ∷ txs) txs' (i ∷ ids) ids' h e k =
    let same : ids ≡ ids' = ground arith in
    let same' : txs ≡ txs' = ground arith in rw (← same, ← same') h.1

module _ (c : Crypto) {W F : Type 0} (plot_store : PlotStorage W) (ledger : Ledger W F)
    (Q : W → Type 0) (keeps : Keeps c plot_store ledger Q) where
  -- What holds of the shared data, and of the queue.
  abbrev pub IsGood : Processor W F → Type 0
  IsGood p = Q p.disk × IsValid c p.queue

  remove_confirmed-keeps :
      (tx_ids : List Bytes) (height : ℤ) (more : Bool) (p : Processor W F)
      → IsGood p
      → IsGood (remove_confirmed c ledger tx_ids height more p).1
  unfolding remove_confirmed look
  remove_confirmed-keeps tx_ids height more p good = (
    good.0,
    remove_batch-IsValid c (p.graphs p.looks) (ledger.get_public_key_imbalance p.disk) tx_ids height
        more p.queue good.1,
  )

  pub connect_plot-keeps :
      (plot_id : Bytes) (plot : Plot) (source : Bytes) (more : Bool) (p : Processor W F)
      → IsSized plot_id plot
      → IsGood p
      → IsGood (connect_plot c ledger plot_id plot source more p).1
  unfolding connect_plot look notify
  connect_plot-keeps plot_id plot source more p sized good =
      let graph = p.graphs p.looks in
      let p₁ = (look p).1 in
      continue-keeps IsGood (on_disk (ledger.connect_plot graph plot_id plot) p₁) _
        (on_disk-keeps IsGood (ledger.connect_plot graph plot_id plot) p₁ good (λ tx_ids w e.
          (keeps.connect_keeps graph plot_id plot p.disk w tx_ids good.0 sized e, good.1)))
        (λ tx_ids q good'.
          continue-keeps IsGood (tail_of tx_ids, q) _ good'
            (λ confirmed q' good''.
              continue-keeps IsGood (remove_confirmed c ledger confirmed plot.header.height more q')
                _ (remove_confirmed-keeps confirmed plot.header.height more q' good'')
                (λ _ r good'''. good''')))

  pub disconnect_plot-keeps :
      (plot_id : Bytes) (plot : Plot) (source : Bytes) (p : Processor W F)
      → IsSized plot_id plot
      → IsGood p
      → IsGood (disconnect_plot c ledger plot_id plot source p).1
  unfolding disconnect_plot notify
  disconnect_plot-keeps plot_id plot source p sized good =
      let call = ledger.disconnect_plot plot_id plot in
      continue-keeps_from IsGood (on_disk call p) _
        (on_disk-keeps IsGood call p good (λ tx_ids w e.
          ((keeps.disconnect_keeps plot_id plot p.disk w tx_ids good.0 sized e).0, good.1)))
        (λ tx_ids q e.
          let (w, done, same) = on_disk-eq-ok call p q tx_ids e in
          let (kept, named) =
            keeps.disconnect_keeps plot_id plot p.disk w tx_ids good.0 sized done in
          let good' : IsGood q = rw same (kept, good.1) in
          continue-keeps_from IsGood (tail_of tx_ids, q) _ good'
            (λ ids q' e'.
              continue-keeps_from IsGood (tail_of plot.representations, q') _
                (ground (arith, good'))
                (λ txs q'' e''.
                  let there : q ≡ q'' = ground arith in
                  let good'' : IsGood q'' = rw (← there) good' in
                  let have =
                    HaveIds-tail_of c plot.representations txs tx_ids ids
                      (map-HaveIds c plot.representations tx_ids named) (ground arith)
                      (ground arith) in
                  continue-keeps IsGood
                    (on_queue (add_batch ids txs (sub64 plot.header.height (pos 1))) q'') _
                    (
                      good''.0,
                      add_batch-IsValid c ids txs (sub64 plot.header.height (pos 1)) q''.queue have
                          good''.1,
                    )
                    (λ _ r good'''. good'''))))
