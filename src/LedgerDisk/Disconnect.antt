-- ===== src/LedgerDisk/Disconnect.antt =====
-- ledger_disk.go: `DisconnectPlot` and `restoreIndices`, with the same parameters as the connecting
-- of plots.
use plot_thread.Prelude.{
  ℕ, suc, Bool, not, ◌&&◌, Option, none, some, List, [], ◌∷◌, ◌++◌, if◌then◌else◌, ℤ, pos, leb_ℤ,
  sub64, Result, ok, err, bind, refuse, Error,
}
use plot_thread.Prelude.Fallible.{◌>>=◌, ◌>>◌}
use plot_thread.Prelude.Bytes.{Bytes, bytes_eq}
use plot_thread.Representation.{Representation, Crypto, id}
use plot_thread.ImbalanceCache.{Cache, empty, undo}
use plot_thread.Plot.{Plot}
use plot_thread.LedgerDisk.Database.{Database, Op, puts, deletes}
use plot_thread.LedgerDisk.Keys.{
  compute_branch_type_key, compute_plot_height_index_key, compute_thread_tip_key,
  compute_representation_index_key, encode_thread_tip, encode_representation_index,
}
use plot_thread.LedgerDisk.Queries.{get_thread_tip, get_public_key_imbalance, side}
use plot_thread.LedgerDisk.Connect.{
  Pending, party_ops, put_mark, imbalance_ops, prune_depth, tx_to_apply, plot_at,
}

-- The height index, the branch type and the tip after a plot is disconnected.
unfoldable pub disconnect_ops : Bytes → Bytes → ℤ → List Op
disconnect_ops plot_id previous height =
    deletes (compute_plot_height_index_key height)
    ∷ puts (compute_branch_type_key plot_id) (side ∷ [])
    ∷ puts compute_thread_tip_key (encode_thread_tip previous (sub64 height (pos 1)))
    ∷ []

unfoldable pub check_tip : Option (Bytes × ℤ) → Bytes → Result (Unit {0})
check_tip none plot_id = err Error.no_tip_to_disconnect
check_tip (some (tip_id, _)) plot_id = refuse (not (bytes_eq tip_id plot_id)) Error.tip_mismatch

unfoldable pub restore_txs : Crypto → ℤ → ℕ → List Representation → Result (List Op)
restore_txs c height i [] = ok []
restore_txs c height i (tx ∷ txs) = do
  tx_id ← id c tx
  rest ← restore_txs c height (suc i) txs
  ok (
      puts (compute_representation_index_key tx_id) (encode_representation_index height i)
      ∷ (party_ops put_mark height i tx ++ rest))

module _ (c : Crypto) {D : Type 0} (db : Database D)
    (get_representation : Bytes → ℕ → Result (Option Representation))
    (get_plot : Bytes → Result (Option Plot)) where
  open db use {write}

  unfoldable pub undo_pending : D → Option Representation → Cache → Result Cache
  undo_pending d none cache = ok cache
  undo_pending d (some tx) cache =
      let (r, cache') = undo (get_public_key_imbalance db d) tx cache in bind r (λ _. ok cache')

  unfoldable pub disconnect_tx : D → ℤ → ℕ → Representation → Pending → Result (Bytes × Pending)
  disconnect_tx d height i tx p = do
    tx_id ← id c tx
    to_undo ← tx_to_apply db get_representation d height tx
    cache ← undo_pending d to_undo p.cache
    let index = deletes (compute_representation_index_key tx_id)
    ok (tx_id, record { batch = p.batch ++ index ∷ party_ops deletes height i tx; cache = cache })

  -- From the last to the first.
  unfoldable pub disconnect_txs :
      D → ℤ → ℕ → List Representation → Pending → Result (List Bytes × Pending)
  disconnect_txs d height i [] p = ok ([], p)
  disconnect_txs d height i (tx ∷ txs) p = do
    (tx_ids, p') ← disconnect_txs d height (suc i) txs p
    (tx_id, last) ← disconnect_tx d height i tx p'
    ok (tx_id ∷ tx_ids, last)

  unfoldable pub restore_indices : ℤ → D → Result (List Op)
  restore_indices height d = do
    plot ← plot_at db get_plot height d
    restore_txs c plot.header.height 0 plot.representations

  unfoldable pub restore_if : Bool → ℤ → D → Result (List Op)
  restore_if prune height d =
      if prune && leb_ℤ (pos prune_depth) height
      then restore_indices (sub64 height (pos prune_depth)) d
      else ok []

  unfoldable pub disconnect_plot : Bool → Bytes → Plot → D → Result (List Bytes × D)
  disconnect_plot prune plot_id plot d = do
    tip ← get_thread_tip db d
    check_tip tip plot_id
    (tx_ids, p) ←
        disconnect_txs d plot.header.height 0 plot.representations
          (record { batch = []; cache = empty })
    restored ← restore_if prune plot.header.height d
    d' ←
        write
          ((p.batch ++ imbalance_ops p.cache)
            ++ (disconnect_ops plot_id plot.header.previous plot.header.height ++ restored))
          d
    ok (tx_ids, d')
