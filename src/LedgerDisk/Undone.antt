-- ===== src/LedgerDisk/Undone.antt =====
-- ledger_disk.go: what `DisconnectPlot` leaves.
use plot_thread.Prelude.{
  ℕ, suc, ◌≡◌, Bool, false, Option, none, some, List, [], ◌∷◌, ◌++◌, map, ℤ, pos, sub64, IsInt64,
  length, Result, ok, bind-eq-ok, arith,
}
use plot_thread.Prelude.Bytes.{Bytes, bytes_eq_iff}
use plot_thread.Representation.{Representation, Crypto, id}
use plot_thread.Plot.{Plot}
use plot_thread.ImbalanceCache.{empty}
use plot_thread.LedgerDisk.Database.{Database, Op, effect, IsAtomic}
use plot_thread.LedgerDisk.Queries.{side, get_thread_tip, get_branch_type, get_plot_id_for_height}
use plot_thread.LedgerDisk.Connect.{Pending, imbalance_ops, prune_depth, plot_at}
use plot_thread.LedgerDisk.Disconnect.{
  disconnect_ops, check_tip, restore_indices, restore_if, disconnect_tx, disconnect_txs,
  disconnect_plot,
}
use plot_thread.LedgerDisk.Settled.{is_index_key, restore_txs_spares, IsReadable, disconnected}

module _ (c : Crypto) {D : Type 0} (db : Database D)
    (get_representation : Bytes → ℕ → Result (Option Representation))
    (get_plot : Bytes → Result (Option Plot)) where
  disconnect_tx-id :
      (d : D) (height : ℤ) (i : ℕ) (tx : Representation) (p p' : Pending) (tx_id : Bytes)
      → disconnect_tx c db get_representation get_plot d height i tx p ≡ ok (tx_id, p')
      → id c tx ≡ ok tx_id
  unfolding disconnect_tx
  disconnect_tx-id d height i tx p p' tx_id e = ground arith

  disconnect_txs-ids :
      (d : D) (height : ℤ) (i : ℕ) (txs : List Representation) (p q : Pending) (tx_ids : List Bytes)
      → disconnect_txs c db get_representation get_plot d height i txs p ≡ ok (tx_ids, q)
      → map (id c) txs ≡ map ok tx_ids
  unfolding disconnect_txs
  disconnect_txs-ids d height i [] p q tx_ids e = ground arith
  disconnect_txs-ids d height i (tx ∷ txs) p q tx_ids e =
      let ((rest, p'), others, more) =
        bind-eq-ok (disconnect_txs c db get_representation get_plot d height (suc i) txs p) _ e in
      let ((tx_id, last), one, same) =
        bind-eq-ok (disconnect_tx c db get_representation get_plot d height i tx p') _ more in
      ground (
        arith,
        same,
        disconnect_tx-id d height i tx p' last tx_id one,
        disconnect_txs-ids d height (suc i) txs p p' rest others,
      )

  restore_indices_spares :
      (height : ℤ) (d : D) (ops : List Op) (k : Bytes) (v : Option Bytes)
      → restore_indices c db get_representation get_plot height d ≡ ok ops
      → is_index_key k ≡ false
      → effect ops k v ≡ v
  unfolding restore_indices
  restore_indices_spares height d ops k v e isnt =
      let (plot, found, made) = bind-eq-ok (plot_at db get_plot height d) _ e in
      restore_txs_spares c plot.header.height 0 plot.representations ops k v made isnt

  restore_if_spares :
      (prune : Bool) (height : ℤ) (d : D) (ops : List Op) (k : Bytes) (v : Option Bytes)
      → restore_if c db get_representation get_plot prune height d ≡ ok ops
      → is_index_key k ≡ false
      → effect ops k v ≡ v
  unfolding restore_if effect
  restore_if_spares prune height d ops k v e isnt =
      ground (arith, restore_indices_spares (sub64 height (pos prune_depth)) d ops k v, e, isnt)

  check_tip-is_tip :
      (tip : Option (Bytes × ℤ)) (plot_id : Bytes)
      → check_tip tip plot_id ≡ ok tt
      → (height : ℤ) × (tip ≡ some (plot_id, height))
  unfolding check_tip
  check_tip-is_tip none plot_id e = cc
  check_tip-is_tip (some (tip_id, height)) plot_id e =
      (height, ground (arith, bytes_eq_iff tip_id plot_id))

  -- Where `DisconnectPlot` succeeds on a database that is readable and writes atomically, the plot
  -- was the tip, and the IDs of its representations are returned. Its parent, with an ID of 32
  -- bytes, is the tip afterwards, at the height below, which is in int64; the plot itself is on a
  -- side branch and no longer found under its height, whatever is restored.
  pub disconnect_plot-tip :
      (prune : Bool) (plot_id : Bytes) (plot : Plot) (d d' : D) (tx_ids : List Bytes)
      → IsAtomic db
      → IsReadable db d
      → length plot.header.previous ≡ 32
      → IsInt64 (sub64 plot.header.height (pos 1))
      → disconnect_plot c db get_representation get_plot prune plot_id plot d ≡ ok (tx_ids, d')
      → ((height : ℤ) × (get_thread_tip db d ≡ ok (some (plot_id, height))))
        × (map (id c) plot.representations ≡ map ok tx_ids)
        × (get_thread_tip db d'
            ≡ ok (some (plot.header.previous, sub64 plot.header.height (pos 1))))
        × (get_branch_type db plot_id d' ≡ ok side)
        × (get_plot_id_for_height db plot.header.height d' ≡ ok none)
  unfolding disconnect_plot
  disconnect_plot-tip prune plot_id plot d d' tx_ids atomic readable size fits e =
      let height = plot.header.height in
      let previous = plot.header.previous in
      let (tip, read, after_tip) = bind-eq-ok (get_thread_tip db d) _ e in
      let (u, checked, after_check) = bind-eq-ok (check_tip tip plot_id) _ after_tip in
      let (tip_height, was) = check_tip-is_tip tip plot_id checked in
      let ((ids, p), all, after_txs) =
        bind-eq-ok
          (disconnect_txs c db get_representation get_plot d height 0 plot.representations
            (record { batch = []; cache = empty }))
          _ after_check in
      let (restored, found, after_restore) =
        bind-eq-ok (restore_if c db get_representation get_plot prune height d) _ after_txs in
      let (e', written, same) =
        bind-eq-ok
          (db.write
            ((p.batch ++ imbalance_ops p.cache)
              ++ (disconnect_ops plot_id previous height ++ restored))
            d)
          _ after_restore in
      let (new_tip, branch, index) =
        disconnected db (p.batch ++ imbalance_ops p.cache) restored plot_id previous height d e'
          atomic readable size fits written
          (λ k v isnt. restore_if_spares prune height d restored k v found isnt) in
      let named =
        disconnect_txs-ids d height 0 plot.representations (record { batch = []; cache = empty }) p
          ids all in
      (
        (tip_height, ground (arith, read, was)),
        ground (arith, same, named),
        ground (arith, same, new_tip),
        ground (arith, same, branch),
        ground (arith, same, index),
      )
