-- ===== src/LedgerDisk/Tip.antt =====
-- ledger_disk.go: what `ConnectPlot` leaves.
use plot_thread.Prelude.{
  ℕ, suc, ◌≡◌, Bool, true, false, not, Option, some, List, [], ◌∷◌, ◌++◌, map, ℤ, pos, sub64,
  IsInt64, length, Result, ok, bind-eq-ok, refuse, Error, arith,
}
use plot_thread.Prelude.Bytes.{Bytes}
use plot_thread.Representation.{Representation, Crypto, id}
use plot_thread.Graph.{Graph}
use plot_thread.Plot.{Plot}
use plot_thread.ImbalanceCache.{empty}
use plot_thread.LedgerDisk.Database.{Database, Op, effect, IsAtomic}
use plot_thread.LedgerDisk.Queries.{main, get_thread_tip, get_branch_type, get_plot_id_for_height}
use plot_thread.LedgerDisk.Connect.{
  Pending, imbalance_ops, connect_ops, extends, prune_depth, plot_at, prune_indices, prune_if,
  connect_tx, connect_txs, connect_plot,
}
use plot_thread.LedgerDisk.Settled.{is_index_key, prune_txs_spares, IsReadable, connected}

module _ (c : Crypto) {F : Type 0} (graph : Graph F) {D : Type 0} (db : Database D)
    (get_representation : Bytes → ℕ → Result (Option Representation))
    (get_plot : Bytes → Result (Option Plot)) where
  connect_tx-id :
      (d : D) (height : ℤ) (i : ℕ) (tx : Representation) (p p' : Pending) (tx_id : Bytes)
      → connect_tx c graph db get_representation get_plot d height i tx p ≡ ok (tx_id, p')
      → id c tx ≡ ok tx_id
  unfolding connect_tx
  connect_tx-id d height i tx p p' tx_id e = ground arith

  connect_txs-ids :
      (d : D) (height : ℤ) (i : ℕ) (txs : List Representation) (p q : Pending) (tx_ids : List Bytes)
      → connect_txs c graph db get_representation get_plot d height i txs p ≡ ok (tx_ids, q)
      → map (id c) txs ≡ map ok tx_ids
  unfolding connect_txs
  connect_txs-ids d height i [] p q tx_ids e = ground arith
  connect_txs-ids d height i (tx ∷ txs) p q tx_ids e =
      let ((tx_id, p'), one, more) =
        bind-eq-ok (connect_tx c graph db get_representation get_plot d height i tx p) _ e in
      let ((rest, last), others, same) =
        bind-eq-ok (connect_txs c graph db get_representation get_plot d height (suc i) txs p') _
          more in
      ground (
        arith,
        same,
        connect_tx-id d height i tx p p' tx_id one,
        connect_txs-ids d height (suc i) txs p' last rest others,
      )

  prune_indices_spares :
      (height : ℤ) (d : D) (ops : List Op) (k : Bytes) (v : Option Bytes)
      → prune_indices c graph db get_representation get_plot height d ≡ ok ops
      → is_index_key k ≡ false
      → effect ops k v ≡ v
  unfolding prune_indices
  prune_indices_spares height d ops k v e isnt =
      let (plot, found, made) = bind-eq-ok (plot_at db get_plot height d) _ e in
      prune_txs_spares c plot.header.height 0 plot.representations ops k v made isnt

  prune_if_spares :
      (prune : Bool) (height : ℤ) (d : D) (ops : List Op) (k : Bytes) (v : Option Bytes)
      → prune_if c graph db get_representation get_plot prune height d ≡ ok ops
      → is_index_key k ≡ false
      → effect ops k v ≡ v
  unfolding prune_if effect
  prune_if_spares prune height d ops k v e isnt =
      ground (arith, prune_indices_spares (sub64 height (pos prune_depth)) d ops k v, e, isnt)

  -- Where `ConnectPlot` succeeds on a database that is readable and writes atomically, the plot,
  -- with an ID of 32 bytes and a height in int64, extends the tip, if there is one, and the IDs of
  -- its representations are returned. It is the tip afterwards, on the main branch, and found under
  -- its height, whatever is pruned.
  pub connect_plot-tip :
      (prune : Bool) (plot_id : Bytes) (plot : Plot) (d d' : D) (tx_ids : List Bytes)
      → IsAtomic db
      → IsReadable db d
      → length plot_id ≡ 32
      → IsInt64 plot.header.height
      → connect_plot c graph db get_representation get_plot prune plot_id plot d ≡ ok (tx_ids, d')
      → ((tip : Option (Bytes × ℤ)) × (get_thread_tip db d ≡ ok tip)
          × (extends tip plot.header.previous ≡ true))
        × (map (id c) plot.representations ≡ map ok tx_ids)
        × (get_thread_tip db d' ≡ ok (some (plot_id, plot.header.height)))
        × (get_branch_type db plot_id d' ≡ ok main)
        × (get_plot_id_for_height db plot.header.height d' ≡ ok (some plot_id))
  unfolding connect_plot
  connect_plot-tip prune plot_id plot d d' tx_ids atomic readable size fits e =
      let height = plot.header.height in
      let (tip, read, after_tip) = bind-eq-ok (get_thread_tip db d) _ e in
      let (_, extended, after_check) =
        bind-eq-ok (refuse (not (extends tip plot.header.previous)) Error.tip_mismatch) _
          after_tip in
      let ((ids, p), all, after_txs) =
        bind-eq-ok
          (connect_txs c graph db get_representation get_plot d height 0 plot.representations
            (record { batch = []; cache = empty }))
          _ after_check in
      let (pruned, found, after_prune) =
        bind-eq-ok (prune_if c graph db get_representation get_plot prune height d) _ after_txs in
      let (e', written, same) =
        bind-eq-ok
          (db.write ((p.batch ++ imbalance_ops p.cache) ++ (connect_ops plot_id height ++ pruned))
            d)
          _ after_prune in
      let left =
        connected db (p.batch ++ imbalance_ops p.cache) pruned plot_id height d e' atomic readable
          size fits written (λ k v isnt. prune_if_spares prune height d pruned k v found isnt) in
      let named =
        connect_txs-ids d height 0 plot.representations (record { batch = []; cache = empty }) p ids
          all in
      let (new_tip, branch, index) = left in
      (
        (tip, read, ground (arith, extended)),
        ground (arith, same, named),
        ground (arith, same, new_tip),
        ground (arith, same, branch),
        ground (arith, same, index),
      )
