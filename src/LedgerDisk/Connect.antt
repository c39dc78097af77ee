-- ===== src/LedgerDisk/Connect.antt =====
-- ledger_disk.go: `ConnectPlot` and `pruneIndices`. Plot storage is a parameter; the graph is read
-- as it is during the call. The operations work on a batch and a cache, which an error discards.
use plot_thread.Prelude.{
  ℕ, suc, Bool, true, not, ◌&&◌, Option, none, some, List, [], ◌∷◌, ◌++◌, if◌then◌else◌, ℤ, pos,
  ltb_ℤ, leb_ℤ, eqb_ℤ, sub64, Result, ok, bind, refuse, Error, some_or,
}
use plot_thread.Prelude.Fallible.{◌>>=◌, ◌>>◌}
use plot_thread.Prelude.Bytes.{Bytes, bytes_eq, or_empty}
use plot_thread.Representation.{Representation, Crypto, id, is_plotroot}
use plot_thread.ImbalanceCache.{Cache, empty, apply}
use plot_thread.Graph.{Graph}
use plot_thread.RepresentationQueue.{sender_descends}
use plot_thread.Plot.{Plot}
use plot_thread.LedgerDisk.Database.{Database, Op, puts, deletes}
use plot_thread.LedgerDisk.Keys.{
  compute_branch_type_key, compute_plot_height_index_key, compute_thread_tip_key,
  compute_representation_index_key, compute_pub_key_imbalance_key,
  compute_pub_key_representation_index_key, encode_thread_tip, encode_number,
  encode_representation_index,
}
use plot_thread.LedgerDisk.Queries.{
  get_thread_tip, get_plot_id_for_height, get_public_key_imbalance, main,
}

-- PLOTROOT_MATURITY
abbrev pub plotroot_maturity : ℕ
plotroot_maturity = 100

-- 2 * PLOTS_UNTIL_NEW_SERIES
abbrev pub prune_depth : ℕ
prune_depth = 2016

-- The batch and the imbalance cache of a call.
pub record Pending : Type 0 where
  pub batch : List Op
  pub cache : Cache

-- The records of the parties' indices, which are put or deleted.
unfoldable pub party_ops : (Bytes → Op) → ℤ → ℕ → Representation → List Op
party_ops op height i tx =
    (if is_plotroot tx
      then []
      else op (compute_pub_key_representation_index_key (or_empty tx.by) (some height) (some i))
        ∷ [])
    ++ op (compute_pub_key_representation_index_key (or_empty tx.for) (some height) (some i)) ∷ []

abbrev pub put_mark : Bytes → Op
put_mark key = puts key (1 ∷ [])

-- The recorded imbalances of a cache; zero is not recorded.
unfoldable pub imbalance_ops : Cache → List Op
imbalance_ops [] = []
imbalance_ops ((pub_key, imbalance) ∷ cache) =
    (if eqb_ℤ imbalance (pos 0)
      then deletes (compute_pub_key_imbalance_key pub_key)
      else puts (compute_pub_key_imbalance_key pub_key) (encode_number imbalance))
    ∷ imbalance_ops cache

-- The height index, the branch type and the tip of a plot that is connected.
unfoldable pub connect_ops : Bytes → ℤ → List Op
connect_ops plot_id height =
    puts (compute_plot_height_index_key height) plot_id
    ∷ puts (compute_branch_type_key plot_id) (main ∷ [])
    ∷ puts compute_thread_tip_key (encode_thread_tip plot_id height)
    ∷ []

-- No tip at all may be extended by any plot.
unfoldable pub extends : Option (Bytes × ℤ) → Bytes → Bool
extends none previous = true
extends (some (tip_id, _)) previous = bytes_eq tip_id previous

unfoldable pub prune_txs : Crypto → ℤ → ℕ → List Representation → Result (List Op)
prune_txs c height i [] = ok []
prune_txs c height i (tx ∷ txs) = do
  tx_id ← id c tx
  rest ← prune_txs c height (suc i) txs
  ok (deletes (compute_representation_index_key tx_id) ∷ (party_ops deletes height i tx ++ rest))

module _ {D : Type 0} (db : Database D)
    (get_representation : Bytes → ℕ → Result (Option Representation)) where
  -- The plotroot that takes effect with the plot of the given height.
  unfoldable pub matured_plotroot : D → ℤ → Result Representation
  matured_plotroot d height = do
    found ← get_plot_id_for_height db (sub64 height (pos plotroot_maturity)) d
    old_id ← some_or found Error.missing_plot
    old ← get_representation old_id 0
    some_or old Error.missing_plotroot

  -- What a representation of a plot has applied or undone; a plotroot, that of 100 plots ago.
  unfoldable pub tx_to_apply : D → ℤ → Representation → Result (Option Representation)
  tx_to_apply d height tx =
      if not (is_plotroot tx)
      then ok (some tx)
      else if ltb_ℤ (sub64 height (pos plotroot_maturity)) (pos 0)
      then ok none
      else bind (matured_plotroot d height) (λ old. ok (some old))

module _ {D : Type 0} (db : Database D) (get_plot : Bytes → Result (Option Plot)) where
  -- The representations of the plot at a height, with the height in its header.
  unfoldable pub plot_at : ℤ → D → Result Plot
  plot_at height d = do
    found ← get_plot_id_for_height db height d
    plot_id ← some_or found Error.missing_plot
    plot ← get_plot plot_id
    some_or plot Error.missing_plot

module _ (c : Crypto) {F : Type 0} (graph : Graph F) {D : Type 0} (db : Database D)
    (get_representation : Bytes → ℕ → Result (Option Representation))
    (get_plot : Bytes → Result (Option Plot)) where
  open db use {has, write}

  unfoldable pub apply_pending : D → Option Representation → Cache → Result Cache
  apply_pending d none cache = ok cache
  apply_pending d (some tx) cache =
      let (r, cache') = apply (get_public_key_imbalance db d) tx cache in
      bind r (λ covered.
        bind (refuse (not covered) Error.insufficient_imbalance) (λ _.
          bind (refuse (sender_descends graph tx) Error.sender_is_descendant) (λ _. ok cache')))

  unfoldable pub connect_tx : D → ℤ → ℕ → Representation → Pending → Result (Bytes × Pending)
  connect_tx d height i tx p = do
    tx_id ← id c tx
    processed ← has d (compute_representation_index_key tx_id)
    refuse processed Error.already_processed
    to_apply ← tx_to_apply db get_representation d height tx
    cache ← apply_pending d to_apply p.cache
    let index = puts (compute_representation_index_key tx_id) (encode_representation_index height i)
    ok (tx_id, record { batch = p.batch ++ index ∷ party_ops put_mark height i tx; cache = cache })

  unfoldable pub connect_txs :
      D → ℤ → ℕ → List Representation → Pending → Result (List Bytes × Pending)
  connect_txs d height i [] p = ok ([], p)
  connect_txs d height i (tx ∷ txs) p = do
    (tx_id, p') ← connect_tx d height i tx p
    (tx_ids, last) ← connect_txs d height (suc i) txs p'
    ok (tx_id ∷ tx_ids, last)

  unfoldable pub prune_indices : ℤ → D → Result (List Op)
  prune_indices height d = do
    plot ← plot_at db get_plot height d
    prune_txs c plot.header.height 0 plot.representations

  unfoldable pub prune_if : Bool → ℤ → D → Result (List Op)
  prune_if prune height d =
      if prune && leb_ℤ (pos prune_depth) height
      then prune_indices (sub64 height (pos prune_depth)) d
      else ok []

  unfoldable pub connect_plot : Bool → Bytes → Plot → D → Result (List Bytes × D)
  connect_plot prune plot_id plot d = do
    tip ← get_thread_tip db d
    refuse (not (extends tip plot.header.previous)) Error.tip_mismatch
    (tx_ids, p) ←
        connect_txs d plot.header.height 0 plot.representations
          (record { batch = []; cache = empty })
    pruned ← prune_if prune plot.header.height d
    d' ←
        write
          ((p.batch ++ imbalance_ops p.cache) ++ (connect_ops plot_id plot.header.height ++ pruned))
          d
    ok (tx_ids, d')
