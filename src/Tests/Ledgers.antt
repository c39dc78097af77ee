-- ===== src/Tests/Ledgers.antt =====
-- The theorems on the ledger, with association lists as the database.
use plot_thread.Prelude.{
  add64, sub64, ℕ, ◌≡◌, refl, Bool, true, false, Option, none, some, List, [], ◌∷◌, ◌++◌, map, ℤ,
  pos, Result, ok, arith, replicate,
}
use plot_thread.Prelude.Bytes.{Bytes, bytes_eq, copy_array}
use plot_thread.Prelude.Assoc.{Assoc, lookup, insert, erase, lookup-insert, lookup-erase}
use plot_thread.Prelude.BigEndian.{read_int64, from_big_endian}
use plot_thread.Representation.{Representation, id, is_plotroot}
use plot_thread.Plot.{Plot}
use plot_thread.LedgerDisk.Database.{Database, Op, puts, deletes, effect, IsAtomic}
use plot_thread.LedgerDisk.Keys.{
  compute_plot_height_index_key, compute_pub_key_representation_index_key, compute_thread_tip_key,
  decode_thread_tip, read_bytes,
}
use plot_thread.LedgerDisk.Queries.{
  main, side, decode_tip, get_thread_tip, get_branch_type, get_plot_id_for_height,
}
use plot_thread.LedgerDisk.Connect.{
  extends, prune_if, tx_to_apply, apply_pending, connect_tx, connect_txs, connect_plot,
}
use plot_thread.LedgerDisk.Disconnect.{
  check_tip, restore_if, undo_pending, disconnect_tx, disconnect_txs, disconnect_plot,
}
use plot_thread.LedgerDisk.History.{indices_from}
use plot_thread.LedgerDisk.History.Cached.{plain_indices, indices_from-plain}
use plot_thread.LedgerDisk.Tip.{connect_plot-tip}
use plot_thread.LedgerDisk.Undone.{disconnect_plot-tip}
use plot_thread.LedgerDisk.Settled.{IsReadable}
use plot_thread.Tests.{crypto, plotroot, no_graph}

unfoldable pub run_ops : List Op → Assoc Bytes → Assoc Bytes
run_ops [] d = d
run_ops (puts k v ∷ ops) d = run_ops ops (insert k v d)
run_ops (deletes k ∷ ops) d = run_ops ops (erase k d)

abbrev pub is_there : Option Bytes → Bool
is_there none = false
is_there (some v) = true

abbrev pub store : Database (Assoc Bytes)
store = record {
  get = λ d k. ok (lookup k d);
  has = λ d k. ok (is_there (lookup k d));
  write = λ ops d. ok (run_ops ops d);
}

lookup-run_ops :
    (ops : List Op) (d : Assoc Bytes) (k : Bytes)
    → lookup k (run_ops ops d) ≡ effect ops k (lookup k d)
unfolding run_ops effect
lookup-run_ops [] d k = refl
lookup-run_ops (puts j w ∷ ops) d k =
    ground (arith, lookup-run_ops ops (insert j w d) k, lookup-insert k j w d)
lookup-run_ops (deletes j ∷ ops) d k =
    ground (arith, lookup-run_ops ops (erase j d) k, lookup-erase k j d)

pub store-IsAtomic : IsAtomic store
store-IsAtomic ops d d' k v done found = ground (arith, lookup-run_ops ops d k, done, found)

pub store-IsReadable : (d : Assoc Bytes) → IsReadable store d
store-IsReadable d k = (lookup k d, refl)

abbrev no_representation : Bytes → ℕ → Result (Option Representation)
no_representation plot_id i = ok none

abbrev no_plot : Bytes → Result (Option Plot)
no_plot plot_id = ok none

abbrev first_id : Bytes
first_id = replicate 32 9

abbrev first_plot : Plot
first_plot = record {
  header = record {
    previous = replicate 32 8;
    hash_list_root = [];
    time = pos 5;
    target = [];
    thread_work = [];
    nonce = pos 7;
    height = pos 1;
    representation_count = pos 1;
  };
  representations = plotroot ∷ [];
  hasher = none;
}

connect_lem :
    (r : List Bytes × Assoc Bytes) × (connect_plot crypto no_graph store no_representation no_plot
        true first_id first_plot []
      ≡ ok r)
unfolding connect_plot connect_txs connect_tx tx_to_apply apply_pending prune_if get_thread_tip
    decode_tip extends is_plotroot id lookup add64 sub64 copy_array
connect_lem = (_, refl)

connect_plot-tip_example :
    ((tip : Option (Bytes × ℤ)) × (get_thread_tip store [] ≡ ok tip)
      × (extends tip (replicate 32 8) ≡ true))
    × (map (id crypto) (plotroot ∷ []) ≡ map ok connect_lem.0.0)
    × (get_thread_tip store connect_lem.0.1 ≡ ok (some (first_id, pos 1)))
    × (get_branch_type store first_id connect_lem.0.1 ≡ ok main)
    × (get_plot_id_for_height store (pos 1) connect_lem.0.1 ≡ ok (some first_id))
connect_plot-tip_example =
    connect_plot-tip crypto no_graph store no_representation no_plot true first_id first_plot []
      connect_lem.0.1 connect_lem.0.0 store-IsAtomic (store-IsReadable []) refl
      (omega arith, omega arith) connect_lem.1

-- A store in which that plot is the tip.
abbrev tip_store : Assoc Bytes
tip_store = (b'T' ∷ [], first_id ++ replicate 8 0) ∷ []

disconnect_lem :
    (r : List Bytes × Assoc Bytes) × (disconnect_plot crypto store no_representation no_plot true
        first_id first_plot tip_store
      ≡ ok r)
unfolding disconnect_plot disconnect_txs disconnect_tx tx_to_apply undo_pending restore_if
    get_thread_tip decode_tip check_tip compute_thread_tip_key decode_thread_tip read_bytes
    read_int64 from_big_endian bytes_eq is_plotroot id lookup add64 sub64 copy_array
disconnect_lem = (_, refl)

disconnect_plot-tip_example :
    ((height : ℤ) × (get_thread_tip store tip_store ≡ ok (some (first_id, height))))
    × (map (id crypto) (plotroot ∷ []) ≡ map ok disconnect_lem.0.0)
    × (get_thread_tip store disconnect_lem.0.1 ≡ ok (some (replicate 32 8, pos 0)))
    × (get_branch_type store first_id disconnect_lem.0.1 ≡ ok side)
    × (get_plot_id_for_height store (pos 1) disconnect_lem.0.1 ≡ ok none)
unfolding sub64
disconnect_plot-tip_example =
    disconnect_plot-tip crypto store no_representation no_plot true first_id first_plot tip_store
      disconnect_lem.0.1 disconnect_lem.0.0 store-IsAtomic (store-IsReadable tip_store) refl
      (omega arith, omega arith) disconnect_lem.1

-- Two representations of one plot: the second finds the plot in the map.
abbrev indexed_store : Assoc Bytes
indexed_store = (compute_plot_height_index_key (pos 1), first_id) ∷ []

abbrev index_entries : List (Bytes × Bytes)
index_entries =
    (compute_pub_key_representation_index_key first_id (some (pos 1)) (some 0), [])
    ∷ (compute_pub_key_representation_index_key first_id (some (pos 1)) (some 3), [])
    ∷ []

indices_from-plain_example :
    indices_from store indexed_store 2 index_entries [] [] (pos 0, pos 0)
    ≡ plain_indices store indexed_store 2 index_entries [] (pos 0, pos 0)
indices_from-plain_example = indices_from-plain store indexed_store 2 index_entries (pos 0, pos 0)
