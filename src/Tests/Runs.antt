-- ===== src/Tests/Runs.antt =====
-- The theorems on the runs of the processor, at concrete inputs.
use mathlib.Core.Option
use plot_thread.Prelude.{
  ap, Bool-cases, add64, sub64, ℕ, ◌≡◌, refl, true, none, some, [], ◌∷◌, ℤ, pos, Result, ok, arith,
  replicate, inl, inr, ◌⊎◌,
}
use plot_thread.Prelude.Bytes.{Bytes, bytes_eq, bytes_eq_iff, copy_array}
use plot_thread.Prelude.Utf8.{valid_utf8}
use plot_thread.Prelude.Assoc.{Assoc, lookup, lookup-insert, insert}
use plot_thread.Prelude.BigEndian.{from_big_endian, write_int64, read_int64, big_endian}
use plot_thread.Representation.{id, is_plotroot}
use plot_thread.RepresentationQueue.{new_representation_queue}
use plot_thread.Plot.{PlotHeader, Plot}
use plot_thread.Processor.State.{Ledger, Processor}
use plot_thread.Processor.Laws.{IsSized, IsLedger, HasTip}
use plot_thread.Processor.Tipping.{Compared, accept_plot_continue-Compared}
use plot_thread.Processor.OnDisk.{PlotFiles, shared_storage, ledger_disk}
use plot_thread.Processor.OnDisk.Lawful.{IsPlotFiles, IsSoundDisk, ledger_disk-IsLedger}
use plot_thread.Representation.Check.{check_representation}
use plot_thread.RepresentationQueue.{remove_batch, reprocess_queue}
use plot_thread.Plot.{
  compare, write_ids, add_plotroot_to_hash_list_root, compute_hash_list_root, check_pow,
}
use plot_thread.LedgerDisk.Queries.{decode_tip, get_thread_tip, get_branch_type}
use plot_thread.LedgerDisk.Keys.{
  compute_representation_index_key, compute_pub_key_representation_index_key, read_bytes,
  compute_plot_height_index_key, compute_branch_type_key, compute_thread_tip_key, decode_thread_tip,
  encode_thread_tip,
}
use plot_thread.LedgerDisk.Queries as Queries
use plot_thread.LedgerDisk.Connect as Connect
use plot_thread.LedgerDisk.Connect.{
  extends, prune_if, tx_to_apply, apply_pending, connect_tx, connect_txs,
}
use plot_thread.Processor.Limits.{compute_max_representations_per_plot, checkpoint_check}
use plot_thread.Processor.CheckPlot.{
  refuse_plotroots, check_plotroot, check_others, collect_ids, check_representations, check_root,
  check_header, check_size, check_plot,
}
use plot_thread.Processor.State.{look, notify}
use plot_thread.Processor.Tips.{tail_of, remove_confirmed, connect_plot, get_thread_tip_header}
use plot_thread.Processor.Run.{register, Reach, here, next, plot_received, register_new_tx}
use plot_thread.Processor.Run.Healthy.{Reach-IsHealthy}
use plot_thread.RepresentationQueue.Valid.{IsValid, new-IsValid}
use plot_thread.Processor.Reorganize.{
  header_eq, walk_down, scan_both, lower, find_ways, disconnect_all, connect_all, reorganize,
  adopt_if, compare_with_tip, accept_plot_continue,
}
use plot_thread.Processor.Target.{deref}
use plot_thread.Processor.Accept.{process_plot, process_new, place, begin_ledger}
use plot_thread.Tests.{alice, crypto, transfer, plotroot, no_graph}
use plot_thread.Tests.Ledgers.{run_ops, store, store-IsAtomic, store-IsReadable}
use plot_thread.Tests.Processing.{plot_id, good_plot}

-- Plots in an association list.
abbrev plots : PlotFiles (Assoc (Plot × ℤ))
plots = record {
  files = record {
    store = λ plot_id plot now s. ok (insert plot_id (plot, now) s);
    get_plot = λ plot_id s. ok (Option.map (λ r. r.0) (lookup plot_id s));
    get_plot_header = λ s plot_id. ok (Option.map (λ r. (r.0.header, r.1)) (lookup plot_id s));
  };
  get_representation = λ s plot_id i. ok none;
}

abbrev AreSized : Assoc (Plot × ℤ) → Type 0
AreSized s =
    (plot_id : Bytes) (plot : Plot)
    → plots.files.get_plot plot_id s ≡ ok (some plot)
    → IsSized plot_id plot

insert-AreSized :
    (j k : Bytes) (plot plot' : Plot) (now : ℤ) (s : Assoc (Plot × ℤ))
    → AreSized s
    → IsSized k plot
    → plots.files.get_plot j (insert k (plot, now) s) ≡ ok (some plot')
    → IsSized j plot'
insert-AreSized j k plot plot' now s sized there found = elim (Bool-cases (bytes_eq k j)) [
  | inl same ↦
      let e : plot ≡ plot' = ground (arith, rw (lookup-insert j k (plot, now) s, same) at found) in
      rw (← (bytes_eq_iff k j).0 same, ← e) there
  | inr apart ↦ sized j plot' (rw (lookup-insert j k (plot, now) s, apart) at found)
]

plots-IsPlotFiles : IsPlotFiles plots AreSized
plots-IsPlotFiles = record {
  stored_sized = λ i plot s sized e. sized i plot e;
  store_sound = λ i plot now s s' sized there e.
      let same : insert i (plot, now) s ≡ s' = ground (arith, e) in
      rw (← same) (λ j plot' found. insert-AreSized j i plot plot' now s sized there found);
}

abbrev ledger : Ledger (Assoc Bytes × Assoc (Plot × ℤ)) ℕ
ledger = ledger_disk crypto store plots true

ledger_disk-IsLedger_example :
    IsLedger crypto (shared_storage plots) ledger (IsSoundDisk store AreSized)
ledger_disk-IsLedger_example =
    ledger_disk-IsLedger crypto store plots true AreSized store-IsAtomic plots-IsPlotFiles

abbrev initial : Processor (Assoc Bytes × Assoc (Plot × ℤ)) ℕ
initial = record {
  disk = ([], []);
  queue = new_representation_queue;
  graphs = λ n. no_graph;
  looks = 0;
  new_tx_channels = [];
  tip_change_channels = 1 ∷ [];
  sent = [];
}

abbrev genesis : Plot
genesis = record good_plot {
  header = record good_plot.header { representation_count = pos 1 };
  representations = plotroot ∷ [];
}

abbrev no_marshal : PlotHeader → Result Bytes
no_marshal header = ok []

genesis_lem :
    (process_plot crypto no_marshal
      (shared_storage plots)
      ledger
      5
      plot_id
      plot_id
      genesis
      (pos 5)
      []
      initial).0
    ≡ ok tt
unfolding process_plot process_new place begin_ledger connect_plot remove_confirmed notify look
    tail_of ledger_disk shared_storage Connect.connect_plot connect_txs connect_tx tx_to_apply
    apply_pending prune_if get_thread_tip get_branch_type decode_tip extends remove_batch
    new_representation_queue check_plot check_header check_plotroot check_size check_others
    refuse_plotroots check_representations check_root collect_ids check_representation
    compute_hash_list_root write_ids add_plotroot_to_hash_list_root check_pow checkpoint_check
    compute_max_representations_per_plot id is_plotroot valid_utf8 bytes_eq copy_array insert lookup
    from_big_endian add64 sub64 Queries.decode_branch_type reprocess_queue
genesis_lem = refl

abbrev started : Processor (Assoc Bytes × Assoc (Plot × ℤ)) ℕ
started =
    (process_plot crypto no_marshal (shared_storage plots) ledger 5 plot_id plot_id genesis (pos 5)
      [] initial).1

-- The genesis plot arrives, and then someone listens for new representations.
run_lem :
    Reach crypto no_marshal
      (shared_storage plots)
      ledger
      5
      plot_id
      initial
      (record started { new_tx_channels = register 2 started.new_tx_channels })
unfolding sub64
run_lem =
    next
      (next here (
        plot_received plot_id genesis (pos 5) [] (ok tt)
          (refl, refl, (omega arith, omega arith), (omega arith, omega arith))
          (ap (λ r. (r, started)) genesis_lem) (λ e. ground (arith, e))))
      (register_new_tx 2 refl)

nothing-AreSized : AreSized []
unfolding lookup
nothing-AreSized i plot found = absurd (ground (arith, found))

Reach-IsHealthy_example :
    IsSoundDisk store AreSized started.disk
    × IsValid crypto started.queue
    × (HasTip crypto (shared_storage plots) ledger (IsSoundDisk store AreSized) ([], [])
        → HasTip crypto (shared_storage plots) ledger (IsSoundDisk store AreSized) started.disk)
Reach-IsHealthy_example =
    Reach-IsHealthy crypto (shared_storage plots) ledger (IsSoundDisk store AreSized)
      (ledger_disk-IsLedger crypto store plots true AreSized store-IsAtomic plots-IsPlotFiles)
      no_marshal 5 plot_id initial
      (record started { new_tx_channels = register 2 started.new_tx_channels })
      (store-IsReadable [], nothing-AreSized) (new-IsValid crypto) run_lem

started_lem : IsSoundDisk store AreSized started.disk × IsValid crypto started.queue
started_lem =
    let (sound, valid, tipped) =
      Reach-IsHealthy crypto (shared_storage plots) ledger (IsSoundDisk store AreSized)
        (ledger_disk-IsLedger crypto store plots true AreSized store-IsAtomic plots-IsPlotFiles)
        no_marshal 5 plot_id initial
        (record started { new_tx_channels = register 2 started.new_tx_channels })
        (store-IsReadable [], nothing-AreSized) (new-IsValid crypto) run_lem in
    (sound, valid)

-- A plot on the first one, with more work below it.
abbrev second_id : Bytes
second_id = replicate 32 1

abbrev second : Plot
second = record genesis {
  header = record genesis.header { thread_work = replicate 32 1; height = pos 2 };
  representations = transfer none (some alice) 13 ∷ [];
}

continued_lem :
    (p' : Processor (Assoc Bytes × Assoc (Plot × ℤ)) ℕ) × (accept_plot_continue crypto no_marshal
        (shared_storage plots)
        ledger
        5
        second_id
        second
        (pos 9)
        (some genesis.header)
        []
        started
      ≡ (ok tt, p'))
unfolding accept_plot_continue get_thread_tip_header compare_with_tip adopt_if reorganize find_ways
    walk_down scan_both lower header_eq deref disconnect_all connect_all compare process_plot
    process_new place begin_ledger connect_plot remove_confirmed notify look tail_of ledger_disk
    shared_storage Connect.connect_plot connect_txs connect_tx tx_to_apply apply_pending prune_if
    get_thread_tip get_branch_type decode_tip extends remove_batch new_representation_queue
    check_plot check_header check_plotroot check_size check_others refuse_plotroots
    check_representations check_root collect_ids check_representation compute_hash_list_root
    write_ids add_plotroot_to_hash_list_root check_pow checkpoint_check
    compute_max_representations_per_plot id is_plotroot valid_utf8 bytes_eq copy_array insert lookup
    from_big_endian add64 sub64 Queries.decode_branch_type reprocess_queue run_ops Connect.party_ops
    Connect.imbalance_ops Connect.connect_ops compute_representation_index_key
    compute_pub_key_representation_index_key compute_plot_height_index_key compute_branch_type_key
    compute_thread_tip_key decode_thread_tip read_bytes encode_thread_tip write_int64 read_int64
    big_endian
continued_lem = (_, refl)

accept_plot_continue-Compared_example :
    (tip_id : Bytes) × (tip_height : ℤ) × (ledger.get_thread_tip started.disk
      ≡ ok (some (tip_id, tip_height)))
    × (((tip_id ≡ second_id) × (continued_lem.0 ≡ started))
        ⊎ ((tip : PlotHeader × ℤ) × ((shared_storage plots).get_plot_header started.disk tip_id
              ≡ ok (some tip))
            × Compared crypto no_marshal
                (shared_storage plots)
                ledger
                5
                (IsSoundDisk store AreSized)
                (ledger_disk-IsLedger crypto store plots true AreSized store-IsAtomic
                  plots-IsPlotFiles)
                second_id
                second
                (pos 9)
                tip
                started
                continued_lem.0))
unfolding sub64
accept_plot_continue-Compared_example =
    accept_plot_continue-Compared crypto no_marshal (shared_storage plots) ledger 5
      (IsSoundDisk store AreSized)
      (ledger_disk-IsLedger crypto store plots true AreSized store-IsAtomic plots-IsPlotFiles)
      second_id second (pos 9) (some genesis.header) [] started continued_lem.0 started_lem.0
      started_lem.1 (refl, refl, (omega arith, omega arith), (omega arith, omega arith))
      continued_lem.1
