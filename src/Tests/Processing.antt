-- ===== src/Tests/Processing.antt =====
-- The theorems on the processor's checks, at concrete inputs.
use plot_thread.Prelude.{
  ◌<ℤ◌, ◌⊎◌, add64, sub64, ℕ, ◌≡◌, ◌≤◌, ◌*◌, ◌/◌, refl, true, Option, none, some, [], ◌∷◌, ◌++◌, ℤ,
  pos, Result, ok, arith, replicate,
}
use plot_thread.Prelude.Bytes.{Bytes, bytes_eq, copy_array}
use plot_thread.Prelude.Utf8.{valid_utf8}
use plot_thread.Prelude.Assoc.{lookup, insert}
use plot_thread.Prelude.BigEndian.{big_endian, from_big_endian}
use plot_thread.Representation.{Representation, id, verify, is_plotroot, is_mature, is_expired}
use plot_thread.Representation.Check.{check_representation, check_representation_series}
use plot_thread.ImbalanceCache.{apply, fetch, credit, debit_sender, imbalance_of}
use plot_thread.Graph.{is_parent_descendant}
use plot_thread.RepresentationQueue.{
  RepresentationQueue, new_representation_queue, sender_descends, add, add_new, apply_cached, len,
}
use plot_thread.Plot.{
  PlotHeader, Plot, write_ids, add_plotroot_to_hash_list_root, compute_hash_list_root, get_big_int,
  set_big_int, check_pow,
}
use plot_thread.Processor.Limits.{compute_max_representations_per_plot, checkpoint_check}
use plot_thread.Processor.Limits.Growth.{compute_max-grows}
use plot_thread.Processor.Target.{
  initial_target, clamp_timespan, retarget, header_of, walk_back, retarget_from,
  compute_target_bitcoin,
}
use plot_thread.Processor.Target.Bounds.{compute_target_bitcoin_bounds}
use plot_thread.Processor.CheckPlot.{
  refuse_plotroots, check_plotroot, check_others, collect_ids, check_representations, check_root,
  check_header, check_size, check_plot,
}
use plot_thread.Processor.CheckPlot.Rules.{IsWellFormed, check_plot-IsWellFormed}
use plot_thread.Processor.Admission.{check_next, process_representation}
use plot_thread.Processor.Admission.Admitted.{IsAdmitted, process_representation-IsAdmitted}
use plot_thread.Tests.{alice, crypto, plotroot, alice_to_bob, memo_id, five, no_graph}

compute_max-grows_example :
    (m : ℕ) × (n : ℕ) × (compute_max_representations_per_plot (pos 5) ≡ ok (pos m))
    × (compute_max_representations_per_plot (pos 2000005) ≡ ok (pos n))
    × (m ≤ n)
    × (n ≤ 2147483647)
    × ((pos 5 <ℤ pos 0) ⊎ (10000 ≤ m))
compute_max-grows_example = compute_max-grows (pos 5) (pos 2000005) (omega arith)

-- The last header of the first interval, and its successors back to the first plot.
abbrev header : ℤ → ℤ → Bytes → PlotHeader
header time height target = record {
  previous = [];
  hash_list_root = [];
  time = time;
  target = target;
  thread_work = replicate 32 0;
  nonce = pos 7;
  height = height;
  representation_count = pos 1;
}

abbrev low_target : Bytes
low_target = replicate 8 0 ++ replicate 24 1

-- Every earlier plot is the first one.
abbrev first_header : Bytes → Result (Option (PlotHeader × ℤ))
first_header plot_id = ok (some (header (pos 0) (pos 0) low_target, pos 0))

abbrev no_plot : ℤ → Result (Option Bytes)
no_plot height = ok none

abbrev last_header : PlotHeader
last_header = header (pos 604800) (pos 2015) low_target

low_lem : get_big_int low_target ≤ initial_target
unfolding from_big_endian
low_lem = omega arith

retarget_lem :
    (target : Bytes) × (compute_target_bitcoin first_header no_plot last_header ≡ ok target)
unfolding compute_target_bitcoin retarget_from walk_back header_of clamp_timespan retarget
    set_big_int from_big_endian big_endian add64 sub64
retarget_lem = (_, refl)

compute_target_bitcoin_bounds_example :
    (get_big_int retarget_lem.0 ≤ initial_target)
    × (get_big_int low_target / 4 ≤ get_big_int retarget_lem.0)
    × (get_big_int retarget_lem.0 ≤ get_big_int low_target * 4)
compute_target_bitcoin_bounds_example =
    compute_target_bitcoin_bounds first_header no_plot last_header retarget_lem.0 low_lem
      retarget_lem.1

abbrev signed : Representation
signed = record alice_to_bob { signature = alice ++ memo_id 11 }

abbrev pub plot_id : Bytes
plot_id = replicate 32 0

abbrev pub good_plot : Plot
good_plot = record {
  header = record {
    previous = plot_id;
    hash_list_root = memo_id 10;
    time = pos 5;
    target = replicate 32 255;
    thread_work = plot_id;
    nonce = pos 7;
    height = pos 1;
    representation_count = pos 2;
  };
  representations = plotroot ∷ signed ∷ [];
  hasher = none;
}

check_plot_lem : check_plot crypto plot_id good_plot (pos 5) ≡ ok tt
unfolding check_plot check_header check_plotroot check_size check_others refuse_plotroots
    check_representations check_root collect_ids check_representation compute_hash_list_root
    write_ids add_plotroot_to_hash_list_root check_pow checkpoint_check
    compute_max_representations_per_plot id is_plotroot valid_utf8 bytes_eq copy_array insert lookup
    from_big_endian add64
check_plot_lem = refl

check_plot-IsWellFormed_example : IsWellFormed crypto plot_id good_plot (pos 5)
check_plot-IsWellFormed_example =
    check_plot-IsWellFormed crypto plot_id good_plot (pos 5) check_plot_lem

abbrev unconfirmed : Bytes → Result (Option Bytes)
unconfirmed tx_id = ok none

abbrev tip : Result (Option (Bytes × ℤ))
tip = ok (some (plot_id, pos 1))

abbrev waiting : RepresentationQueue
waiting =
    (process_representation crypto no_graph five unconfirmed tip (memo_id 11) signed
      new_representation_queue).1

process_lem :
    process_representation crypto no_graph five unconfirmed tip
      (memo_id 11)
      signed
      new_representation_queue
    ≡ (ok true, waiting)
unfolding process_representation check_next check_representation check_representation_series
    is_mature is_expired verify id is_plotroot valid_utf8 len new_representation_queue add add_new
    apply_cached apply debit_sender credit fetch imbalance_of lookup insert copy_array bytes_eq
    sender_descends is_parent_descendant add64 sub64
process_lem = refl

process_representation-IsAdmitted_example :
    IsAdmitted crypto no_graph five unconfirmed tip
      (memo_id 11)
      signed
      new_representation_queue
      waiting
process_representation-IsAdmitted_example =
    process_representation-IsAdmitted crypto no_graph five unconfirmed tip (memo_id 11) signed
      new_representation_queue waiting process_lem
