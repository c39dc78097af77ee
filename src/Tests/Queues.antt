-- ===== src/Tests/Queues.antt =====
-- The theorems on the two queues, at concrete inputs.
use plot_thread.Prelude.{◌≡◌, refl, true, false, List, [], ◌∷◌, pos, ok, err, bind, Error}
use plot_thread.Prelude.Bytes.{bytes_eq, copy_array}
use plot_thread.Prelude.Assoc.{lookup, insert}
use plot_thread.Indexed.{contents}
use plot_thread.Representation.{id, is_plotroot}
use plot_thread.ImbalanceCache.{empty, apply, fetch, credit, debit_sender, imbalance_of}
use plot_thread.ImbalanceCache.View.{shown, moved}
use plot_thread.PubKey.{pub_key_to_string, encode_base64, base64_digit}
use plot_thread.Graph.{
  is_parent_descendant, dfs, scan, member, neighbours, targets, get, put, link, add_node, add_edge,
  add_outbound,
}
use plot_thread.PlotQueue.{PlotQueue, new_plot_queue}
use plot_thread.PlotQueue.Download.{IsValid, Call, adds, removes, run, run_entries, run-run_entries}
use plot_thread.RepresentationQueue as Waiting
use plot_thread.RepresentationQueue.{
  RepresentationQueue, new_representation_queue, sender_descends, add_new, apply_cached, add,
  add_batch, remove_batch, reprocess_queue,
}
use plot_thread.RepresentationQueue.Valid
use plot_thread.RepresentationQueue.Valid.{HaveIds, add-IsValid, add_batch-IsValid, new-IsValid}
use plot_thread.RepresentationQueue.Reprocess.{Named, Agrees, survivors, reprocess_queue-survivors}
use plot_thread.RepresentationQueue.Adding.{
  IsAdded, add-IsAdded, add-descendant_charged, remove_batch-IsValid,
}
use plot_thread.Tests.{
  alice, bob, carol, crypto, alice_to_bob, bob_to_carol, memo_id, five, no_graph, bob_alice,
}

abbrev history : List Call
history =
    adds alice bob 0 ∷ adds carol bob 1 ∷ adds alice carol 130000000000 ∷ removes carol bob ∷ []

abbrev downloads : PlotQueue
downloads = (run history new_plot_queue).1

run-run_entries_example :
    IsValid downloads
    × ((run history new_plot_queue).0 ≡ (run_entries history []).0)
    × (contents downloads ≡ (run_entries history []).1)
run-run_entries_example = run-run_entries history

downloads-IsValid : IsValid downloads
downloads-IsValid = run-run_entries_example.0

abbrev start : RepresentationQueue
start = new_representation_queue

abbrev queued : RepresentationQueue
queued = (add crypto no_graph five (memo_id 11) alice_to_bob start).1

named_11 : id crypto alice_to_bob ≡ ok (memo_id 11)
unfolding id
named_11 = refl

named_12 : id crypto bob_to_carol ≡ ok (memo_id 12)
unfolding id
named_12 = refl

add-IsValid_example : Valid.IsValid crypto queued
add-IsValid_example =
    add-IsValid crypto no_graph five (memo_id 11) alice_to_bob start named_11 (new-IsValid crypto)

queued-IsValid : Valid.IsValid crypto queued
queued-IsValid =
    add-IsValid crypto no_graph five (memo_id 11) alice_to_bob start named_11 (new-IsValid crypto)

add_batch-IsValid_example :
    Valid.IsValid crypto
      (add_batch (memo_id 12 ∷ memo_id 11 ∷ []) (bob_to_carol ∷ alice_to_bob ∷ []) (pos 1) queued).1
add_batch-IsValid_example =
    add_batch-IsValid crypto (memo_id 12 ∷ memo_id 11 ∷ []) (bob_to_carol ∷ alice_to_bob ∷ [])
      (pos 1) queued (named_12, (named_11, tt)) queued-IsValid

remove_batch-IsValid_example :
    Valid.IsValid crypto
      (remove_batch crypto no_graph five (memo_id 12 ∷ []) (pos 1) false queued).1
remove_batch-IsValid_example =
    remove_batch-IsValid crypto no_graph five (memo_id 12 ∷ []) (pos 1) false queued queued-IsValid

add_lem : add crypto no_graph five (memo_id 11) alice_to_bob start ≡ (ok true, queued)
unfolding add add_new apply_cached new_representation_queue apply debit_sender credit fetch
    imbalance_of lookup copy_array insert bytes_eq is_plotroot sender_descends is_parent_descendant
add_lem = refl

add-IsAdded_example : IsAdded crypto no_graph five (memo_id 11) alice_to_bob start queued
add-IsAdded_example =
    add-IsAdded crypto no_graph five (memo_id 11) alice_to_bob start queued add_lem

queued_contents : contents queued.txs ≡ alice_to_bob ∷ []
unfolding new_representation_queue
queued_contents =
    IsAdded.at_back
      (add-IsAdded crypto no_graph five (memo_id 11) alice_to_bob start queued add_lem)

queued_Named : Named crypto (contents queued.txs)
queued_Named = rw queued_contents ((memo_id 11, named_11), tt)

reprocess_queue-survivors_example :
    Agrees no_graph five crypto []
      (survivors no_graph five (pos 1) (contents queued.txs) empty)
      (reprocess_queue crypto no_graph five (pos 1) queued)
reprocess_queue-survivors_example =
    reprocess_queue-survivors no_graph five crypto (pos 1) queued queued-IsValid queued_Named

descends_lem : sender_descends bob_alice alice_to_bob ≡ true
unfolding sender_descends is_parent_descendant dfs scan member neighbours targets get put link
    add_node add_edge add_outbound pub_key_to_string encode_base64 base64_digit lookup insert
    bytes_eq
descends_lem = refl

new_lem : Waiting.exists start (memo_id 11) ≡ false
unfolding Waiting.exists new_representation_queue lookup
new_lem = refl

covered_lem : (apply five alice_to_bob start.cache).0 ≡ ok true
unfolding new_representation_queue apply debit_sender credit fetch imbalance_of lookup copy_array
    insert bytes_eq is_plotroot
covered_lem = refl

add-descendant_charged_example :
    let (r, q') = add crypto bob_alice five (memo_id 11) alice_to_bob start in
    (r ≡ err Error.sender_is_descendant)
    × (q'.txs ≡ start.txs)
    × (shown five alice q'.cache
        ≡ bind (shown five alice start.cache) (λ v. ok (moved alice_to_bob alice v)))
add-descendant_charged_example =
    add-descendant_charged crypto bob_alice five (memo_id 11) alice_to_bob start alice new_lem
      (refl, refl) descends_lem covered_lem refl
