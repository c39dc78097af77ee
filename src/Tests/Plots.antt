-- ===== src/Tests/Plots.antt =====
-- The theorems on plots, at concrete inputs.
use plot_thread.Prelude.{
  ℕ, List, ◌+◌, length, ◌≡◌, ◌≢◌, ◌⊎◌, ◌≤◌, ◌<◌, ◌^◌, refl, true, some, [], ◌∷◌, ◌++◌, pos, Result,
  ok, panic, arith, replicate,
}
use plot_thread.Prelude.Bytes.{Bytes, copy_array}
use plot_thread.Prelude.BigEndian.{big_endian, from_big_endian}
use plot_thread.Representation.{Representation, id}
use plot_thread.Plot.{
  PlotHeader, Plot, new_plot, add_representation, add_with, add_plotroot_to_hash_list_root,
  write_ids, compute_hash_list_root, compute_thread_work, compute_plot_work, get_big_int,
  set_big_int, compare, header_id,
}
use plot_thread.Plot.Root.{IsRooted, add_representation-IsRooted}
use plot_thread.Plot.Work.{IsWork, compute_thread_work-adds, get_big_int-set_big_int}
use plot_thread.Plot.Better.{compare_trans, compare_total}
use plot_thread.Tests.{crypto, plotroot, alice_to_bob, bob_to_carol, memo_id, alice, bob, carol}

abbrev easy : Bytes
easy = replicate 32 255

abbrev zero_id : Bytes
zero_id = replicate 32 0

new_plot_lem :
    (plot : Plot) × (new_plot crypto
        (pos 5)
        (pos 7)
        zero_id
        (pos 1)
        easy
        zero_id
        (plotroot ∷ alice_to_bob ∷ [])
      ≡ ok plot)
unfolding new_plot compute_hash_list_root write_ids add_plotroot_to_hash_list_root
    compute_thread_work compute_plot_work set_big_int id copy_array from_big_endian big_endian
new_plot_lem = (_, refl)

abbrev first_plot : Plot
first_plot = new_plot_lem.0

named_lem : id crypto bob_to_carol ≡ ok (memo_id 12)
unfolding id
named_lem = refl

rooted_plot : Plot
unfolding copy_array
rooted_plot = record {
  header = record {
    previous = zero_id;
    hash_list_root = copy_array 32 (memo_id 10 ++ copy_array 32 []);
    time = pos 5;
    target = easy;
    thread_work = zero_id;
    nonce = pos 7;
    height = pos 1;
    representation_count = pos 1;
  };
  representations = plotroot ∷ [];
  hasher = some [];
}

longer_lem :
    (plot : Plot) × (add_representation crypto (memo_id 12) bob_to_carol rooted_plot ≡ ok plot)
unfolding add_representation add_with add_plotroot_to_hash_list_root id rooted_plot
longer_lem = (_, refl)

rooted_lem : IsRooted crypto rooted_plot
unfolding compute_hash_list_root write_ids add_plotroot_to_hash_list_root id rooted_plot copy_array
rooted_lem = ([], refl, refl)

add_representation-IsRooted_example :
    IsRooted crypto longer_lem.0
    × (longer_lem.0.representations ≡ rooted_plot.representations ++ bob_to_carol ∷ [])
    × ((hasher : Bytes) × (rooted_plot.hasher ≡ some hasher)
        × ((first : Representation) × (txs : List Representation) × (other : Plot)
            × (rooted_plot.representations ≡ first ∷ txs)
            × (add_representation crypto
                  (memo_id 12)
                  bob_to_carol
                  (record rooted_plot { representations = first ∷ alice_to_bob ∷ [] })
                ≡ ok other)
            × (other.header ≡ longer_lem.0.header)
            × (other.hasher ≡ longer_lem.0.hasher)
            × (longer_lem.0.hasher ≡ some (hasher ++ memo_id 12))))
add_representation-IsRooted_example =
    add_representation-IsRooted crypto (memo_id 12) bob_to_carol rooted_plot longer_lem.0
      (alice_to_bob ∷ []) named_lem rooted_lem longer_lem.1

compute_thread_work-adds_example :
    (w : ℕ) × (compute_plot_work alice ≡ w)
    × IsWork (get_big_int alice) w
    × (((b : Bytes) × (compute_thread_work alice bob ≡ ok b)
          × (length b ≡ 32)
          × (get_big_int b ≡ get_big_int bob + w))
        ⊎ ((2 ^ 256 ≤ get_big_int bob + w) × (compute_thread_work alice bob ≡ panic)))
compute_thread_work-adds_example = compute_thread_work-adds alice bob

get_big_int-set_big_int_example :
    (300 < 2 ^ 256 → (b : Bytes) × (set_big_int 300 ≡ ok b) × (get_big_int b ≡ 300))
    × (2 ^ 256 ≤ 300 → set_big_int 300 ≡ panic)
get_big_int-set_big_int_example = get_big_int-set_big_int 300

-- Headers that differ in their work; the ID is the previous one.
abbrev header : Bytes → Bytes → PlotHeader
header previous work = record {
  previous = previous;
  hash_list_root = zero_id;
  time = pos 5;
  target = easy;
  thread_work = work;
  nonce = pos 7;
  height = pos 1;
  representation_count = pos 1;
}

abbrev marshal_previous : PlotHeader → Result Bytes
marshal_previous h = ok h.previous

more_work :
    compare crypto marshal_previous (header alice carol) (header alice bob) (pos 1) (pos 2)
    ≡ ok true
unfolding compare from_big_endian
more_work = refl

earlier :
    compare crypto marshal_previous (header alice bob) (header bob bob) (pos 2) (pos 3) ≡ ok true
unfolding compare from_big_endian
earlier = refl

compare_trans_example :
    compare crypto marshal_previous (header alice carol) (header bob bob) (pos 1) (pos 3) ≡ ok true
compare_trans_example =
    compare_trans crypto marshal_previous (header alice carol) (header alice bob) (header bob bob)
      (pos 1) (pos 2) (pos 3) more_work earlier

id_alice : header_id crypto marshal_previous (header alice bob) ≡ ok alice
unfolding header_id copy_array
id_alice = refl

id_bob : header_id crypto marshal_previous (header bob bob) ≡ ok bob
unfolding header_id copy_array
id_bob = refl

ids_differ : get_big_int alice ≢ get_big_int bob
unfolding from_big_endian
ids_differ e = omega arith

compare_total_example :
    (compare crypto marshal_previous (header alice bob) (header bob bob) (pos 2) (pos 2) ≡ ok true)
    ⊎ (compare crypto marshal_previous (header bob bob) (header alice bob) (pos 2) (pos 2)
        ≡ ok true)
compare_total_example =
    compare_total crypto marshal_previous (header alice bob) (header bob bob) (pos 2) (pos 2) alice
      bob id_alice id_bob ids_differ
