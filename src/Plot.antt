-- ===== src/Plot.antt =====
-- plot.go: plots and their headers, the hash list root, work, and which of two threads is better.
-- A running SHA3-256 hasher is what has been written to it.
pub mod Root
pub mod Work
pub mod Better
use plot_thread.Prelude.{
  ℕ, ◌+◌, ◌/◌, ◌^◌, ◌≡◌, Bool, true, false, Option, none, some, List, [], ◌∷◌, ◌++◌, ltb, leb,
  length, if◌then◌else◌, ℤ, pos, ltb_ℤ, negsuc, add64, Result, ok, err, panic, bind, Error, refuse,
}
use plot_thread.Prelude.Fallible.{◌>>=◌, ◌>>◌}
use plot_thread.Prelude.Bytes.{Bytes, copy_array}
use plot_thread.Prelude.BigEndian.{big_endian, from_big_endian}
use plot_thread.Representation.{Representation, Crypto, id}

pub record PlotHeader : Type 0 where
  pub previous : Bytes
  pub hash_list_root : Bytes
  pub time : ℤ
  pub target : Bytes
  pub thread_work : Bytes
  pub nonce : ℤ
  pub height : ℤ
  pub representation_count : ℤ

-- A plot that is not being scribed has no hasher.
pub record Plot : Type 0 where
  pub header : PlotHeader
  pub representations : List Representation
  pub hasher : Option Bytes

-- MAX_REPRESENTATIONS_PER_PLOT
abbrev pub max_representations_per_plot : ℕ
max_representations_per_plot = 2147483647

-- `GetBigInt`
abbrev pub get_big_int : Bytes → ℕ
get_big_int id = from_big_endian id

-- `SetBigInt` of a number that is not negative.
unfoldable pub set_big_int : ℕ → Result Bytes
set_big_int i = if ltb i (2 ^ 256) then ok (big_endian 32 i) else panic

unfoldable pub compute_plot_work : Bytes → ℕ
compute_plot_work target =
    if leb (get_big_int target) 0 then 0 else 2 ^ 256 / (get_big_int target + 1)

unfoldable pub compute_thread_work : Bytes → Bytes → Result Bytes
compute_thread_work target thread_work =
    set_big_int (get_big_int thread_work + compute_plot_work target)

unfoldable pub check_pow : Plot → Bytes → Bool
check_pow plot plot_id = leb (get_big_int plot_id) (get_big_int plot.header.target)

module _ (c : Crypto) where
  -- The IDs of representations, one after the other.
  unfoldable pub write_ids : List Representation → Result Bytes
  write_ids [] = ok []
  write_ids (tx ∷ txs) = do tx_id ← id c tx; rest ← write_ids txs; ok (tx_id ++ rest)

  unfoldable pub add_plotroot_to_hash_list_root : Bytes → Representation → Result Bytes
  add_plotroot_to_hash_list_root written plotroot = do
    tx_id ← id c plotroot
    ok (copy_array 32 (c.sum256 (tx_id ++ c.sum256 written)))

  -- What the hasher has taken in comes first; a plot with no representation is out of range.
  unfoldable pub compute_hash_list_root : Bytes → List Representation → Result (Bytes × Bytes)
  compute_hash_list_root hasher [] = panic
  compute_hash_list_root hasher (plotroot ∷ txs) = do
    ids ← write_ids txs
    root ← add_plotroot_to_hash_list_root (hasher ++ ids) plotroot
    ok (root, hasher ++ ids)

  -- The clock and the random nonce are arguments.
  unfoldable pub new_plot : ℤ → ℤ → Bytes → ℤ → Bytes → Bytes → List Representation → Result Plot
  new_plot now rand previous height target thread_work representations = do
    refuse (ltb max_representations_per_plot (length representations)) Error.too_many
    (root, hasher) ← compute_hash_list_root [] representations
    work ← compute_thread_work target thread_work
    ok (record {
      header = record {
        previous = previous;
        hash_list_root = root;
        time = now;
        target = target;
        thread_work = work;
        nonce = rand;
        height = height;
        representation_count = pos (length representations);
      };
      representations = representations;
      hasher = some hasher;
    })

  -- `int32` wraps. A plot that has no hasher, or no representation, stops the program.
  -- After an error there is no plot, although the source has written the ID to the hasher by then.
  unfoldable pub next_count : ℤ → ℤ
  next_count n = if ltb_ℤ n (pos 2147483647) then add64 n (pos 1) else negsuc 2147483647

  unfoldable pub add_with :
      Bytes → Representation → Bytes → List Representation → Plot → Result Plot
  add_with tx_id tx hasher [] plot = panic
  add_with tx_id tx hasher (plotroot ∷ txs) plot = do
    root ← add_plotroot_to_hash_list_root (hasher ++ tx_id) plotroot
    ok (record {
      header = record plot.header {
        hash_list_root = root;
        representation_count = next_count plot.header.representation_count;
      };
      representations = plot.representations ++ tx ∷ [];
      hasher = some (hasher ++ tx_id);
    })

  unfoldable pub add_representation : Bytes → Representation → Plot → Result Plot
  unfolding add_with
  add_representation tx_id tx plot = elim plot.hasher [
    | none ↦ panic
    | some hasher ↦ add_with tx_id tx hasher plot.representations plot
  ]

-- `header.ID()`: json.Marshal of a header is a parameter.
module _ (c : Crypto) (marshal_header : PlotHeader → Result Bytes) where
  unfoldable pub header_id : PlotHeader → Result Bytes
  header_id header = do header_json ← marshal_header header; ok (c.sum256 header_json)

  -- An ID that cannot be computed stops the program.
  unfoldable pub lesser_id : PlotHeader → PlotHeader → Result Bool
  lesser_id this their = elim (header_id this) [
    | ok this_id ↦ elim (header_id their) [
      | ok their_id ↦ ok (ltb (get_big_int this_id) (get_big_int their_id))
      | _ ↦ panic
    ]
    | _ ↦ panic
  ]

  -- Most work, then stored first, then the lesser ID.
  unfoldable pub compare : PlotHeader → PlotHeader → ℤ → ℤ → Result Bool
  compare this their this_when their_when =
      let this_work = get_big_int this.thread_work in
      let their_work = get_big_int their.thread_work in
      if ltb their_work this_work
      then ok true
      else if ltb this_work their_work
      then ok false
      else if ltb_ℤ this_when their_when
      then ok true
      else if ltb_ℤ their_when this_when
      then ok false
      else lesser_id this their
