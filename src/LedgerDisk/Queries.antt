-- ===== src/LedgerDisk/Queries.antt =====
-- ledger_disk.go and ledger.go: the queries of the ledger, which read a database or a snapshot of it.
use plot_thread.Prelude.{ℕ, Option, none, some, List, [], ◌∷◌, ℤ, pos, Result, ok, err, panic, bind}
use mathlib.Core.Option
use plot_thread.Prelude.Fallible.{◌>>=◌}
use plot_thread.Prelude.Bytes.{Bytes, copy_array}
use plot_thread.Prelude.Assoc.{Assoc, insert}
use plot_thread.Prelude.BigEndian.{read_int64}
use plot_thread.LedgerDisk.Database.{Database, puts}
use plot_thread.LedgerDisk.Keys.{
  compute_branch_type_key, compute_plot_height_index_key, compute_thread_tip_key,
  compute_representation_index_key, compute_pub_key_imbalance_key, decode_thread_tip,
  decode_representation_index, read_bytes,
}

-- `BranchType`, as the byte that is stored.
abbrev pub main : ℕ
main = 0

abbrev pub side : ℕ
side = 1

abbrev pub unknown : ℕ
unknown = 3

-- The first byte; an empty value is out of range.
unfoldable pub decode_branch_type : Option Bytes → Result ℕ
decode_branch_type none = ok unknown
decode_branch_type (some []) = panic
decode_branch_type (some (b ∷ bs)) = ok b

-- An int64; the error of a value that is too short is ignored.
unfoldable pub decode_imbalance : Option Bytes → ℤ
decode_imbalance none = pos 0
decode_imbalance (some b) = elim (read_bytes 8 b) [
  | ok (number, _) ↦ read_int64 number
  | err _ ↦ pos 0
  | panic ↦ pos 0
]

unfoldable pub decode_tip : Option Bytes → Result (Option (Bytes × ℤ))
decode_tip none = ok none
decode_tip (some ct_bytes) = bind (decode_thread_tip ct_bytes) (λ tip. ok (some tip))

module _ {D : Type 0} (db : Database D) where
  open db use {get, write}

  unfoldable pub get_thread_tip : D → Result (Option (Bytes × ℤ))
  get_thread_tip d = do found ← get d compute_thread_tip_key; decode_tip found

  unfoldable pub get_plot_id_for_height : ℤ → D → Result (Option Bytes)
  get_plot_id_for_height height d = do
    found ← get d (compute_plot_height_index_key height)
    ok (Option.map (copy_array 32) found)

  unfoldable pub set_branch_type : Bytes → ℕ → D → Result D
  set_branch_type plot_id branch_type d =
      write (puts (compute_branch_type_key plot_id) (branch_type ∷ []) ∷ []) d

  unfoldable pub get_branch_type : Bytes → D → Result ℕ
  get_branch_type plot_id d = do
    found ← get d (compute_branch_type_key plot_id)
    decode_branch_type found

  unfoldable pub get_public_key_imbalance : D → Bytes → Result ℤ
  get_public_key_imbalance d pub_key = do
    found ← get d (compute_pub_key_imbalance_key pub_key)
    ok (decode_imbalance found)

  unfoldable pub collect_imbalances : D → List Bytes → Assoc ℤ → Result (Assoc ℤ)
  collect_imbalances d [] imbalances = ok imbalances
  collect_imbalances d (pub_key ∷ pub_keys) imbalances = do
    imbalance ← get_public_key_imbalance d pub_key
    collect_imbalances d pub_keys (insert (copy_array 32 pub_key) imbalance imbalances)

  -- The database is the snapshot.
  unfoldable pub get_public_key_imbalances : List Bytes → D → Result (Assoc ℤ × Option (Bytes × ℤ))
  get_public_key_imbalances pub_keys d = do
    tip ← get_thread_tip d
    imbalances ← collect_imbalances d pub_keys []
    ok (imbalances, tip)

  unfoldable pub index_of : D → Option Bytes → Result (Option Bytes × ℤ)
  index_of d none = ok (none, pos 0)
  index_of d (some index_bytes) = do
    (height, index) ← decode_representation_index index_bytes
    plot_id ← get_plot_id_for_height height d
    ok (plot_id, index)

  unfoldable pub get_representation_index : Bytes → D → Result (Option Bytes × ℤ)
  get_representation_index tx_id d = do
    found ← get d (compute_representation_index_key tx_id)
    index_of d found
