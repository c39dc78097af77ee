-- ===== src/LedgerDisk/Keys.antt =====
-- ledger_disk.go: the keys of the tables and the encodings of their values.
pub mod Codec
use plot_thread.Prelude.{
  ℕ, suc, ◌%◌, ◌^◌, ◌≡◌, Bool, true, false, Option, none, some, List, [], ◌∷◌, ◌++◌, ltb, length,
  take, drop, if◌then◌else◌, ℤ, pos, sub_ℕ, Result, ok, err, bind, refuse, Error,
}
use plot_thread.Prelude.Fallible.{◌>>=◌, ◌>>◌}
use plot_thread.Prelude.Bytes.{Bytes, copy_array}
use plot_thread.Prelude.BigEndian.{big_endian, from_big_endian, write_int64, read_int64}

unfoldable pub compute_branch_type_key : Bytes → Bytes
compute_branch_type_key plot_id = b'B' ∷ plot_id

unfoldable pub compute_plot_height_index_key : ℤ → Bytes
compute_plot_height_index_key height = b'h' ∷ write_int64 height

unfoldable pub compute_thread_tip_key : Bytes
compute_thread_tip_key = b'T' ∷ []

unfoldable pub compute_representation_index_key : Bytes → Bytes
compute_representation_index_key tx_id = b't' ∷ tx_id

-- `int32(index)` of an index in a list.
unfoldable pub write_index : ℕ → Bytes
write_index index = big_endian 4 (index % 2 ^ 32)

-- Without a height, or without an index, the key is a prefix.
unfoldable pub compute_pub_key_representation_index_key : Bytes → Option ℤ → Option ℕ → Bytes
compute_pub_key_representation_index_key pub_key none index = b'k' ∷ pub_key
compute_pub_key_representation_index_key pub_key (some height) none =
    b'k' ∷ (pub_key ++ write_int64 height)
compute_pub_key_representation_index_key pub_key (some height) (some index) =
    b'k' ∷ (pub_key ++ (write_int64 height ++ write_index index))

unfoldable pub compute_pub_key_imbalance_key : Bytes → Bytes
compute_pub_key_imbalance_key pub_key = b'b' ∷ pub_key

unfoldable pub encode_thread_tip : Bytes → ℤ → Bytes
encode_thread_tip plot_id height = plot_id ++ write_int64 height

unfoldable pub encode_number : ℤ → Bytes
encode_number num = write_int64 num

unfoldable pub encode_representation_index : ℤ → ℕ → Bytes
encode_representation_index height index = write_int64 height ++ write_index index

-- `binary.Read` of n bytes: those bytes and the rest, or an error.
unfoldable pub read_bytes : ℕ → Bytes → Result (Bytes × Bytes)
read_bytes n b = if ltb (length b) n then err Error.unexpected_eof else ok (take n b, drop n b)

-- `int(int32)`: an index from 2 ^ 31 on comes back negative.
unfoldable pub read_index : Bytes → ℤ
read_index b = let n = from_big_endian b in if ltb n (2 ^ 31) then pos n else sub_ℕ n (2 ^ 32)

unfoldable pub decode_thread_tip : Bytes → Result (Bytes × ℤ)
decode_thread_tip ct_bytes = do
  (plot_id, rest) ← read_bytes 32 ct_bytes
  (height, _) ← read_bytes 8 rest
  ok (plot_id, read_int64 height)

unfoldable pub decode_representation_index : Bytes → Result (ℤ × ℤ)
decode_representation_index index_bytes = do
  (height, rest) ← read_bytes 8 index_bytes
  (index, _) ← read_bytes 4 rest
  ok (read_int64 height, read_index index)

unfoldable pub decode_pub_key_representation_index_key : Bytes → Result (Bytes × ℤ × ℤ)
decode_pub_key_representation_index_key key = do
  (_, from_key) ← read_bytes 1 key
  (pub_key, from_height) ← read_bytes 32 from_key
  (height, from_index) ← read_bytes 8 from_height
  (index, _) ← read_bytes 4 from_index
  ok (pub_key, read_int64 height, read_index index)
