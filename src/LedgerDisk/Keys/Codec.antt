-- ===== src/LedgerDisk/Keys/Codec.antt =====
-- ledger_disk.go: what the tables hold is read back as it was written.
use plot_thread.Prelude.{
  ℕ, ◌%◌, ◌^◌, ◌≡◌, ◌<◌, refl, some, [], ◌∷◌, ◌++◌, length, length-append, take, drop, ℤ, pos,
  IsInt64, ok, arith,
}
use mathlib.Core.List.{append-nil}
use plot_thread.Prelude.Bytes.{Bytes}
use plot_thread.Prelude.BigEndian.{
  write_int64, read_int64-write_int64, length-big_endian, from_big_endian-big_endian, to_uint64,
}
use plot_thread.LedgerDisk.Keys.{
  write_index, read_index, read_bytes, encode_thread_tip, decode_thread_tip,
  encode_representation_index, decode_representation_index,
  compute_pub_key_representation_index_key, decode_pub_key_representation_index_key,
}

take-append : (xs ys : Bytes) → take (length xs) (xs ++ ys) ≡ xs
take-append [] ys = refl
take-append (x ∷ xs) ys = ground (arith, take-append xs ys)

drop-append : (xs ys : Bytes) → drop (length xs) (xs ++ ys) ≡ ys
drop-append [] ys = refl
drop-append (x ∷ xs) ys = drop-append xs ys

-- A field of its length is read off the front.
pub read_bytes-append :
    (n : ℕ) (xs ys : Bytes) → length xs ≡ n → read_bytes n (xs ++ ys) ≡ ok (xs, ys)
unfolding read_bytes
read_bytes-append n xs ys h =
    rw (← h) (ground (arith, length-append xs ys, take-append xs ys, drop-append xs ys))

read_bytes-all : (n : ℕ) (xs : Bytes) → length xs ≡ n → read_bytes n xs ≡ ok (xs, [])
read_bytes-all n xs h = rw (append-nil) at (read_bytes-append n xs [] h)

pub length-write_int64 : (x : ℤ) → length (write_int64 x) ≡ 8
unfolding write_int64
length-write_int64 x = length-big_endian 8 (to_uint64 x)

length-write_index : (i : ℕ) → length (write_index i) ≡ 4
unfolding write_index
length-write_index i = length-big_endian 4 (i % 2 ^ 32)

read_index-write_index : (i : ℕ) → i < 2147483648 → read_index (write_index i) ≡ pos i
unfolding read_index write_index
read_index-write_index i h = ground (arith, from_big_endian-big_endian 4 i)

-- The tip, the index of a representation and the index of a key's representation are decoded to
-- what was encoded, for IDs and keys of 32 bytes, heights in int64 and list indices below 2 ^ 31.
pub decode-encode :
    (b : Bytes) (height : ℤ) (i : ℕ)
    → length b ≡ 32
    → IsInt64 height
    → i < 2147483648
    → (decode_thread_tip (encode_thread_tip b height) ≡ ok (b, height))
      × (decode_representation_index (encode_representation_index height i) ≡ ok (height, pos i))
      × (decode_pub_key_representation_index_key
            (compute_pub_key_representation_index_key b (some height) (some i))
          ≡ ok (b, height, pos i))
unfolding decode_thread_tip encode_thread_tip decode_representation_index
    encode_representation_index decode_pub_key_representation_index_key
    compute_pub_key_representation_index_key
decode-encode b height i hb hh hi =
    let h = write_int64 height in
    let x = write_index i in
    let number = read_int64-write_int64 height hh in
    let index = read_index-write_index i hi in
    let last = read_bytes-all 4 x (length-write_index i) in
    (
      ground (
        arith,
        number,
        read_bytes-append 32 b h hb,
        read_bytes-all 8 h (length-write_int64 height),
      ),
      ground (arith, number, index, last, read_bytes-append 8 h x (length-write_int64 height)),
      ground (
        arith,
        number,
        index,
        last,
        read_bytes-append 1 (b'k' ∷ []) (b ++ (h ++ x)) refl,
        read_bytes-append 32 b (h ++ x) hb,
        read_bytes-append 8 h x (length-write_int64 height),
      ),
    )
