-- ===== src/PlotHeaderHasher.antt =====
-- plot_header_hasher.go: the hasher that keeps a header's JSON in a buffer and changes it in place.
-- What is written past the end of the buffer would be lost to it; the buffer is as long as the
-- longest header.
pub mod Buffer
pub mod Filled
pub mod Refreshed
pub mod Hashed
use plot_thread.Prelude.{
  ℕ, zero, suc, ◌+◌, ◌-◌, ◌*◌, ◌/◌, ◌%◌, Bool, true, false, ◌&&◌, if◌then◌else◌, List, [], ◌∷◌,
  ◌++◌, ltb, length, take, drop, replicate, ℤ, pos, negsuc, sub_ℕ, eqb_ℤ, ◌+ℤ◌, Result,
}
use plot_thread.Prelude.Bytes.{Bytes, bytes_eq}
use plot_thread.Prelude.BigEndian.{from_big_endian}
use plot_thread.Plot.{PlotHeader}
use plot_thread.Processor.Limits.{encode_hex}

-- `strconv.AppendInt` in base 10 of an int64, which has 19 digits at most.
unfoldable pub digits : ℕ → ℕ → Bytes
digits zero n = []
digits (suc k) n = if ltb n 10 then (48 + n) ∷ [] else digits k (n / 10) ++ (48 + n % 10) ∷ []

unfoldable pub format_int : ℤ → Bytes
format_int (pos n) = digits 19 n
format_int (negsuc n) = b'-' ∷ digits 19 (suc n)

-- Writing into the buffer from an offset on.
unfoldable pub write_at : ℕ → Bytes → Bytes → Bytes
write_at offset w buffer = take offset buffer ++ (w ++ drop (offset + length w) buffer)

-- One after the other.
unfoldable pub write_all : ℕ → List Bytes → Bytes → Bytes
write_all offset [] buffer = buffer
write_all offset (w ∷ ws) buffer = write_all (offset + length w) ws (write_at offset w buffer)

unfoldable pub total : List Bytes → ℕ
total [] = 0
total (w ∷ ws) = length w + total ws

-- `n += offset`
unfoldable pub shift : ℕ → ℤ → ℕ
shift n (pos k) = n + k
shift n (negsuc k) = n - suc k

-- The static fields.
abbrev pub hdr_previous : Bytes
hdr_previous =
    b'{' ∷ b'"' ∷ b'p' ∷ b'r' ∷ b'e' ∷ b'v' ∷ b'i' ∷ b'o' ∷ b'u' ∷ b's' ∷ b'"' ∷ b':' ∷ b'"' ∷ []

abbrev pub hdr_hash_list_root : Bytes
hdr_hash_list_root =
    b'"' ∷ b',' ∷ b'"' ∷ b'h' ∷ b'a' ∷ b's' ∷ b'h' ∷ b'_' ∷ b'l' ∷ b'i' ∷ b's' ∷ b't' ∷ b'_' ∷ b'r'
    ∷ b'o' ∷ b'o' ∷ b't' ∷ b'"' ∷ b':' ∷ b'"' ∷ []

abbrev pub hdr_time : Bytes
hdr_time = b'"' ∷ b',' ∷ b'"' ∷ b't' ∷ b'i' ∷ b'm' ∷ b'e' ∷ b'"' ∷ b':' ∷ []

abbrev pub hdr_target : Bytes
hdr_target = b',' ∷ b'"' ∷ b't' ∷ b'a' ∷ b'r' ∷ b'g' ∷ b'e' ∷ b't' ∷ b'"' ∷ b':' ∷ b'"' ∷ []

abbrev pub hdr_thread_work : Bytes
hdr_thread_work =
    b'"' ∷ b',' ∷ b'"' ∷ b't' ∷ b'h' ∷ b'r' ∷ b'e' ∷ b'a' ∷ b'd' ∷ b'_' ∷ b'w' ∷ b'o' ∷ b'r' ∷ b'k'
    ∷ b'"' ∷ b':' ∷ b'"' ∷ []

abbrev pub hdr_nonce : Bytes
hdr_nonce = b'"' ∷ b',' ∷ b'"' ∷ b'n' ∷ b'o' ∷ b'n' ∷ b'c' ∷ b'e' ∷ b'"' ∷ b':' ∷ []

abbrev pub hdr_height : Bytes
hdr_height = b',' ∷ b'"' ∷ b'h' ∷ b'e' ∷ b'i' ∷ b'g' ∷ b'h' ∷ b't' ∷ b'"' ∷ b':' ∷ []

abbrev pub hdr_representation_count : Bytes
hdr_representation_count =
    b',' ∷ b'"' ∷ b'r' ∷ b'e' ∷ b'p' ∷ b'r' ∷ b'e' ∷ b's' ∷ b'e' ∷ b'n' ∷ b't' ∷ b'a' ∷ b't' ∷ b'i'
    ∷ b'o' ∷ b'n' ∷ b'_' ∷ b'c' ∷ b'o' ∷ b'u' ∷ b'n' ∷ b't' ∷ b'"' ∷ b':' ∷ []

abbrev pub hdr_end : Bytes
hdr_end = b'}' ∷ []

-- The static texts before and after the fields that change.
unfoldable pub before_root : PlotHeader → List Bytes
before_root header = hdr_previous ∷ encode_hex header.previous ∷ hdr_hash_list_root ∷ []

unfoldable pub time_to_nonce : PlotHeader → List Bytes
time_to_nonce header =
    hdr_target
    ∷ encode_hex header.target
    ∷ hdr_thread_work
    ∷ encode_hex header.thread_work
    ∷ hdr_nonce
    ∷ []

unfoldable pub nonce_to_count : PlotHeader → List Bytes
nonce_to_count header = hdr_height ∷ format_int header.height ∷ hdr_representation_count ∷ []

pub record PlotHeaderHasher : Type 0 where
  pub previous_hash_list_root : Bytes
  pub previous_time : ℤ
  pub previous_nonce : ℤ
  pub previous_representation_count : ℤ
  pub hash_list_root_offset : ℕ
  pub time_offset : ℕ
  pub nonce_offset : ℕ
  pub representation_count_offset : ℕ
  pub time_len : ℕ
  pub nonce_len : ℕ
  pub tx_count_len : ℕ
  pub initialized : Bool
  pub buf_len : ℕ
  pub buffer : Bytes

unfoldable pub new_plot_header_hasher : PlotHeaderHasher
new_plot_header_hasher = record {
  previous_hash_list_root = replicate 32 0;
  previous_time = pos 0;
  previous_nonce = pos 0;
  previous_representation_count = pos 0;
  hash_list_root_offset = 0;
  time_offset = 0;
  nonce_offset = 0;
  representation_count_offset = 0;
  time_len = 0;
  nonce_len = 0;
  tx_count_len = 0;
  initialized = false;
  buf_len = 0;
  buffer = replicate 438 0;
}

unfoldable pub init_buffer : PlotHeader → PlotHeaderHasher → PlotHeaderHasher
init_buffer header h =
    let root = encode_hex header.hash_list_root in
    let time = format_int header.time in
    let nonce = format_int header.nonce in
    let count = format_int header.representation_count in
    let root_offset = total (before_root header) in
    let time_offset = root_offset + (length root + length hdr_time) in
    let nonce_offset = time_offset + (length time + total (time_to_nonce header)) in
    let count_offset = nonce_offset + (length nonce + total (nonce_to_count header)) in
    record {
      previous_hash_list_root = header.hash_list_root;
      previous_time = header.time;
      previous_nonce = header.nonce;
      previous_representation_count = header.representation_count;
      hash_list_root_offset = root_offset;
      time_offset = time_offset;
      nonce_offset = nonce_offset;
      representation_count_offset = count_offset;
      time_len = length time;
      nonce_len = length nonce;
      tx_count_len = length count;
      initialized = true;
      buf_len = count_offset + (length count + length hdr_end);
      buffer = write_all count_offset (count ∷ hdr_end ∷ []) (
          write_all nonce_offset (nonce ∷ nonce_to_count header) (
            write_all time_offset (time ∷ time_to_nonce header) (
              write_all root_offset (root ∷ hdr_time ∷ [])
                (write_all 0 (before_root header) h.buffer))));
    }

-- A field that changed, or that has to move: its new text is written, and the texts after it too if
-- they have to move. What comes back is the buffer, how far the rest has moved, and the length.
unfoldable pub refresh : Bool → ℤ → ℕ → Bytes → ℕ → List Bytes → Bytes → Bytes × ℤ × ℕ
refresh same offset at text old_len texts buffer =
    let moved = offset +ℤ sub_ℕ (length text) old_len in
    if same && eqb_ℤ offset (pos 0)
    then (buffer, offset, old_len)
    else if eqb_ℤ moved (pos 0)
    then (write_at at text buffer, moved, length text)
    else (write_all at (text ∷ texts) buffer, moved, length text)

-- `Update` of a hasher that is initialized.
unfoldable pub update_buffer : PlotHeader → PlotHeaderHasher → PlotHeaderHasher
update_buffer header h =
    let rooted =
      if bytes_eq h.previous_hash_list_root header.hash_list_root
      then h.buffer
      else write_at h.hash_list_root_offset (encode_hex header.hash_list_root) h.buffer in
    let (timed, by_time, time_len) =
      refresh (eqb_ℤ h.previous_time header.time) (pos 0) h.time_offset (format_int header.time)
        h.time_len (time_to_nonce header) rooted in
    let nonce_offset = shift h.nonce_offset by_time in
    let (nonced, by_nonce, nonce_len) =
      refresh (eqb_ℤ h.previous_nonce header.nonce) by_time nonce_offset (format_int header.nonce)
        h.nonce_len (nonce_to_count header) timed in
    let count_offset = shift h.representation_count_offset by_nonce in
    let (counted, by_count, count_len) =
      refresh (eqb_ℤ h.previous_representation_count header.representation_count) by_nonce
        count_offset (format_int header.representation_count) h.tx_count_len (hdr_end ∷ [])
        nonced in
    record {
      previous_hash_list_root = header.hash_list_root;
      previous_time = header.time;
      previous_nonce = header.nonce;
      previous_representation_count = header.representation_count;
      hash_list_root_offset = h.hash_list_root_offset;
      time_offset = h.time_offset;
      nonce_offset = nonce_offset;
      representation_count_offset = count_offset;
      time_len = time_len;
      nonce_len = nonce_len;
      tx_count_len = count_len;
      initialized = true;
      buf_len = shift h.buf_len by_count;
      buffer = counted;
    }

unfoldable pub refill : PlotHeader → PlotHeaderHasher → PlotHeaderHasher
refill header h = if h.initialized then update_buffer header h else init_buffer header h

-- The hash of the header's JSON, as a number, and the hasher.
unfoldable pub update : (Bytes → Bytes) → PlotHeader → PlotHeaderHasher → ℕ × PlotHeaderHasher
update sum256 header h =
    let h' = refill header h in (from_big_endian (sum256 (take h'.buf_len h'.buffer)), h')
