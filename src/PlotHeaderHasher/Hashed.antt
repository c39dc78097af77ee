-- ===== src/PlotHeaderHasher/Hashed.antt =====
-- plot_header_hasher.go: through any updates, what is hashed is the JSON of the header.
use mathlib.Core.List.{append_assoc}
use plot_thread.Prelude.{
  ℕ, ◌+◌, ◌≡◌, refl, sym, ap, subst, ◌∙◌, false, List, [], ◌∷◌, ◌++◌, map, length, drop, ℤ, All,
  arith, if◌then◌else◌,
}
use plot_thread.Prelude.Bytes.{Bytes}
use plot_thread.Prelude.BigEndian.{from_big_endian}
use plot_thread.Plot.{PlotHeader}
use plot_thread.Processor.Limits.{encode_hex}
use plot_thread.PlotHeaderHasher.{
  PlotHeaderHasher, format_int, write_all, total, hdr_time, hdr_end, before_root, time_to_nonce,
  nonce_to_count, init_buffer, update_buffer, refill, update,
}
use plot_thread.PlotHeaderHasher.Buffer.{concat, length-concat, take_front, write_all-front}
use plot_thread.PlotHeaderHasher.Filled.{
  up_to_time, up_to_nonce, up_to_count, encoded, IsFilled, length-three, next,
}
use plot_thread.PlotHeaderHasher.Refreshed.{update_buffer-IsFilled}

-- Texts written behind those that are there.
written_on :
    (p : Bytes) (ws : List Bytes) (r buffer : Bytes) (at : ℕ)
    → at ≡ length p
    → buffer ≡ p ++ r
    → write_all at ws buffer ≡ (p ++ concat ws) ++ drop (total ws) r
written_on p ws r buffer at there before =
    rw (there, before)
      (write_all-front p ws r ∙ sym (append_assoc p (concat ws) (drop (total ws) r)))

module _ (header : PlotHeader) (h : PlotHeaderHasher) where
  time_offset_lem :
      total (before_root header) + (length (encode_hex header.hash_list_root) + length hdr_time)
      ≡ length (up_to_time header)
  time_offset_lem = omega (
    arith,
    length-concat (before_root header),
    length-three (concat (before_root header)) (encode_hex header.hash_list_root) hdr_time,
  )

  nonce_offset_lem :
      (n : ℕ)
      → n ≡ length (up_to_time header)
      → n + (length (format_int header.time) + total (time_to_nonce header))
        ≡ length (up_to_nonce header)
  nonce_offset_lem n e = omega (
    arith,
    e,
    length-concat (time_to_nonce header),
    length-three (up_to_time header) (format_int header.time) (concat (time_to_nonce header)),
  )

  count_offset_lem :
      (n : ℕ)
      → n ≡ length (up_to_nonce header)
      → n + (length (format_int header.nonce) + total (nonce_to_count header))
        ≡ length (up_to_count header)
  count_offset_lem n e = omega (
    arith,
    e,
    length-concat (nonce_to_count header),
    length-three (up_to_nonce header) (format_int header.nonce) (concat (nonce_to_count header)),
  )

  buf_len_lem :
      (n : ℕ)
      → n ≡ length (up_to_count header)
      → n + (length (format_int header.representation_count) + length hdr_end)
        ≡ length (encoded header)
  unfolding concat
  buf_len_lem n e = omega (
    arith,
    e,
    length-three (up_to_count header) (format_int header.representation_count)
        (concat (hdr_end ∷ [])),
  )

  init_buffer-IsFilled : IsFilled header (init_buffer header h)
  unfolding init_buffer concat
  init_buffer-IsFilled =
      let e₁ = written_on [] (before_root header) h.buffer h.buffer 0 refl refl in
      let e₂ =
        written_on (concat (before_root header)) (encode_hex header.hash_list_root ∷ hdr_time ∷ [])
          _ _ _ (sym (length-concat (before_root header))) e₁ in
      let e₃ =
        written_on (up_to_time header) (format_int header.time ∷ time_to_nonce header) _ _ _
          time_offset_lem e₂ in
      let e₄ =
        written_on (up_to_nonce header) (format_int header.nonce ∷ nonce_to_count header) _ _ _
          (nonce_offset_lem _ time_offset_lem) e₃ in
      let e₅ =
        written_on (up_to_count header) (format_int header.representation_count ∷ hdr_end ∷ []) _ _
          _ (count_offset_lem _ (nonce_offset_lem _ time_offset_lem)) e₄ in
      record {
        rest = _;
        filled = e₅;
        initialized = refl;
        root = refl;
        time = refl;
        nonce = refl;
        count = refl;
        root_offset = sym (length-concat (before_root header));
        time_offset = time_offset_lem;
        nonce_offset = nonce_offset_lem _ time_offset_lem;
        count_offset = count_offset_lem _ (nonce_offset_lem _ time_offset_lem);
        time_len = refl;
        nonce_len = refl;
        tx_count_len = refl;
        buf_len = buf_len_lem _ (count_offset_lem _ (nonce_offset_lem _ time_offset_lem));
      }

-- A root, a time, a nonce and a count.
abbrev pub Change : Type 0
Change = Bytes × ℤ × ℤ × ℤ

-- A header with each change made to it in turn.
unfoldable pub headers : PlotHeader → List Change → List PlotHeader
headers header [] = header ∷ []
headers header ((root, time, nonce, count) ∷ changes) =
    header ∷ headers (next header root time nonce count) changes

-- What `Update` returns for one header after the other.
unfoldable pub hashes : (Bytes → Bytes) → List PlotHeader → PlotHeaderHasher → List ℕ
hashes sum256 [] h = []
hashes sum256 (header ∷ rest) h =
    let (hash, h') = update sum256 header h in hash ∷ hashes sum256 rest h'

refill-again :
    (header : PlotHeader) (root : Bytes) (time nonce count : ℤ) (h : PlotHeaderHasher)
    → IsFilled header h
    → length root ≡ length header.hash_list_root
    → IsFilled (next header root time nonce count) (refill (next header root time nonce count) h)
unfolding refill
refill-again header root time nonce count h sure long =
    subst
      (λ b. IsFilled (next header root time nonce count) (
        if b
        then update_buffer (next header root time nonce count) h
        else init_buffer (next header root time nonce count) h))
      (sym sure.initialized) (update_buffer-IsFilled header root time nonce count h sure long)

refill-first :
    (header : PlotHeader) (h : PlotHeaderHasher)
    → h.initialized ≡ false
    → IsFilled header (refill header h)
unfolding refill
refill-first header h fresh =
    subst (λ b. IsFilled header (if b then update_buffer header h else init_buffer header h))
      (sym fresh) (init_buffer-IsFilled header h)

module _ (sum256 : Bytes → Bytes) where
  -- The hash of a header's whole JSON.
  abbrev pub hash_of : PlotHeader → ℕ
  hash_of header = from_big_endian (sum256 (encoded header))

  update-hash :
      (header : PlotHeader) (h : PlotHeaderHasher)
      → IsFilled header (refill header h)
      → (update sum256 header h).0 ≡ hash_of header
  unfolding update
  update-hash header h sure =
      ap (λ t. from_big_endian (sum256 t))
        (rw (sure.filled, sure.buf_len) (take_front (encoded header) sure.rest))

  hashes-filled :
      (header : PlotHeader) (changes : List Change) (h : PlotHeaderHasher) (n : ℕ)
      → IsFilled header (refill header h)
      → length header.hash_list_root ≡ n
      → All (λ change. length change.0 ≡ n) changes
      → hashes sum256 (headers header changes) h ≡ map hash_of (headers header changes)
  unfolding hashes headers update
  hashes-filled header [] h n sure size sized = ap (λ n. n ∷ []) (update-hash header h sure)
  hashes-filled header ((root, time, nonce, count) ∷ changes) h n sure size (long, sized) =
      let header' = next header root time nonce count in
      let after : IsFilled header' (refill header' (refill header h)) =
        refill-again header root time nonce count (refill header h) sure (long ∙ sym size) in
      ap (λ n. n ∷ hashes sum256 (headers header' changes) (refill header h))
        (update-hash header h sure)
      ∙ ap (λ ns. hash_of header ∷ ns)
          (hashes-filled header' changes (refill header h) n after long sized)

  -- A hasher that is new, or not initialized yet, and then gets one header after the other, with
  -- changes of the root, the time, the nonce and the count in any order and of any length, returns
  -- the hash of the whole JSON of each header. The roots are equally long.
  pub hashes-encoded :
      (header : PlotHeader) (changes : List Change) (h : PlotHeaderHasher)
      → h.initialized ≡ false
      → All (λ change. length change.0 ≡ length header.hash_list_root) changes
      → hashes sum256 (headers header changes) h ≡ map hash_of (headers header changes)
  hashes-encoded header changes h fresh sized =
      hashes-filled header changes h (length header.hash_list_root) (refill-first header h fresh)
        refl sized
