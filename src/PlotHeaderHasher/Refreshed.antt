-- ===== src/PlotHeaderHasher/Refreshed.antt =====
-- plot_header_hasher.go: an update leaves the JSON of the new header in the buffer.
use plot_thread.Prelude.{
  ◌≡◌, refl, sym, ap, ◌∙◌, [], ◌∷◌, ◌++◌, length, drop, ℤ, pos, sub_ℕ, eqb_ℤ, arith, if◌then◌else◌,
}
use plot_thread.Prelude.Bytes.{Bytes, bytes_eq, bytes_eq_iff}
use plot_thread.Plot.{PlotHeader}
use plot_thread.Processor.Limits.{encode_hex}
use plot_thread.PlotHeaderHasher.{
  PlotHeaderHasher, format_int, write_at, shift, hdr_time, hdr_end, before_root, time_to_nonce,
  nonce_to_count, refresh, update_buffer,
}
use plot_thread.PlotHeaderHasher.Buffer.{concat, drop_front}
use plot_thread.PlotHeaderHasher.Filled.{
  up_to_time, up_to_nonce, up_to_count, encoded, IsFilled, stage, length-three, sub_ℕ-self,
  shift-sub_ℕ, same_text, rooted_lem, append_all, append_three, next, length-encode_hex,
}

module _ (header : PlotHeader) (root : Bytes) (time nonce count : ℤ) (h : PlotHeaderHasher)
    (sure : IsFilled header h) (long : length root ≡ length header.hash_list_root) where
  abbrev front : Bytes
  front = concat (before_root header)

  abbrev x₀ : Bytes
  x₀ = front ++ (encode_hex root ++ hdr_time)

  abbrev to_nonce : Bytes
  to_nonce = concat (time_to_nonce header)

  abbrev to_count : Bytes
  to_count = concat (nonce_to_count header)

  abbrev last : Bytes
  last = concat (hdr_end ∷ [])

  -- The old texts from the count on, from the nonce on, and from the time on.
  abbrev old_count : Bytes
  old_count = format_int header.representation_count ++ (last ++ sure.rest)

  abbrev old_nonce : Bytes
  old_nonce = format_int header.nonce ++ (to_count ++ old_count)

  abbrev old_time : Bytes
  old_time = format_int header.time ++ (to_nonce ++ old_nonce)

  rooted-written :
      (if bytes_eq h.previous_hash_list_root root
        then h.buffer
        else write_at h.hash_list_root_offset (encode_hex root) h.buffer)
      ≡ x₀ ++ old_time
  rooted-written =
      rw (sure.root_offset, sure.filled)
        (ap
            (λ b.
              if bytes_eq h.previous_hash_list_root root
              then b
              else write_at (length front) (encode_hex root) b)
            (append_all front (encode_hex header.hash_list_root) hdr_time (format_int header.time)
              to_nonce (format_int header.nonce) to_count (format_int header.representation_count)
              last sure.rest)
          ∙ rooted_lem front (encode_hex header.hash_list_root) (encode_hex root)
              (hdr_time ++ old_time) (bytes_eq h.previous_hash_list_root root)
              (omega (arith, length-encode_hex root, length-encode_hex header.hash_list_root, long))
              (λ same.
                ap encode_hex
                  (sym sure.root ∙ (bytes_eq_iff h.previous_hash_list_root root).0 same))
          ∙ sym (append_three front (encode_hex root) hdr_time old_time))

  -- The new texts up to the nonce, up to the count, and all.
  abbrev p₁ : Bytes
  p₁ = x₀ ++ (format_int time ++ to_nonce)

  abbrev p₂ : Bytes
  p₂ = p₁ ++ (format_int nonce ++ to_count)

  abbrev p₃ : Bytes
  p₃ = p₂ ++ (format_int count ++ last)

  -- The old ones, behind the new root.
  abbrev u₁ : Bytes
  u₁ = x₀ ++ (format_int header.time ++ to_nonce)

  abbrev u₂ : Bytes
  u₂ = u₁ ++ (format_int header.nonce ++ to_count)

  abbrev u₃ : Bytes
  u₃ = u₂ ++ (format_int header.representation_count ++ last)

  length-x₀ : length (up_to_time header) ≡ length x₀
  length-x₀ = omega (
    arith,
    length-three front (encode_hex header.hash_list_root) hdr_time,
    length-three front (encode_hex root) hdr_time,
    length-encode_hex root,
    length-encode_hex header.hash_list_root,
    long,
  )

  length-u₁ : length (up_to_nonce header) ≡ length u₁
  length-u₁ = omega (
    arith,
    length-x₀,
    length-three (up_to_time header) (format_int header.time) to_nonce,
    length-three x₀ (format_int header.time) to_nonce,
  )

  length-u₂ : length (up_to_count header) ≡ length u₂
  length-u₂ = omega (
    arith,
    length-u₁,
    length-three (up_to_nonce header) (format_int header.nonce) to_count,
    length-three u₁ (format_int header.nonce) to_count,
  )

  length-u₃ : length (encoded header) ≡ length u₃
  length-u₃ = omega (
    arith,
    length-u₂,
    length-three (up_to_count header) (format_int header.representation_count) last,
    length-three u₂ (format_int header.representation_count) last,
  )

  whole₂ : x₀ ++ old_time ≡ u₁ ++ old_nonce
  whole₂ = sym (append_three x₀ (format_int header.time) to_nonce old_nonce)

  whole₃ : x₀ ++ old_time ≡ u₂ ++ old_count
  whole₃ = whole₂ ∙ sym (append_three u₁ (format_int header.nonce) to_count old_count)

  timed :
      (buffer : Bytes)
      → buffer ≡ x₀ ++ old_time
      → refresh
          (eqb_ℤ h.previous_time time)
          (pos 0)
          h.time_offset
          (format_int time)
          h.time_len
          (time_to_nonce header)
          buffer
        ≡ (
          p₁ ++ drop (length p₁) (x₀ ++ old_time),
          sub_ℕ (length p₁) (length u₁),
          length (format_int time),
        )
  timed buffer before =
      stage (eqb_ℤ h.previous_time time) x₀ x₀ (format_int header.time) (format_int time)
        (time_to_nonce header) old_nonce (x₀ ++ old_time) (pos 0) h.time_offset h.time_len buffer
        (same_text h.previous_time header.time time sure.time) refl (sub_ℕ-self (length x₀))
        (sure.time_offset ∙ length-x₀) sure.time_len
        (before
          ∙ ap (λ t. x₀ ++ t)
              (sym (ap (λ n. drop n (x₀ ++ old_time)) (omega arith) ∙ drop_front x₀ old_time 0)))

  nonced :
      (buffer : Bytes) (offset : ℤ)
      → buffer ≡ p₁ ++ drop (length p₁) (x₀ ++ old_time)
      → offset ≡ sub_ℕ (length p₁) (length u₁)
      → refresh
          (eqb_ℤ h.previous_nonce nonce)
          offset
          (shift h.nonce_offset offset)
          (format_int nonce)
          h.nonce_len
          (nonce_to_count header)
          buffer
        ≡ (
          p₂ ++ drop (length p₂) (x₀ ++ old_time),
          sub_ℕ (length p₂) (length u₂),
          length (format_int nonce),
        )
  nonced buffer offset before moved =
      stage (eqb_ℤ h.previous_nonce nonce) p₁ u₁ (format_int header.nonce) (format_int nonce)
        (nonce_to_count header) old_count (x₀ ++ old_time) offset (shift h.nonce_offset offset)
        h.nonce_len buffer (same_text h.previous_nonce header.nonce nonce sure.nonce) whole₂ moved
        (ap (shift h.nonce_offset) moved
          ∙ shift-sub_ℕ h.nonce_offset (length p₁) (length u₁) (sure.nonce_offset ∙ length-u₁))
        sure.nonce_len before

  counted :
      (buffer : Bytes) (offset : ℤ)
      → buffer ≡ p₂ ++ drop (length p₂) (x₀ ++ old_time)
      → offset ≡ sub_ℕ (length p₂) (length u₂)
      → refresh
          (eqb_ℤ h.previous_representation_count count)
          offset
          (shift h.representation_count_offset offset)
          (format_int count)
          h.tx_count_len
          (hdr_end ∷ [])
          buffer
        ≡ (
          p₃ ++ drop (length p₃) (x₀ ++ old_time),
          sub_ℕ (length p₃) (length u₃),
          length (format_int count),
        )
  counted buffer offset before moved =
      stage (eqb_ℤ h.previous_representation_count count) p₂ u₂
        (format_int header.representation_count) (format_int count) (hdr_end ∷ []) sure.rest
        (x₀ ++ old_time) offset (shift h.representation_count_offset offset) h.tx_count_len buffer
        (same_text h.previous_representation_count header.representation_count count sure.count)
        whole₃ moved
        (ap (shift h.representation_count_offset) moved
          ∙ shift-sub_ℕ h.representation_count_offset (length p₂) (length u₂)
              (sure.count_offset ∙ length-u₂))
        sure.tx_count_len before

  pub update_buffer-IsFilled :
      IsFilled
        (next header root time nonce count)
        (update_buffer (next header root time nonce count) h)
  unfolding update_buffer before_root time_to_nonce nonce_to_count
  update_buffer-IsFilled =
      let e₁ = timed _ rooted-written in
      let e₂ = nonced _ _ (ap (λ t. t.0) e₁) (ap (λ t. t.1) e₁) in
      let e₃ = counted _ _ (ap (λ t. t.0) e₂) (ap (λ t. t.1) e₂) in
      record {
        rest = drop (length p₃) (x₀ ++ old_time);
        filled = ap (λ t. t.0) e₃;
        initialized = refl;
        root = refl;
        time = refl;
        nonce = refl;
        count = refl;
        root_offset = sure.root_offset;
        time_offset = sure.time_offset ∙ length-x₀;
        nonce_offset =
            ap (λ t. shift h.nonce_offset t.1) e₁
            ∙ shift-sub_ℕ h.nonce_offset (length p₁) (length u₁) (sure.nonce_offset ∙ length-u₁);
        count_offset =
            ap (λ t. shift h.representation_count_offset t.1) e₂
            ∙ shift-sub_ℕ h.representation_count_offset (length p₂) (length u₂)
                (sure.count_offset ∙ length-u₂);
        time_len = ap (λ t. t.2) e₁;
        nonce_len = ap (λ t. t.2) e₂;
        tx_count_len = ap (λ t. t.2) e₃;
        buf_len =
            ap (λ t. shift h.buf_len t.1) e₃
            ∙ shift-sub_ℕ h.buf_len (length p₃) (length u₃) (sure.buf_len ∙ length-u₃);
      }
