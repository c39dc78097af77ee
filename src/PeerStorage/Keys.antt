-- ===== src/PeerStorage/Keys.antt =====
-- peer_storage_disk.go: the keys of peers and times, compared and decoded.
use plot_thread.Prelude.{
  ◌≡◌, refl, sym, ap, ◌∙◌, ◌&&◌, Bool-cases, [], ◌∷◌, ◌++◌, ℤ, IsInt64, eqb_ℤ, ok, arith, inl, inr,
}
use plot_thread.Prelude.Bytes.{Bytes, bytes_eq, bytes_eq_iff, bytes_eq_refl}
use plot_thread.Prelude.BigEndian.{write_int64, read_int64, read_int64-write_int64}
use plot_thread.LedgerDisk.Keys.{read_bytes}
use plot_thread.LedgerDisk.Keys.Codec.{read_bytes-append, length-write_int64}
use plot_thread.PeerStorage.{
  compute_last_attempt_time_key, compute_last_success_time_key, decode_last_attempt_time_key,
  decode_last_success_time_key,
}

-- The keys of two times and addresses are the same only for the same of both.
pub time_key_eq :
    (s t : ℤ) (x y : Bytes)
    → IsInt64 s
    → IsInt64 t
    → bytes_eq (write_int64 s ++ x) (write_int64 t ++ y) ≡ (eqb_ℤ s t && bytes_eq x y)
time_key_eq s t x y fits fits' =
    elim (Bool-cases (bytes_eq (write_int64 s ++ x) (write_int64 t ++ y))) [
      | inl same ↦
          let e : ok (write_int64 s, x) ≡ ok (write_int64 t, y) =
            sym (read_bytes-append 8 (write_int64 s) x (length-write_int64 s))
            ∙ ap (read_bytes 8) ((bytes_eq_iff (write_int64 s ++ x) (write_int64 t ++ y)).0 same)
            ∙ read_bytes-append 8 (write_int64 t) y (length-write_int64 t) in
          let times : write_int64 s ≡ write_int64 t = ground (arith, e) in
          let equal : s ≡ t =
            sym (read_int64-write_int64 s fits)
            ∙ ap read_int64 times
            ∙ read_int64-write_int64 t fits' in
          ground (arith, same, equal, e, bytes_eq_refl y)
      | inr apart ↦ ground (arith, apart, bytes_eq_iff x y, bytes_eq_refl (write_int64 t ++ y))
    ]

pub decode-compute :
    (when : ℤ) (addr : Bytes)
    → IsInt64 when
    → (decode_last_attempt_time_key (compute_last_attempt_time_key when addr) ≡ ok (when, addr))
      × (decode_last_success_time_key (compute_last_success_time_key when addr) ≡ ok (when, addr))
unfolding decode_last_attempt_time_key decode_last_success_time_key compute_last_attempt_time_key
    compute_last_success_time_key
decode-compute when addr fits =
    let back = read_int64-write_int64 when fits in
    let split = read_bytes-append 8 (write_int64 when) addr (length-write_int64 when) in
    (
      ground (arith, back, split, read_bytes-append 1 (b'a' ∷ []) (write_int64 when ++ addr) refl),
      ground (arith, back, split, read_bytes-append 1 (b's' ∷ []) (write_int64 when ++ addr) refl),
    )
