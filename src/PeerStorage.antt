-- ===== src/PeerStorage.antt =====
-- peer_storage_disk.go: what is stored of a peer, the keys of the tables, and when to try again. The
-- clock is an argument, in seconds, and encoding/gob and floating-point square roots are parameters.
pub mod Keys
pub mod Disk
pub mod Listing
pub mod Indexed
use plot_thread.Prelude.{
  ℕ, suc, ◌*◌, ◌-◌, ◌^◌, ◌≡◌, Bool, true, false, if◌then◌else◌, List, [], ◌∷◌, ◌++◌, ℤ, pos, negsuc,
  ltb_ℤ, leb_ℤ, eqb_ℤ, sub64, quot_ℤ, ◌-ℤ◌, Result, ok, bind,
}
use plot_thread.Prelude.Fallible.{◌>>=◌}
use plot_thread.Prelude.Bytes.{Bytes}
use plot_thread.Prelude.BigEndian.{write_int64, read_int64}
use plot_thread.LedgerDisk.Keys.{read_bytes}

pub record PeerInfo : Type 0 where
  pub first_seen : ℤ
  pub last_attempt : ℤ
  pub last_success : ℤ

-- encoding/gob of a `peerInfo`.
pub record Gob : Type 0 where
  pub encode_peer_info : PeerInfo → Result Bytes
  pub decode_peer_info : Bytes → Result PeerInfo

-- `1 << 30`: times below it are those of peers that were never tried.
abbrev pub tried_from : ℕ
tried_from = 2 ^ 30

-- When the peer was seen last; one that never was is as old as its entry.
unfoldable pub last_seen : PeerInfo → ℤ
last_seen info = if eqb_ℤ info.last_success (pos 0) then info.first_seen else info.last_success

-- `int64(math.Ceil(math.Sqrt(float64(hours))))` is a parameter.
unfoldable pub should_retry : (ℤ → ℤ) → PeerInfo → ℤ → Bool
should_retry ceil_sqrt info now =
    let hours_since_last_seen = quot_ℤ (sub64 now (last_seen info)) 3600 in
    let minutes_since_last_attempt = quot_ℤ (sub64 now info.last_attempt) 60 in
    let hours_since_last_attempt = quot_ℤ minutes_since_last_attempt 60 in
    if ltb_ℤ info.last_attempt (pos tried_from)
    then true
    else if leb_ℤ hours_since_last_seen (pos 0)
    then ltb_ℤ (pos 10) minutes_since_last_attempt
    else ltb_ℤ (ceil_sqrt hours_since_last_seen) hours_since_last_attempt

unfoldable pub nanoseconds : ℤ → ℤ
nanoseconds (pos n) = pos (n * 1000000000)
nanoseconds (negsuc n) = negsuc (suc n * 1000000000 - 1)

-- More than a week after the last success; the clock is in nanoseconds here.
unfoldable pub should_delete : PeerInfo → ℤ → Bool
should_delete info now =
    if eqb_ℤ info.last_success (pos 0)
    then true
    else ltb_ℤ (pos 604800000000000) (now -ℤ nanoseconds info.last_success)

unfoldable pub compute_peer_key : Bytes → Bytes
compute_peer_key addr = b'p' ∷ addr

unfoldable pub compute_last_attempt_time_key : ℤ → Bytes → Bytes
compute_last_attempt_time_key when addr = b'a' ∷ (write_int64 when ++ addr)

unfoldable pub compute_last_success_time_key : ℤ → Bytes → Bytes
compute_last_success_time_key when addr = b's' ∷ (write_int64 when ++ addr)

unfoldable pub decode_last_attempt_time_key : Bytes → Result (ℤ × Bytes)
decode_last_attempt_time_key key = do
  (_, from_when) ← read_bytes 1 key
  (when, addr) ← read_bytes 8 from_when
  ok (read_int64 when, addr)

unfoldable pub decode_last_success_time_key : Bytes → Result (ℤ × Bytes)
decode_last_success_time_key key = do
  (_, from_when) ← read_bytes 1 key
  (when, addr) ← read_bytes 8 from_when
  ok (read_int64 when, addr)
