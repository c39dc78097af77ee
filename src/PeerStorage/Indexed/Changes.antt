-- ===== src/PeerStorage/Indexed/Changes.antt =====
-- peer_storage_disk.go: every method that writes keeps the tables by time in agreement with the peers.
use plot_thread.Prelude.{◌≡◌, none, some, [], ◌∷◌, ℤ, pos, IsInt64, ◌<ℤ◌, ok, arith}
use plot_thread.Prelude.Bytes.{Bytes, bytes_eq, bytes_eq_refl}
use plot_thread.LedgerDisk.Database.{Database, puts, deletes, effect}
use plot_thread.PeerStorage.{
  PeerInfo, Gob, compute_peer_key, compute_last_attempt_time_key, compute_last_success_time_key,
}
use plot_thread.PeerStorage.Keys.{time_key_eq}
use plot_thread.PeerStorage.Disk.{mark, decode_found}
use plot_thread.PeerStorage.Indexed.{IsCodec, HasTimes, Settles}

module _ (gob : Gob) {D : Type 0} (database : Database D) (codec : IsCodec gob) where
  open database use {get, write}

  pub new_peer-Settles :
      (addr encoded : Bytes) (info : PeerInfo)
      → gob.encode_peer_info info ≡ ok encoded
      → IsInt64 info.last_attempt
      → info.last_success ≡ pos 0
      → Settles gob database addr none (some info) (
          puts (compute_peer_key addr) encoded
          ∷ puts (compute_last_attempt_time_key info.last_attempt addr) mark
          ∷ [])
  unfolding effect bytes_eq decode_found compute_peer_key compute_last_attempt_time_key
      compute_last_success_time_key
  new_peer-Settles addr encoded info e fits never = record {
    has_times = (fits, rw never (omega arith, omega arith));
    stored = λ v. ground (arith, codec info encoded e, bytes_eq_refl addr);
    attempts = λ t fits'.
        ground (arith, time_key_eq info.last_attempt t addr addr fits fits', bytes_eq_refl addr);
    successes = λ t fits'. ground (arith, never);
    other_stored = λ other v apart. ground (arith, apart);
    other_attempts = λ other t v fits' apart.
        ground (arith, time_key_eq info.last_attempt t addr other fits fits', apart);
    other_successes = λ other t v fits' apart. ground arith;
  }

  pub attempt-Settles :
      (addr encoded : Bytes) (info : PeerInfo) (now : ℤ)
      → gob.encode_peer_info (record info { last_attempt = now }) ≡ ok encoded
      → HasTimes (some info)
      → IsInt64 now
      → Settles gob database addr (some info) (some (record info { last_attempt = now })) (
          deletes (compute_last_attempt_time_key info.last_attempt addr)
          ∷ puts (compute_peer_key addr) encoded
          ∷ puts (compute_last_attempt_time_key now addr) mark
          ∷ [])
  unfolding effect bytes_eq decode_found compute_peer_key compute_last_attempt_time_key
      compute_last_success_time_key
  attempt-Settles addr encoded info now e times fits = record {
    has_times = (fits, times.1);
    stored = λ v.
        ground (arith, codec (record info { last_attempt = now }) encoded e, bytes_eq_refl addr);
    attempts = λ t fits'. ground (
      arith,
      time_key_eq info.last_attempt t addr addr times.0 fits',
      time_key_eq now t addr addr fits fits',
      bytes_eq_refl addr,
    );
    successes = λ t fits'. ground arith;
    other_stored = λ other v apart. ground (arith, apart);
    other_attempts = λ other t v fits' apart. ground (
      arith,
      time_key_eq info.last_attempt t addr other times.0 fits',
      time_key_eq now t addr other fits fits',
      apart,
    );
    other_successes = λ other t v fits' apart. ground arith;
  }

  pub success-Settles :
      (addr encoded : Bytes) (info : PeerInfo) (now : ℤ)
      → gob.encode_peer_info (record info { last_success = now }) ≡ ok encoded
      → HasTimes (some info)
      → IsInt64 now
      → pos 0 <ℤ now
      → Settles gob database addr (some info) (some (record info { last_success = now })) (
          deletes (compute_last_success_time_key info.last_success addr)
          ∷ puts (compute_peer_key addr) encoded
          ∷ puts (compute_last_success_time_key now addr) mark
          ∷ [])
  unfolding effect bytes_eq decode_found compute_peer_key compute_last_attempt_time_key
      compute_last_success_time_key
  success-Settles addr encoded info now e times fits late = record {
    has_times = (times.0, fits);
    stored = λ v.
        ground (arith, codec (record info { last_success = now }) encoded e, bytes_eq_refl addr);
    attempts = λ t fits'. ground arith;
    successes = λ t fits'. ground (
      arith,
      late,
      time_key_eq info.last_success t addr addr times.1 fits',
      time_key_eq now t addr addr fits fits',
      bytes_eq_refl addr,
    );
    other_stored = λ other v apart. ground (arith, apart);
    other_attempts = λ other t v fits' apart. ground arith;
    other_successes = λ other t v fits' apart. ground (
      arith,
      time_key_eq info.last_success t addr other times.1 fits',
      time_key_eq now t addr other fits fits',
      apart,
    );
  }

  pub delete_peer-Settles :
      (addr : Bytes) (info : PeerInfo)
      → HasTimes (some info)
      → Settles gob database addr (some info) none (
          deletes (compute_peer_key addr)
          ∷ deletes (compute_last_attempt_time_key info.last_attempt addr)
          ∷ deletes (compute_last_success_time_key info.last_success addr)
          ∷ [])
  unfolding effect bytes_eq decode_found compute_peer_key compute_last_attempt_time_key
      compute_last_success_time_key
  delete_peer-Settles addr info times = record {
    has_times = tt;
    stored = λ v. ground (arith, bytes_eq_refl addr);
    attempts = λ t fits'.
        ground (arith, time_key_eq info.last_attempt t addr addr times.0 fits', bytes_eq_refl addr);
    successes = λ t fits'.
        ground (arith, time_key_eq info.last_success t addr addr times.1 fits', bytes_eq_refl addr);
    other_stored = λ other v apart. ground (arith, apart);
    other_attempts = λ other t v fits' apart.
        ground (arith, time_key_eq info.last_attempt t addr other times.0 fits', apart);
    other_successes = λ other t v fits' apart.
        ground (arith, time_key_eq info.last_success t addr other times.1 fits', apart);
  }
