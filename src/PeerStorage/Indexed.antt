-- ===== src/PeerStorage/Indexed.antt =====
-- peer_storage_disk.go: the tables by time agree with what is stored of the peers.
pub mod Changes
pub mod Writes
pub mod Requests
use plot_thread.Prelude.{
  ◌≡◌, refl, ap, ◌∙◌, Bool, true, false, not, ◌&&◌, Bool-cases, Option, none, some, List, [], ◌∷◌,
  ◌++◌, ℤ, pos, eqb_ℤ, IsInt64, Result, ok, bind-eq-ok, arith, inl, inr,
}
use plot_thread.Prelude.Bytes.{Bytes, bytes_eq, bytes_eq_iff}
use plot_thread.LedgerDisk.Database.{Database, Op, effect, IsAtomic}
use plot_thread.PeerStorage.{
  PeerInfo, Gob, compute_peer_key, compute_last_attempt_time_key, compute_last_success_time_key,
}
use plot_thread.PeerStorage.Disk.{mark, decode_found, get_peer_info}

-- What is decoded is what was encoded.
abbrev pub IsCodec : Gob → Type 0
IsCodec gob =
    (info : PeerInfo) (encoded : Bytes)
    → gob.encode_peer_info info ≡ ok encoded
    → gob.decode_peer_info encoded ≡ ok info

abbrev pub marked : Bool → Option Bytes
marked true = some mark
marked false = none

-- The one time under which a peer is in the table of attempts.
abbrev pub attempted : Option PeerInfo → ℤ → Bool
attempted none t = false
attempted (some info) t = eqb_ℤ info.last_attempt t

-- And in that of successes, if there was one.
abbrev pub succeeded : Option PeerInfo → ℤ → Bool
succeeded none t = false
succeeded (some info) t = eqb_ℤ info.last_success t && not (eqb_ℤ t (pos 0))

abbrev pub HasTimes : Option PeerInfo → Type 0
HasTimes none = Unit
HasTimes (some info) = IsInt64 info.last_attempt × IsInt64 info.last_success

module _ (gob : Gob) {D : Type 0} (database : Database D) where
  open database use {get, write}

  pub record IsIndexedAt (d : D) (addr : Bytes) : Type 0 where
    pub found : Option PeerInfo
    pub has_times : HasTimes found
    pub stored : get_peer_info gob database addr d ≡ ok found
    pub attempts :
        (t : ℤ)
        → IsInt64 t
        → get d (compute_last_attempt_time_key t addr) ≡ ok (marked (attempted found t))
    pub successes :
        (t : ℤ)
        → IsInt64 t
        → get d (compute_last_success_time_key t addr) ≡ ok (marked (succeeded found t))

  abbrev pub IsIndexed : D → Type 0
  IsIndexed d = (addr : Bytes) → IsIndexedAt d addr

  -- A batch that takes one peer from one state to another, and leaves the others alone.
  pub record Settles (addr : Bytes) (before after : Option PeerInfo) (ops : List Op) : Type 0 where
    pub has_times : HasTimes after
    pub stored :
        (v : Option Bytes)
        → decode_found gob database (effect ops (compute_peer_key addr) v) ≡ ok after
    pub attempts :
        (t : ℤ)
        → IsInt64 t
        → effect ops (compute_last_attempt_time_key t addr) (marked (attempted before t))
          ≡ marked (attempted after t)
    pub successes :
        (t : ℤ)
        → IsInt64 t
        → effect ops (compute_last_success_time_key t addr) (marked (succeeded before t))
          ≡ marked (succeeded after t)
    pub other_stored :
        (other : Bytes) (v : Option Bytes)
        → bytes_eq addr other ≡ false
        → effect ops (compute_peer_key other) v ≡ v
    pub other_attempts :
        (other : Bytes) (t : ℤ) (v : Option Bytes)
        → IsInt64 t
        → bytes_eq addr other ≡ false
        → effect ops (compute_last_attempt_time_key t other) v ≡ v
    pub other_successes :
        (other : Bytes) (t : ℤ) (v : Option Bytes)
        → IsInt64 t
        → bytes_eq addr other ≡ false
        → effect ops (compute_last_success_time_key t other) v ≡ v

  module _ (atomic : IsAtomic database) where
    settled-IsIndexedAt :
        (addr : Bytes) (before after : Option PeerInfo) (ops : List Op) (d d' : D)
        → Settles addr before after ops
        → IsIndexedAt d addr
        → get_peer_info gob database addr d ≡ ok before
        → write ops d ≡ ok d'
        → IsIndexedAt d' addr
    unfolding get_peer_info
    settled-IsIndexedAt addr before after ops d d' settles at there done =
        let (v, read, decoded) =
          bind-eq-ok (get d (compute_peer_key addr)) (decode_found gob database) at.stored in
        let same : at.found ≡ before = ground (arith, at.stored, there) in
        record {
          found = after;
          has_times = settles.has_times;
          stored =
              ground (arith, atomic ops d d' (compute_peer_key addr) v done read, settles.stored v);
          attempts = λ t fits.
              atomic ops d d' (compute_last_attempt_time_key t addr) (marked (attempted before t))
                done (rw same at (at.attempts t fits))
              ∙ ap ok (settles.attempts t fits);
          successes = λ t fits.
              atomic ops d d' (compute_last_success_time_key t addr) (marked (succeeded before t))
                done (rw same at (at.successes t fits))
              ∙ ap ok (settles.successes t fits);
        }

    untouched-IsIndexedAt :
        (addr other : Bytes) (before after : Option PeerInfo) (ops : List Op) (d d' : D)
        → Settles addr before after ops
        → IsIndexedAt d other
        → bytes_eq addr other ≡ false
        → write ops d ≡ ok d'
        → IsIndexedAt d' other
    unfolding get_peer_info
    untouched-IsIndexedAt addr other before after ops d d' settles at apart done =
        let (v, read, decoded) =
          bind-eq-ok (get d (compute_peer_key other)) (decode_found gob database) at.stored in
        record {
          found = at.found;
          has_times = at.has_times;
          stored = ground (
            arith,
            atomic ops d d' (compute_peer_key other) v done read,
            settles.other_stored other v apart,
            decoded,
          );
          attempts = λ t fits.
              atomic ops d d' (compute_last_attempt_time_key t other)
                (marked (attempted at.found t)) done (at.attempts t fits)
              ∙ ap ok (settles.other_attempts other t (marked (attempted at.found t)) fits apart);
          successes = λ t fits.
              atomic ops d d' (compute_last_success_time_key t other)
                (marked (succeeded at.found t)) done (at.successes t fits)
              ∙ ap ok (settles.other_successes other t (marked (succeeded at.found t)) fits apart);
        }

    pub settled-IsIndexed :
        (addr : Bytes) (before after : Option PeerInfo) (ops : List Op) (d d' : D)
        → Settles addr before after ops
        → IsIndexed d
        → get_peer_info gob database addr d ≡ ok before
        → write ops d ≡ ok d'
        → IsIndexed d'
    settled-IsIndexed addr before after ops d d' settles indexed there done other =
        elim (Bool-cases (bytes_eq addr other)) [
          | inl same ↦
              rw (← (bytes_eq_iff addr other).0 same)
                (settled-IsIndexedAt addr before after ops d d' settles (indexed addr) there done)
          | inr apart ↦
              untouched-IsIndexedAt addr other before after ops d d' settles (indexed other) apart
                done
        ]
