-- ===== src/PeerStorage/Disk.antt =====
-- peer_storage_disk.go: the methods of `PeerStorageDisk` that write. The clock is read once in a call.
use plot_thread.Prelude.{
  Bool, true, false, if◌then◌else◌, Option, none, some, List, [], ◌∷◌, ◌++◌, ℤ, pos, Result, ok,
  bind, some_or, Error,
}
use plot_thread.Prelude.Fallible.{◌>>=◌}
use plot_thread.Prelude.Bytes.{Bytes}
use plot_thread.Prelude.Assoc.{Assoc, insert, erase}
use plot_thread.LedgerDisk.Database.{Database, Op, puts, deletes}
use plot_thread.PeerStorage.{
  PeerInfo, Gob, should_delete, compute_peer_key, compute_last_attempt_time_key,
  compute_last_success_time_key,
}

pub record PeerStorageDisk (D : Type 0) : Type 0 where
  pub db : D
  pub connected_peers : Assoc Bool

-- The mark under the keys of times.
abbrev pub mark : Bytes
mark = 1 ∷ []

module _ (gob : Gob) {D : Type 0} (database : Database D) where
  open database use {get, write}

  unfoldable pub decode_found : Option Bytes → Result (Option PeerInfo)
  decode_found none = ok none
  decode_found (some encoded) = bind (gob.decode_peer_info encoded) (λ info. ok (some info))

  unfoldable pub get_peer_info : Bytes → D → Result (Option PeerInfo)
  get_peer_info addr d = bind (get d (compute_peer_key addr)) decode_found

  unfoldable pub write_to_batch : PeerInfo → Bytes → Result (List Op)
  write_to_batch info addr =
      bind (gob.encode_peer_info info) (λ encoded. ok (puts (compute_peer_key addr) encoded ∷ []))

  -- A new peer, with a random time below 2 ^ 30 as that of its last attempt.
  unfoldable pub store_new : Bytes → ℤ → ℤ → D → Result (Bool × D)
  store_new addr now random d =
      let info : PeerInfo = record {
        first_seen = now;
        last_attempt = random;
        last_success = pos 0;
      } in
      bind (write_to_batch info addr) (λ batch.
        bind (write (batch ++ puts (compute_last_attempt_time_key random addr) mark ∷ []) d)
          (λ d'. ok (true, d')))

  unfoldable pub store : Bytes → ℤ → ℤ → D → Result (Bool × D)
  store addr now random d =
      bind (get_peer_info addr d)
        (λ found. elim found [ some info ↦ ok (false, d) | none ↦ store_new addr now random d ])

  unfoldable pub delete_peer : Bytes → ℤ → ℤ → D → Result D
  delete_peer addr last_attempt last_success d =
      write
        (deletes (compute_peer_key addr)
          ∷ deletes (compute_last_attempt_time_key last_attempt addr)
          ∷ deletes (compute_last_success_time_key last_success addr)
          ∷ [])
        d

  unfoldable pub delete : Bytes → D → Result D
  delete addr d = do
    found ← get_peer_info addr d
    info ← some_or found Error.unknown_peer
    delete_peer addr info.last_attempt info.last_success d

  unfoldable pub on_connect_attempt : Bytes → ℤ → D → Result D
  on_connect_attempt addr now d = do
    found ← get_peer_info addr d
    info ← some_or found Error.unknown_peer
    batch ← write_to_batch (record info { last_attempt = now }) addr
    write
        (deletes (compute_last_attempt_time_key info.last_attempt addr)
          ∷ (batch ++ puts (compute_last_attempt_time_key now addr) mark ∷ []))
        d

  unfoldable pub on_connect_failure : Bytes → ℤ → D → Result D
  on_connect_failure addr now d = do
    found ← get_peer_info addr d
    info ← some_or found Error.unknown_peer
    if should_delete info now then delete_peer addr info.last_attempt info.last_success d else ok d

  unfoldable pub success_batch : Bytes → ℤ → PeerInfo → Result (List Op)
  success_batch addr now info = do
    batch ← write_to_batch (record info { last_success = now }) addr
    ok (
        deletes (compute_last_success_time_key info.last_success addr)
        ∷ (batch ++ puts (compute_last_success_time_key now addr) mark ∷ []))

  -- The peer is connected from now on.
  unfoldable pub on_connect_success : Bytes → ℤ → PeerStorageDisk D → Result (PeerStorageDisk D)
  on_connect_success addr now p = do
    found ← get_peer_info addr p.db
    info ← some_or found Error.unknown_peer
    batch ← success_batch addr now info
    d ← write batch p.db
    ok (record { db = d; connected_peers = insert addr true p.connected_peers })

unfoldable pub on_disconnect : {D : Type 0} → Bytes → PeerStorageDisk D → PeerStorageDisk D
on_disconnect addr p = record p { connected_peers = erase addr p.connected_peers }
