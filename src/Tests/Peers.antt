-- ===== src/Tests/Peers.antt =====
-- The theorems on the storage of peer addresses, at concrete inputs.
use plot_thread.Prelude.{
  ℕ, zero, suc, negsuc, pos_part, neg_part, Error, err, sub64, if◌then◌else◌, ◌==◌, ◌≡◌, ◌≢◌, ◌≤◌,
  refl, none, List, [], ◌∷◌, length, ℤ, pos, All, Result, ok, arith,
}
use plot_thread.Prelude.Bytes.{Bytes, bytes_eq}
use plot_thread.Prelude.Assoc.{Assoc, lookup, insert, erase}
use plot_thread.Prelude.BigEndian.{
  write_int64, read_int64, to_uint64, from_uint64, big_endian, from_big_endian,
}
use plot_thread.LedgerDisk.Database.{Iteration}
use plot_thread.LedgerDisk.Keys.{read_bytes}
use plot_thread.PeerStorage.{
  PeerInfo, Gob, should_retry, last_seen, compute_peer_key, compute_last_attempt_time_key,
  compute_last_success_time_key, decode_last_attempt_time_key,
}
use plot_thread.Processor.Target.{deref}
use plot_thread.PeerStorage.Disk as Disk
use plot_thread.PeerStorage.Disk.{
  PeerStorageDisk, decode_found, get_peer_info, write_to_batch, store_new, delete_peer, delete,
  on_connect_attempt, on_connect_success, success_batch,
}
use plot_thread.PeerStorage.Indexed.{IsCodec, IsIndexed}
use plot_thread.PeerStorage.Indexed.Requests.{
  IsTimely, Request, to_store, to_attempt, to_succeed, to_delete, answer, serve, serve-IsIndexed,
}
use plot_thread.PeerStorage.Listing.{after_iteration, is_skipped, get_from, get}
use plot_thread.PeerStorage.Listing.Retried.{IsRetried, get-IsRetried}
use plot_thread.PeerStorage.Listing.Answered.{IsAttempt, get_total}
use plot_thread.Tests.{alice, bob}
use plot_thread.Tests.Ledgers.{run_ops, store, store-IsAtomic}

abbrev of_parts : ℕ → ℕ → ℤ
of_parts p zero = pos p
of_parts p (suc n) = negsuc n

abbrev decoded : Bytes → Result PeerInfo
decoded (a ∷ b ∷ c ∷ d ∷ e ∷ f ∷ []) =
    ok (record {
      first_seen = of_parts a b;
      last_attempt = of_parts c d;
      last_success = of_parts e f;
    })
decoded bytes = err Error.unexpected_eof

abbrev encoded : ℤ → Bytes → Bytes
encoded x rest = pos_part x ∷ neg_part x ∷ rest

-- The parts of the three times.
abbrev gob : Gob
gob = record {
  encode_peer_info = λ info.
      ok (encoded info.first_seen (encoded info.last_attempt (encoded info.last_success [])));
  decode_peer_info = decoded;
}

of_parts_lem : (x : ℤ) → of_parts (pos_part x) (neg_part x) ≡ x
of_parts_lem (pos n) = refl
of_parts_lem (negsuc n) = refl

gob-IsCodec : IsCodec gob
gob-IsCodec info bytes e =
    let same : encoded info.first_seen (encoded info.last_attempt (encoded info.last_success []))
        ≡ bytes =
      ground (arith, e) in
    rw (← same) (
      ground (
        arith,
        of_parts_lem info.first_seen,
        of_parts_lem info.last_attempt,
        of_parts_lem info.last_success,
      ))

nothing-IsIndexed : IsIndexed gob store []
unfolding get_peer_info decode_found lookup
nothing-IsIndexed addr = record {
  found = none;
  has_times = tt;
  stored = refl;
  attempts = λ t fits. refl;
  successes = λ t fits. refl;
}

abbrev history : List Request
history =
    to_store alice (pos 1700000000) (pos 12345)
    ∷ to_store bob (pos 1700000000) (pos 54321)
    ∷ to_attempt alice (pos 1700000010)
    ∷ to_succeed alice (pos 1700000011)
    ∷ to_delete bob
    ∷ to_store bob (pos 1700000020) (pos 77)
    ∷ []

abbrev peers : PeerStorageDisk (Assoc Bytes)
peers = serve gob store history (record { db = []; connected_peers = [] })

history-IsTimely : All IsTimely history
history-IsTimely = (
  (omega arith, omega arith),
  (
    (omega arith, omega arith),
    (
      (omega arith, omega arith),
      (((omega arith, omega arith), omega arith), (tt, ((omega arith, omega arith), tt))),
    ),
  ),
)

serve-IsIndexed_example : IsIndexed gob store peers.db
serve-IsIndexed_example =
    serve-IsIndexed gob store gob-IsCodec store-IsAtomic history
      (record { db = []; connected_peers = [] }) history-IsTimely nothing-IsIndexed

peers-IsIndexed : IsIndexed gob store peers.db
peers-IsIndexed =
    serve-IsIndexed gob store gob-IsCodec store-IsAtomic history
      (record { db = []; connected_peers = [] }) history-IsTimely nothing-IsIndexed

-- The entries of the table of attempts, without their order.
abbrev attempts : Assoc Bytes → List (Bytes × Bytes)
attempts [] = []
attempts (([], v) ∷ d) = attempts d
attempts ((x ∷ xs, v) ∷ d) = if x == b'a' then (x ∷ xs, v) ∷ attempts d else attempts d

abbrev iteration : Iteration (Assoc Bytes)
iteration = record { range = λ d from to. (attempts d, ok tt) }

listed_lem : get gob store iteration (λ x. x) 5 (pos 1700000100) peers ≡ ok (bob ∷ [])
unfolding serve answer Disk.store store_new get_peer_info decode_found write_to_batch insert lookup
    erase run_ops bytes_eq compute_peer_key compute_last_attempt_time_key
    compute_last_success_time_key write_int64 to_uint64 big_endian on_connect_attempt
    on_connect_success success_batch delete delete_peer get get_from is_skipped should_retry
    last_seen deref decode_last_attempt_time_key read_bytes read_int64 from_big_endian from_uint64
    sub64 after_iteration
listed_lem = refl

get-IsRetried_example :
    All (IsRetried gob store iteration (λ x. x) (pos 1700000100) peers) (bob ∷ [])
    × (◌≢◌ {A = ℕ} 5 0 → length (bob ∷ []) ≤ 5)
get-IsRetried_example =
    get-IsRetried gob store iteration (λ x. x) (pos 1700000100) peers 5 (bob ∷ []) listed_lem

entries_lem :
    All
      (IsAttempt gob store iteration (λ x. x) (pos 1700000100) peers.db)
      (iteration.range peers.db
        (compute_last_attempt_time_key (pos 0) [])
        (compute_last_attempt_time_key (pos 1700000100) [])).0
unfolding serve answer Disk.store store_new get_peer_info decode_found write_to_batch insert lookup
    erase run_ops bytes_eq compute_peer_key compute_last_attempt_time_key
    compute_last_success_time_key write_int64 to_uint64 big_endian on_connect_attempt
    on_connect_success success_batch delete delete_peer
entries_lem = (
  (pos 1700000010, alice, (omega arith, omega arith), refl, refl),
  ((pos 77, bob, (omega arith, omega arith), refl, refl), tt),
)

get_total_example :
    (found : List Bytes) × (get gob store iteration (λ x. x) 5 (pos 1700000100) peers
      ≡ after_iteration (ok tt) found)
get_total_example =
    get_total gob store iteration (λ x. x) (pos 1700000100) peers 5 peers-IsIndexed entries_lem
