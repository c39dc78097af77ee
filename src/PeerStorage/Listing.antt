-- ===== src/PeerStorage/Listing.antt =====
-- peer_storage_disk.go: `Get` and `GetSince`, which list addresses. The clock is read once in a call;
-- taking a snapshot is taken to succeed.
pub mod Retried
pub mod Answered
use mathlib.Core.List.{reverse}
use plot_thread.Prelude.{
  ℕ, Bool, true, false, ◌==◌, Option, none, some, List, [], ◌∷◌, ◌++◌, length, ℤ, pos, Result, ok,
  bind,
}
use plot_thread.Prelude.Bytes.{Bytes}
use plot_thread.Prelude.Assoc.{Assoc, lookup}
use plot_thread.LedgerDisk.Database.{Database, Iteration}
use plot_thread.Processor.Target.{deref}
use plot_thread.PeerStorage.{
  PeerInfo, Gob, should_retry, compute_last_attempt_time_key, compute_last_success_time_key,
  decode_last_attempt_time_key, decode_last_success_time_key,
}
use plot_thread.PeerStorage.Disk.{PeerStorageDisk, get_peer_info}

abbrev pub is_connected : Option Bool → Bool
is_connected none = false
is_connected (some b) = true

-- The iterator's error, if it has one, or the addresses.
unfoldable pub after_iteration : Result (Unit {0}) → List Bytes → Result (List Bytes)
after_iteration r addrs = bind r (λ _. ok addrs)

module _ (gob : Gob) {D : Type 0} (database : Database D) (iteration : Iteration D) where
  -- Is the address skipped? An address without an entry stops the program.
  unfoldable pub is_skipped : (ℤ → ℤ) → Assoc Bool → ℤ → D → Bytes → Result Bool
  is_skipped ceil_sqrt connected_peers now d addr =
      elim (is_connected (lookup addr connected_peers)) [
        | true ↦ ok true
        | false ↦ bind (get_peer_info gob database addr d) (λ found.
            bind (deref found) (λ info. elim (should_retry ceil_sqrt info now) [
              | true ↦ ok false
              | false ↦ ok true
            ]))
      ]

  -- Over the entries that are left, on the addresses found so far.
  unfoldable pub get_from :
      (ℤ → ℤ) → Assoc Bool → ℤ → D → ℕ → List (Bytes × Bytes) → List Bytes → Result (List Bytes)
  get_from ceil_sqrt connected_peers now d count [] addrs = ok addrs
  get_from ceil_sqrt connected_peers now d count ((key, _) ∷ entries) addrs =
      bind (decode_last_attempt_time_key key) (λ decoded.
        bind (is_skipped ceil_sqrt connected_peers now d decoded.1) (λ skipped. elim skipped [
          | true ↦ get_from ceil_sqrt connected_peers now d count entries addrs
          | false ↦ elim (length (addrs ++ decoded.1 ∷ []) == count) [
            | true ↦ ok (addrs ++ decoded.1 ∷ [])
            | false ↦
                get_from ceil_sqrt connected_peers now d count entries (addrs ++ decoded.1 ∷ [])
          ]
        ]))

  unfoldable pub get : (ℤ → ℤ) → ℕ → ℤ → PeerStorageDisk D → Result (List Bytes)
  get ceil_sqrt count now p =
      let (entries, error) =
        iteration.range p.db (compute_last_attempt_time_key (pos 0) [])
          (compute_last_attempt_time_key now []) in
      bind (get_from ceil_sqrt p.connected_peers now p.db count entries []) (after_iteration error)

unfoldable pub since_from : ℕ → List (Bytes × Bytes) → List Bytes → Result (List Bytes)
since_from count [] addrs = ok addrs
since_from count ((key, _) ∷ entries) addrs = bind (decode_last_success_time_key key) (λ decoded.
    elim (length (addrs ++ decoded.1 ∷ []) == count) [
      | true ↦ ok (addrs ++ decoded.1 ∷ [])
      | false ↦ since_from count entries (addrs ++ decoded.1 ∷ [])
    ])

-- The latest successes first.
unfoldable pub get_since :
    {D : Type 0} → Iteration D → ℕ → ℤ → ℤ → PeerStorageDisk D → Result (List Bytes)
get_since iteration count when now p =
    let (entries, error) =
      iteration.range p.db (compute_last_success_time_key when [])
        (compute_last_success_time_key now []) in
    bind (since_from count (reverse entries) []) (after_iteration error)
