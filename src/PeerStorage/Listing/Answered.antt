-- ===== src/PeerStorage/Listing/Answered.antt =====
-- peer_storage_disk.go: `Get` answers, where the tables agree.
use plot_thread.Prelude.{
  ℕ, ap, ◌∙◌, ◌≡◌, refl, Bool, true, false, ◌==◌, Bool-cases, Option, none, some, List, [], ◌∷◌,
  ◌++◌, length, ℤ, pos, IsInt64, All, ok, bind, arith, inl, inr,
}
use plot_thread.Prelude.Bytes.{Bytes}
use plot_thread.Prelude.Assoc.{lookup}
use plot_thread.LedgerDisk.Database.{Database, Iteration}
use plot_thread.Processor.Target.{deref}
use plot_thread.PeerStorage.{PeerInfo, Gob, should_retry, compute_last_attempt_time_key}
use plot_thread.PeerStorage.Keys.{decode-compute}
use plot_thread.PeerStorage.Disk.{PeerStorageDisk, get_peer_info}
use plot_thread.PeerStorage.Indexed.{IsIndexedAt, IsIndexed, marked, attempted}
use plot_thread.PeerStorage.Listing.{is_connected, after_iteration, is_skipped, get_from, get}

marked-attempted :
    (found : Option PeerInfo) (t : ℤ) (v : Bytes)
    → marked (attempted found t) ≡ some v
    → (info : PeerInfo) × (found ≡ some info)
marked-attempted none t v e = cc
marked-attempted (some info) t v e = (info, refl)

module _ (gob : Gob) {D : Type 0} (database : Database D) (iteration : Iteration D)
    (ceil_sqrt : ℤ → ℤ) (now : ℤ) where
  -- An entry of the table of attempts.
  abbrev pub IsAttempt : D → Bytes × Bytes → Type 0
  IsAttempt d entry =
      (t : ℤ) × (addr : Bytes) × IsInt64 t
      × (entry.0 ≡ compute_last_attempt_time_key t addr)
      × (database.get d entry.0 ≡ ok (some entry.1))

  attempt-known :
      (d : D) (addr v : Bytes) (t : ℤ)
      → IsIndexedAt gob database d addr
      → IsInt64 t
      → database.get d (compute_last_attempt_time_key t addr) ≡ ok (some v)
      → (info : PeerInfo) × (get_peer_info gob database addr d ≡ ok (some info))
  attempt-known d addr v t at fits there =
      let entry : marked (attempted at.found t) ≡ some v =
        ground (arith, at.attempts t fits, there) in
      let (info, same) = marked-attempted at.found t v entry in (info, at.stored ∙ ap ok same)

  is_skipped_total :
      (p : PeerStorageDisk D) (addr : Bytes) (info : PeerInfo)
      → get_peer_info gob database addr p.db ≡ ok (some info)
      → (skipped : Bool) × (is_skipped gob database iteration ceil_sqrt p.connected_peers now p.db
            addr
          ≡ ok skipped)
  unfolding is_skipped deref
  is_skipped_total p addr info there =
      elim (Bool-cases (is_connected (lookup addr p.connected_peers))) [
        | inl on ↦ (true, rw (on, is_skipped) refl)
        | inr off ↦ elim (Bool-cases (should_retry ceil_sqrt info now)) [
          | inl retry ↦ (false, ground (arith, off, there, retry))
          | inr early ↦ (true, ground (arith, off, there, early))
        ]
      ]

  get_from_total :
      (p : PeerStorageDisk D) (count : ℕ) (entries : List (Bytes × Bytes)) (addrs : List Bytes)
      → IsIndexed gob database p.db
      → All (IsAttempt p.db) entries
      → (found : List Bytes) × (get_from gob database iteration ceil_sqrt p.connected_peers now p.db
            count entries addrs
          ≡ ok found)
  unfolding get_from
  get_from_total p count [] addrs indexed all = (addrs, refl)
  get_from_total p count (entry ∷ entries) addrs indexed ((t, addr, fits, key, there), rest) =
      let decoded = (decode-compute t addr fits).0 in
      let (info, stored) =
        attempt-known p.db addr entry.1 t (indexed addr) fits (rw key at there) in
      let (skipped, told) = is_skipped_total p addr info stored in
      let (found, more) = get_from_total p count entries addrs indexed rest in
      let (found', more') = get_from_total p count entries (addrs ++ addr ∷ []) indexed rest in
      elim (Bool-cases skipped) [
        | inl skip ↦ (found, ground (arith, key, decoded, told, skip, more))
        | inr keep ↦ elim (Bool-cases (length (addrs ++ addr ∷ []) == count)) [
          | inl full ↦ (addrs ++ addr ∷ [], ground (arith, key, decoded, told, keep, full))
          | inr few ↦ (found', ground (arith, key, decoded, told, keep, few, more'))
        ]
      ]

  -- Where the tables by time agree with the peers, and the iterator meets entries of the table of
  -- attempts, `Get` lists addresses or has the iterator's error: no address is without an entry.
  pub get_total :
      (p : PeerStorageDisk D) (count : ℕ)
      → IsIndexed gob database p.db
      → All
          (IsAttempt p.db)
          (iteration.range p.db
            (compute_last_attempt_time_key (pos 0) [])
            (compute_last_attempt_time_key now [])).0
      → (found : List Bytes) × (get gob database iteration ceil_sqrt count now p
          ≡ after_iteration
              (iteration.range p.db
                (compute_last_attempt_time_key (pos 0) [])
                (compute_last_attempt_time_key now [])).1
              found)
  unfolding get
  get_total p count indexed all =
      let (entries, error) =
        iteration.range p.db (compute_last_attempt_time_key (pos 0) [])
          (compute_last_attempt_time_key now []) in
      let (found, e) = get_from_total p count entries [] indexed all in
      (found, ap (λ r. bind r (after_iteration error)) e)
