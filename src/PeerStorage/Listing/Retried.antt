-- ===== src/PeerStorage/Listing/Retried.antt =====
-- peer_storage_disk.go: which addresses `Get` lists, and that it lists them.
use plot_thread.Prelude.{
  ℕ, ap, ◌∙◌, ◌≡◌, ◌≢◌, ◌≤◌, ◌<◌, true, false, ◌==◌, Bool-cases, none, some, List, [], ◌∷◌, ◌++◌,
  length, length-append, ℤ, pos, All, ok, bind-eq-ok, arith, inl, inr,
}
use plot_thread.Prelude.Bytes.{Bytes}
use plot_thread.Prelude.Assoc.{lookup}
use plot_thread.LedgerDisk.Database.{Database, Iteration}
use plot_thread.Processor.Target.{deref}
use plot_thread.PeerStorage.{
  PeerInfo, Gob, should_retry, compute_last_attempt_time_key, decode_last_attempt_time_key,
}
use plot_thread.PeerStorage.Disk.{PeerStorageDisk, get_peer_info}
use plot_thread.PeerStorage.Listing.{is_connected, after_iteration, is_skipped, get_from, get}

All-snoc :
    (P : Bytes → Type 0) (xs : List Bytes) (x : Bytes) → All P xs → P x → All P (xs ++ x ∷ [])
All-snoc P [] x all p = (p, tt)
All-snoc P (y ∷ ys) x all p = (all.0, All-snoc P ys x all.1 p)

module _ (gob : Gob) {D : Type 0} (database : Database D) (iteration : Iteration D)
    (ceil_sqrt : ℤ → ℤ) (now : ℤ) where
  -- A known peer that is not connected, and that it is time to try.
  abbrev pub IsRetried : PeerStorageDisk D → Bytes → Type 0
  IsRetried p addr =
      (info : PeerInfo) × (get_peer_info gob database addr p.db ≡ ok (some info))
      × (should_retry ceil_sqrt info now ≡ true)
      × (lookup addr p.connected_peers ≡ none)

  kept-IsRetried :
      (p : PeerStorageDisk D) (addr : Bytes)
      → is_skipped gob database iteration ceil_sqrt p.connected_peers now p.db addr ≡ ok false
      → IsRetried p addr
  unfolding is_skipped deref
  kept-IsRetried p addr e = elim (Bool-cases (is_connected (lookup addr p.connected_peers))) [
    | inl on ↦ absurd (ground (arith, rw (on, is_skipped) at e))
    | inr off ↦
        let (found, there, e₁) =
          bind-eq-ok (get_peer_info gob database addr p.db) _ (rw (off, is_skipped) at e) in
        let (info, is, e₂) = bind-eq-ok (deref found) _ e₁ in
        let same : found ≡ some info = ground (arith, is) in
        (info, there ∙ ap ok same, ground (arith, e₂), ground (arith, off))
  ]

  get_from-IsRetried :
      (p : PeerStorageDisk D) (count : ℕ) (entries : List (Bytes × Bytes))
      (addrs found : List Bytes)
      → All (IsRetried p) addrs
      → (count ≢ 0 → length addrs < count)
      → get_from gob database iteration ceil_sqrt p.connected_peers now p.db count entries addrs
        ≡ ok found
      → All (IsRetried p) found × (count ≢ 0 → length found ≤ count)
  unfolding get_from
  get_from-IsRetried p count [] addrs found all few e =
      let same : addrs ≡ found = ground (arith, e) in
      rw (← same) (all, λ some_count. ground (arith, few some_count))
  get_from-IsRetried p count (entry ∷ entries) addrs found all few e =
      let (decoded, read, e₁) = bind-eq-ok (decode_last_attempt_time_key entry.0) _ e in
      let (skipped, told, e₂) =
        bind-eq-ok
          (is_skipped gob database iteration ceil_sqrt p.connected_peers now p.db decoded.1) _ e₁ in
      elim (Bool-cases skipped) [
        | inl skip ↦ get_from-IsRetried p count entries addrs found all few (rw skip at e₂)
        | inr keep ↦
            let addrs' = addrs ++ decoded.1 ∷ [] in
            let all' : All (IsRetried p) addrs' =
              All-snoc (IsRetried p) addrs decoded.1 all
                (kept-IsRetried p decoded.1 (told ∙ ap ok keep)) in
            elim (Bool-cases (length addrs' == count)) [
              | inl full ↦
                  let same : addrs' ≡ found = ground (arith, rw (full) at (rw keep at e₂)) in
                  rw (← same) (all', λ some_count. ground (arith, full))
              | inr more ↦
                  get_from-IsRetried p count entries addrs' found all'
                    (λ some_count.
                      ground (arith, more, few some_count, length-append addrs (decoded.1 ∷ [])))
                    (rw more at (rw keep at e₂))
            ]
      ]

  -- Every address that `Get` lists is one of a known peer, which is not connected, and which it is
  -- time to try; and where a number of them is asked for, there are not more.
  pub get-IsRetried :
      (p : PeerStorageDisk D) (count : ℕ) (found : List Bytes)
      → get gob database iteration ceil_sqrt count now p ≡ ok found
      → All (IsRetried p) found × (count ≢ 0 → length found ≤ count)
  unfolding get after_iteration
  get-IsRetried p count found e =
      let (entries, error) =
        iteration.range p.db (compute_last_attempt_time_key (pos 0) [])
          (compute_last_attempt_time_key now []) in
      let (addrs, listed, e₁) =
        bind-eq-ok
          (get_from gob database iteration ceil_sqrt p.connected_peers now p.db count entries []) _
          e in
      let (u, fine, e₂) = bind-eq-ok error _ e₁ in
      let same : addrs ≡ found = ground (arith, e₂) in
      rw same at
        (get_from-IsRetried p count entries [] addrs tt (λ some_count. ground arith) listed)
