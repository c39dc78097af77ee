-- ===== src/PeerStorage/Indexed/Writes.antt =====
-- peer_storage_disk.go: each method that writes keeps the tables by time in agreement with the peers.
use plot_thread.Prelude.{
  ◌≡◌, refl, Bool, false, Bool-cases, Option, none, some, List, [], ◌∷◌, ◌++◌, ℤ, pos, IsInt64,
  ◌<ℤ◌, ok, bind-eq-ok, some_or, Error, arith, inl, inr,
}
use plot_thread.Prelude.Bytes.{Bytes}
use plot_thread.LedgerDisk.Database.{Database, Op, puts, deletes, IsAtomic}
use plot_thread.PeerStorage.{
  PeerInfo, Gob, should_delete, compute_last_attempt_time_key, compute_peer_key,
  compute_last_success_time_key,
}
use plot_thread.PeerStorage.Disk.{
  PeerStorageDisk, mark, get_peer_info, write_to_batch, store_new, store, delete_peer, delete,
  on_connect_attempt, on_connect_failure, success_batch, on_connect_success,
}
use plot_thread.PeerStorage.Indexed.{IsCodec, HasTimes, IsIndexed, settled-IsIndexed}
use plot_thread.PeerStorage.Indexed.Changes.{
  new_peer-Settles, attempt-Settles, success-Settles, delete_peer-Settles,
}

module _ (gob : Gob) {D : Type 0} (database : Database D) (codec : IsCodec gob)
    (atomic : IsAtomic database) where
  found_times :
      (addr : Bytes) (found : Option PeerInfo) (d : D)
      → IsIndexed gob database d
      → get_peer_info gob database addr d ≡ ok found
      → HasTimes found
  found_times addr found d indexed there =
      let same : (indexed addr).found ≡ found = ground (arith, (indexed addr).stored, there) in
      rw same at (indexed addr).has_times

  encoded_batch :
      (info : PeerInfo) (addr : Bytes) (batch : List Op)
      → write_to_batch gob database info addr ≡ ok batch
      → (encoded : Bytes) × (gob.encode_peer_info info ≡ ok encoded)
        × (batch ≡ puts (compute_peer_key addr) encoded ∷ [])
  unfolding write_to_batch
  encoded_batch info addr batch e =
      let (encoded, done, same) = bind-eq-ok (gob.encode_peer_info info) _ e in
      (encoded, done, ground (arith, same))

  store_new-IsIndexed :
      (addr : Bytes) (now random : ℤ) (d : D) (r : Bool × D)
      → IsIndexed gob database d
      → get_peer_info gob database addr d ≡ ok none
      → IsInt64 random
      → store_new gob database addr now random d ≡ ok r
      → IsIndexed gob database r.1
  unfolding store_new
  store_new-IsIndexed addr now random d r indexed unknown fits e =
      let info : PeerInfo = record {
        first_seen = now;
        last_attempt = random;
        last_success = pos 0;
      } in
      let (batch, made, e₁) = bind-eq-ok (write_to_batch gob database info addr) _ e in
      let (encoded, done, shape) = encoded_batch info addr batch made in
      let (d', written, same) =
        bind-eq-ok
          (database.write (batch ++ puts (compute_last_attempt_time_key random addr) mark ∷ []) d) _
          e₁ in
      let there : d' ≡ r.1 = ground (arith, same) in
      rw there at (
        settled-IsIndexed gob database atomic addr none (some info)
          (puts (compute_peer_key addr) encoded
            ∷ puts (compute_last_attempt_time_key random addr) mark
            ∷ [])
          d d' (new_peer-Settles gob database codec addr encoded info done fits refl) indexed
          unknown (rw shape at written))

  store_if-IsIndexed :
      (addr : Bytes) (now random : ℤ) (d : D) (r : Bool × D) (found : Option PeerInfo)
      → IsIndexed gob database d
      → IsInt64 random
      → get_peer_info gob database addr d ≡ ok found
      → elim found [ some info ↦ ok (false, d) | none ↦ store_new gob database addr now random d ]
        ≡ ok r
      → IsIndexed gob database r.1
  store_if-IsIndexed addr now random d r none indexed fits there e =
      store_new-IsIndexed addr now random d r indexed there fits e
  store_if-IsIndexed addr now random d r (some info) indexed fits there e =
      let same : d ≡ r.1 = ground (arith, e) in rw same at indexed

  pub store-IsIndexed :
      (addr : Bytes) (now random : ℤ) (d : D) (r : Bool × D)
      → IsIndexed gob database d
      → IsInt64 random
      → store gob database addr now random d ≡ ok r
      → IsIndexed gob database r.1
  unfolding store
  store-IsIndexed addr now random d r indexed fits e =
      let (found, there, e₁) = bind-eq-ok (get_peer_info gob database addr d) _ e in
      store_if-IsIndexed addr now random d r found indexed fits there e₁

  delete_peer-IsIndexed :
      (addr : Bytes) (info : PeerInfo) (d d' : D)
      → IsIndexed gob database d
      → get_peer_info gob database addr d ≡ ok (some info)
      → delete_peer gob database addr info.last_attempt info.last_success d ≡ ok d'
      → IsIndexed gob database d'
  unfolding delete_peer
  delete_peer-IsIndexed addr info d d' indexed there e =
      settled-IsIndexed gob database atomic addr (some info) none _ d d'
        (delete_peer-Settles gob database codec addr info
          (found_times addr (some info) d indexed there))
        indexed there e

  known :
      (addr : Bytes) (d : D) (found : Option PeerInfo) (info : PeerInfo)
      → get_peer_info gob database addr d ≡ ok found
      → some_or found Error.unknown_peer ≡ ok info
      → get_peer_info gob database addr d ≡ ok (some info)
  known addr d none info there e = cc
  known addr d (some i) info there e = ground (arith, there, e)

  pub delete-IsIndexed :
      (addr : Bytes) (d d' : D)
      → IsIndexed gob database d
      → delete gob database addr d ≡ ok d'
      → IsIndexed gob database d'
  unfolding delete
  delete-IsIndexed addr d d' indexed e =
      let (found, read, e₁) = bind-eq-ok (get_peer_info gob database addr d) _ e in
      let (info, is, e₂) = bind-eq-ok (some_or found Error.unknown_peer) _ e₁ in
      delete_peer-IsIndexed addr info d d' indexed (known addr d found info read is) e₂

  pub on_connect_failure-IsIndexed :
      (addr : Bytes) (now : ℤ) (d d' : D)
      → IsIndexed gob database d
      → on_connect_failure gob database addr now d ≡ ok d'
      → IsIndexed gob database d'
  unfolding on_connect_failure
  on_connect_failure-IsIndexed addr now d d' indexed e =
      let (found, read, e₁) = bind-eq-ok (get_peer_info gob database addr d) _ e in
      let (info, is, e₂) = bind-eq-ok (some_or found Error.unknown_peer) _ e₁ in
      elim (Bool-cases (should_delete info now)) [
        | inl old ↦
            delete_peer-IsIndexed addr info d d' indexed (known addr d found info read is)
              (rw old at e₂)
        | inr recent ↦ let same : d ≡ d' = ground (arith, rw recent at e₂) in rw same at indexed
      ]

  pub on_connect_attempt-IsIndexed :
      (addr : Bytes) (now : ℤ) (d d' : D)
      → IsIndexed gob database d
      → IsInt64 now
      → on_connect_attempt gob database addr now d ≡ ok d'
      → IsIndexed gob database d'
  unfolding on_connect_attempt
  on_connect_attempt-IsIndexed addr now d d' indexed fits e =
      let (found, read, e₁) = bind-eq-ok (get_peer_info gob database addr d) _ e in
      let (info, is, e₂) = bind-eq-ok (some_or found Error.unknown_peer) _ e₁ in
      let there = known addr d found info read is in
      let (batch, made, e₃) =
        bind-eq-ok (write_to_batch gob database (record info { last_attempt = now }) addr) _ e₂ in
      let (encoded, done, shape) =
        encoded_batch (record info { last_attempt = now }) addr batch made in
      settled-IsIndexed gob database atomic addr (some info)
        (some (record info { last_attempt = now })) _ d d'
        (attempt-Settles gob database codec addr encoded info now done
          (found_times addr (some info) d indexed there) fits)
        indexed there (rw shape at e₃)

  pub on_connect_success-IsIndexed :
      (addr : Bytes) (now : ℤ) (p p' : PeerStorageDisk D)
      → IsIndexed gob database p.db
      → IsInt64 now
      → pos 0 <ℤ now
      → on_connect_success gob database addr now p ≡ ok p'
      → IsIndexed gob database p'.db
  unfolding on_connect_success success_batch
  on_connect_success-IsIndexed addr now p p' indexed fits late e =
      let (found, read, e₁) = bind-eq-ok (get_peer_info gob database addr p.db) _ e in
      let (info, is, e₂) = bind-eq-ok (some_or found Error.unknown_peer) _ e₁ in
      let there = known addr p.db found info read is in
      let (ops, all, e₃) = bind-eq-ok (success_batch gob database addr now info) _ e₂ in
      let (d, written, same) = bind-eq-ok (database.write ops p.db) _ e₃ in
      let (batch, made, shape) =
        bind-eq-ok (write_to_batch gob database (record info { last_success = now }) addr) _ all in
      let (encoded, done, shape') =
        encoded_batch (record info { last_success = now }) addr batch made in
      let into : d ≡ p'.db = ground (arith, same) in
      let all_ops : ops ≡ (
          deletes (compute_last_success_time_key info.last_success addr)
          ∷ puts (compute_peer_key addr) encoded
          ∷ puts (compute_last_success_time_key now addr) mark
          ∷ []) =
        ground (arith, shape, shape') in
      rw into at (
        settled-IsIndexed gob database atomic addr (some info)
          (some (record info { last_success = now })) _ p.db d
          (success-Settles gob database codec addr encoded info now done
            (found_times addr (some info) p.db indexed there) fits late)
          indexed there (rw all_ops at written))
