-- ===== src/PeerStorage/Indexed/Requests.antt =====
-- peer_storage_disk.go: a sequence of calls keeps the tables by time in agreement with the peers.
use plot_thread.Prelude.{
  ◌≡◌, refl, List, [], ◌∷◌, ℤ, pos, IsInt64, All, ◌<ℤ◌, Result, ok, err, panic, bind, bind-eq-ok,
  arith,
}
use plot_thread.Prelude.Bytes.{Bytes}
use plot_thread.LedgerDisk.Database.{Database, IsAtomic}
use plot_thread.PeerStorage.{Gob}
use plot_thread.PeerStorage.Disk.{
  PeerStorageDisk, store, delete, on_connect_attempt, on_connect_failure, on_connect_success,
  on_disconnect,
}
use plot_thread.PeerStorage.Indexed.{IsCodec, IsIndexed}
use plot_thread.PeerStorage.Indexed.Writes.{
  store-IsIndexed, delete-IsIndexed, on_connect_failure-IsIndexed, on_connect_attempt-IsIndexed,
  on_connect_success-IsIndexed,
}

-- A call of a method that writes, with what the clock and the random source say.
pub data Request : Type 0 where
  to_store : Bytes → ℤ → ℤ → Request
  to_delete to_disconnect : Bytes → Request
  to_attempt to_fail to_succeed : Bytes → ℤ → Request

-- Times are in int64, and the clock of a success is after 1970.
abbrev pub IsTimely : Request → Type 0
IsTimely (to_store addr now random) = IsInt64 random
IsTimely (to_delete addr) = Unit
IsTimely (to_disconnect addr) = Unit
IsTimely (to_attempt addr now) = IsInt64 now
IsTimely (to_fail addr now) = Unit
IsTimely (to_succeed addr now) = IsInt64 now × (pos 0 <ℤ now)

module _ (gob : Gob) {D : Type 0} (database : Database D) where
  unfoldable pub answer : Request → PeerStorageDisk D → Result (PeerStorageDisk D)
  answer (to_store addr now random) p =
      bind (store gob database addr now random p.db) (λ r. ok (record p { db = r.1 }))
  answer (to_delete addr) p = bind (delete gob database addr p.db) (λ d. ok (record p { db = d }))
  answer (to_disconnect addr) p = ok (on_disconnect addr p)
  answer (to_attempt addr now) p =
      bind (on_connect_attempt gob database addr now p.db) (λ d. ok (record p { db = d }))
  answer (to_fail addr now) p =
      bind (on_connect_failure gob database addr now p.db) (λ d. ok (record p { db = d }))
  answer (to_succeed addr now) p = on_connect_success gob database addr now p

  -- A call that fails leaves everything as it was.
  abbrev pub or_unchanged : PeerStorageDisk D → Result (PeerStorageDisk D) → PeerStorageDisk D
  or_unchanged p (ok p') = p'
  or_unchanged p (err e) = p
  or_unchanged p panic = p

  unfoldable pub serve : List Request → PeerStorageDisk D → PeerStorageDisk D
  serve [] p = p
  serve (r ∷ requests) p = serve requests (or_unchanged p (answer r p))

module _ (gob : Gob) {D : Type 0} (database : Database D) (codec : IsCodec gob)
    (atomic : IsAtomic database) where
  or_unchanged-IsIndexed :
      (p : PeerStorageDisk D) (r : Result (PeerStorageDisk D))
      → IsIndexed gob database p.db
      → ((p' : PeerStorageDisk D) → r ≡ ok p' → IsIndexed gob database p'.db)
      → IsIndexed gob database (or_unchanged gob database p r).db
  or_unchanged-IsIndexed p (ok p') indexed step = step p' refl
  or_unchanged-IsIndexed p (err e) indexed step = indexed
  or_unchanged-IsIndexed p panic indexed step = indexed

  answer-IsIndexed :
      (r : Request) (p p' : PeerStorageDisk D)
      → IsTimely r
      → IsIndexed gob database p.db
      → answer gob database r p ≡ ok p'
      → IsIndexed gob database p'.db
  unfolding answer on_disconnect
  answer-IsIndexed (to_store addr now random) p p' timely indexed e =
      let (r, done, same) = bind-eq-ok (store gob database addr now random p.db) _ e in
      let into : r.1 ≡ p'.db = ground (arith, same) in
      rw into at
        (store-IsIndexed gob database codec atomic addr now random p.db r indexed timely done)
  answer-IsIndexed (to_delete addr) p p' timely indexed e =
      let (d, done, same) = bind-eq-ok (delete gob database addr p.db) _ e in
      let into : d ≡ p'.db = ground (arith, same) in
      rw into at (delete-IsIndexed gob database codec atomic addr p.db d indexed done)
  answer-IsIndexed (to_disconnect addr) p p' timely indexed e =
      let into : p.db ≡ p'.db = ground (arith, e) in rw into at indexed
  answer-IsIndexed (to_attempt addr now) p p' timely indexed e =
      let (d, done, same) = bind-eq-ok (on_connect_attempt gob database addr now p.db) _ e in
      let into : d ≡ p'.db = ground (arith, same) in
      rw into at
        (on_connect_attempt-IsIndexed gob database codec atomic addr now p.db d indexed timely done)
  answer-IsIndexed (to_fail addr now) p p' timely indexed e =
      let (d, done, same) = bind-eq-ok (on_connect_failure gob database addr now p.db) _ e in
      let into : d ≡ p'.db = ground (arith, same) in
      rw into at
        (on_connect_failure-IsIndexed gob database codec atomic addr now p.db d indexed done)
  answer-IsIndexed (to_succeed addr now) p p' timely indexed e =
      on_connect_success-IsIndexed gob database codec atomic addr now p p' indexed timely.0 timely.1
        e

  -- Through any sequence of calls, those that fail included, a peer stands in the table of attempts
  -- at the time of its last attempt and nowhere else, in the table of successes at that of its last
  -- success, if it had one, and nowhere else, and an unknown peer in neither. The database writes
  -- atomically, the encoding is decoded to what was encoded, times are in int64 and the clock is
  -- after 1970.
  pub serve-IsIndexed :
      (requests : List Request) (p : PeerStorageDisk D)
      → All IsTimely requests
      → IsIndexed gob database p.db
      → IsIndexed gob database (serve gob database requests p).db
  unfolding serve
  serve-IsIndexed [] p timely indexed = indexed
  serve-IsIndexed (r ∷ requests) p timely indexed =
      serve-IsIndexed requests (or_unchanged gob database p (answer gob database r p)) timely.1 (
        or_unchanged-IsIndexed p (answer gob database r p) indexed
          (λ p' e. answer-IsIndexed r p p' timely.0 indexed e))
