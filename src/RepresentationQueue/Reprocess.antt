-- ===== src/RepresentationQueue/Reprocess.antt =====
-- `reprocessQueue` against a plain pass over the list of representations.
use plot_thread.Prelude.{
  ◌≡◌, refl, ◌∙◌, sym, true, false, not, ◌||◌, Bool-cases, Result-cases, inl, inr, List, [], ◌∷◌,
  ◌++◌, arith, ℤ, Result, ok, err, panic, All,
}
use mathlib.Core.List.{append_assoc}
use plot_thread.Prelude.Bytes.{Bytes}
use plot_thread.Indexed.{Indexed, delete, contents}
use plot_thread.Indexed.Unique.{contents-delete_middle}
use plot_thread.Graph.{Graph}
use plot_thread.Representation.{Representation, Crypto, id}
use plot_thread.ImbalanceCache.{Cache, apply}
use plot_thread.ImbalanceCache
use plot_thread.RepresentationQueue.{
  RepresentationQueue, sender_descends, is_invalidated, drop_tx, reprocess_tx, reprocess_all,
  reprocess_queue, apply_cached,
}
use plot_thread.RepresentationQueue.Valid.{IsValid, tx_key}

-- Every representation of the list has an ID.
abbrev pub Named : Crypto → List Representation → Type 0
Named c = All (λ tx. (tx_id : Bytes) × (id c tx ≡ ok tx_id))

module _ {F : Type 0} (graph : Graph F) (get_public_key_imbalance : Bytes → Result ℤ) where
  abbrev keep :
      Representation → Result (List Representation) × Cache → Result (List Representation) × Cache
  keep tx (ok txs, cache) = (ok (tx ∷ txs), cache)
  keep tx (err e, cache) = (err e, cache)
  keep tx (panic, cache) = (panic, cache)

  -- Which representations stay, in order, when each is applied to the cache that those before it
  -- have left.
  unfoldable pub survivors : ℤ → List Representation → Cache → Result (List Representation) × Cache
  survivors height [] cache = (ok [], cache)
  survivors height (tx ∷ txs) cache = elim (is_invalidated height tx) [
    | true ↦ survivors height txs cache
    | false ↦
        let (r, cache') = apply get_public_key_imbalance tx cache in
        elim r [
          | ok covered ↦ elim (not covered || sender_descends graph tx) [
            | true ↦ survivors height txs cache'
            | false ↦ keep tx (survivors height txs cache')
          ]
          | err e ↦ (err e, cache')
          | panic ↦ (panic, cache')
        ]
  ]

  module _ (c : Crypto) where
    -- The pass and the queue end alike; the entries before the pass stay where they are.
    abbrev pub Agrees :
        List Representation
        → Result (List Representation) × Cache
        → Result (Unit {0}) × RepresentationQueue
        → Type 0
    Agrees done (ok kept, cache) (r, q) =
        (r ≡ ok tt) × (contents q.txs ≡ done ++ kept) × (q.cache ≡ cache) × IsValid c q
    Agrees done (err e, cache) (r, q) = (r ≡ err e) × (q.cache ≡ cache)
    Agrees done (panic, cache) (r, q) = (r ≡ panic) × (q.cache ≡ cache)

    Agrees-keep :
        (done : List Representation) (tx : Representation)
        (s : Result (List Representation) × Cache) (r : Result (Unit {0}) × RepresentationQueue)
        → Agrees (done ++ tx ∷ []) s r
        → Agrees done (keep tx s) r
    Agrees-keep done tx (ok kept, cache) r (a, b, same, v) =
        (a, b ∙ append_assoc done (tx ∷ []) kept, same, v)
    Agrees-keep done tx (err e, cache) r a = a
    Agrees-keep done tx (panic, cache) r a = a

    drop_tx_lem :
        (before after : List Representation) (tx : Representation) (tx_id : Bytes)
        (q : RepresentationQueue)
        → IsValid c q
        → contents q.txs ≡ before ++ tx ∷ after
        → id c tx ≡ ok tx_id
        → (txs : Indexed Representation) × (drop_tx c tx q ≡ (ok tt, record q { txs = txs }))
          × (contents txs ≡ before ++ after)
          × IsValid c (record q { txs = txs })
    unfolding drop_tx
    drop_tx_lem before after tx tx_id q v e named =
        let (h, found, left, valid) =
          contents-delete_middle (tx_key c) tx_id before after tx q.txs v e (ground arith) in
        (delete tx_id h q.txs, ground arith, left, valid)

    reprocess_all-survivors :
        (height : ℤ) (txs done : List Representation) (q : RepresentationQueue)
        → IsValid c q
        → contents q.txs ≡ done ++ txs
        → Named c txs
        → Agrees done
            (survivors height txs q.cache)
            (reprocess_all c graph get_public_key_imbalance height txs q)
    unfolding survivors reprocess_all reprocess_tx apply_cached
    reprocess_all-survivors height [] done q v e named = (refl, e, refl, v)
    reprocess_all-survivors height (tx ∷ txs) done q v e ((tx_id, has), named) =
        elim (Bool-cases (is_invalidated height tx)) [
          | inl gone ↦
              let (rest, dropped, left, valid) = drop_tx_lem done txs tx tx_id q v e has in
              rw (gone, survivors, reprocess_all, reprocess_tx, dropped)
                (reprocess_all-survivors height txs done (record q { txs = rest }) valid left named)
          | inr stays ↦ elim (Result-cases (apply get_public_key_imbalance tx q.cache).0) [
            | inl (covered, applied) ↦ elim (Bool-cases (not covered || sender_descends graph tx)) [
              | inl gone ↦
                  let (rest, dropped, left, valid) =
                    drop_tx_lem done txs tx tx_id
                      (record q { cache = (apply get_public_key_imbalance tx q.cache).1 }) v e
                      has in
                  rw
                    (
                      stays, survivors, reprocess_all, reprocess_tx, apply_cached, applied, gone,
                      dropped,
                    )
                    (reprocess_all-survivors height txs done
                      (record q {
                        txs = rest;
                        cache = (apply get_public_key_imbalance tx q.cache).1;
                      })
                      valid left named)
              | inr kept ↦
                  rw (stays, survivors, reprocess_all, reprocess_tx, apply_cached, applied, kept)
                    (Agrees-keep done tx _ _ (
                      reprocess_all-survivors height txs (done ++ tx ∷ [])
                        (record q { cache = (apply get_public_key_imbalance tx q.cache).1 }) v
                        (e ∙ sym (append_assoc done (tx ∷ []) txs)) named))
            ]
            | inr (inl (error, failed)) ↦
                rw (stays, survivors, reprocess_all, reprocess_tx, apply_cached, failed)
                  (refl, refl)
            | inr (inr panicked) ↦
                rw (stays, survivors, reprocess_all, reprocess_tx, apply_cached, panicked)
                  (refl, refl)
          ]
        ]

    -- Where the map and the list agree and every queued representation has an ID, reprocessing
    -- leaves the representations that survive the pass over the queue, in their order, and the
    -- cache that the pass ends with, with the map and the list in agreement; or it fails as the
    -- pass does, and never for a missing element.
    pub reprocess_queue-survivors :
        (height : ℤ) (q : RepresentationQueue)
        → IsValid c q
        → Named c (contents q.txs)
        → Agrees []
            (survivors height (contents q.txs) ImbalanceCache.empty)
            (reprocess_queue c graph get_public_key_imbalance height q)
    unfolding reprocess_queue
    reprocess_queue-survivors height q v named =
        reprocess_all-survivors height (contents q.txs) []
          (record q { cache = ImbalanceCache.empty }) v refl named
