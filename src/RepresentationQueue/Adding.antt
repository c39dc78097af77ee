-- ===== src/RepresentationQueue/Adding.antt =====
-- `Add`, and that every operation keeps the queue valid.
use plot_thread.Prelude.{
  ◌≡◌, ◌≢◌, Bool, true, false, Option-cases, inl, inr, List, [], ◌∷◌, ◌++◌, arith, ℤ, Result, ok,
  err, Error, bind, length,
}
use plot_thread.Prelude.Stateful.{continue-keeps}
use plot_thread.Prelude.Bytes.{Bytes}
use plot_thread.Prelude.Assoc.{lookup}
use plot_thread.Indexed.{contents}
use plot_thread.Indexed.Consistent.{delete-IsConsistent}
use plot_thread.Indexed.Contents.{contents-push_back}
use plot_thread.Graph.{Graph}
use plot_thread.Representation.{Representation, Crypto, id}
use plot_thread.ImbalanceCache
use plot_thread.ImbalanceCache.{Cache, apply}
use plot_thread.ImbalanceCache.View.{HasKeys, moved, shown, shown-apply}
use plot_thread.RepresentationQueue.{
  RepresentationQueue, sender_descends, apply_cached, add_new, add, exists, drop_tx, reprocess_tx,
  reprocess_all, reprocess_queue, remove_ids, remove_batch,
}
use plot_thread.RepresentationQueue.Valid.{IsValid, tx_key, remove_ids-IsConsistent}

module _ (c : Crypto) {F : Type 0} (graph : Graph F)
    (get_public_key_imbalance : Bytes → Result ℤ) where
  -- What an added representation must be, and what it leaves.
  pub record IsAdded (tx_id : Bytes) (tx : Representation) (q q' : RepresentationQueue)
      : Type 0 where
    pub new : exists q tx_id ≡ false
    pub apart : sender_descends graph tx ≡ false
    pub covered : apply get_public_key_imbalance tx q.cache ≡ (ok true, q'.cache)
    pub at_back : contents q'.txs ≡ contents q.txs ++ tx ∷ []

  -- Where `Add` says that it queued a representation, it was not queued yet, the imbalance cache
  -- has applied it, its sender is no descendant of its recipient, and it stands at the back.
  pub add-IsAdded :
      (tx_id : Bytes) (tx : Representation) (q q' : RepresentationQueue)
      → add c graph get_public_key_imbalance tx_id tx q ≡ (ok true, q')
      → IsAdded tx_id tx q q'
  unfolding add add_new apply_cached exists
  add-IsAdded tx_id tx q q' done = ground (arith, contents-push_back tx_id tx q.txs)

  -- However `Add` ends without queueing, the queue itself is as it was.
  pub add-not_added :
      (tx_id : Bytes) (tx : Representation) (q : RepresentationQueue)
      → (add c graph get_public_key_imbalance tx_id tx q).0 ≢ ok true
      → (add c graph get_public_key_imbalance tx_id tx q).1.txs ≡ q.txs
  unfolding add add_new apply_cached
  add-not_added tx_id tx q refused = ground arith

  -- A representation that is not queued, whose keys have 32 bytes and whose sender is covered, is
  -- refused if its sender is a descendant of its recipient, and charged all the same: the queue is
  -- as it was, and the cache shows the imbalances as if it were queued.
  pub add-descendant_charged :
      (tx_id : Bytes) (tx : Representation) (q : RepresentationQueue) (k : Bytes)
      → exists q tx_id ≡ false
      → HasKeys tx
      → sender_descends graph tx ≡ true
      → (apply get_public_key_imbalance tx q.cache).0 ≡ ok true
      → length k ≡ 32
      → let (r, q') = add c graph get_public_key_imbalance tx_id tx q in
        (r ≡ err Error.sender_is_descendant)
        × (q'.txs ≡ q.txs)
        × (shown get_public_key_imbalance k q'.cache
            ≡ bind (shown get_public_key_imbalance k q.cache) (λ v. ok (moved tx k v)))
  unfolding add add_new apply_cached exists
  add-descendant_charged tx_id tx q k new keys descends covered h = ground (
    arith,
    shown-apply get_public_key_imbalance tx k q.cache (apply get_public_key_imbalance tx q.cache).1
        keys h,
  )

  drop_tx-IsValid :
      (tx : Representation) (q : RepresentationQueue) → IsValid c q → IsValid c (drop_tx c tx q).1
  unfolding drop_tx
  drop_tx-IsValid tx q v =
      continue-keeps (IsValid c) (id c tx, q) _ v
        (λ tx_id r w. elim (Option-cases (lookup tx_id r.txs.index)) [
          | inl e ↦ rw e w
          | inr (h, e) ↦ rw e (delete-IsConsistent (tx_key c) tx_id h r.txs e w)
        ])

  reprocess_tx-IsValid :
      (height : ℤ) (tx : Representation) (q : RepresentationQueue)
      → IsValid c q
      → IsValid c (reprocess_tx c graph get_public_key_imbalance height tx q).1
  unfolding reprocess_tx apply_cached
  reprocess_tx-IsValid height tx q v =
      let charged = record q { cache = (apply get_public_key_imbalance tx q.cache).1 } in
      ground (arith, drop_tx-IsValid tx q v, drop_tx-IsValid tx charged v, v)

  reprocess_all-IsValid :
      (height : ℤ) (txs : List Representation) (q : RepresentationQueue)
      → IsValid c q
      → IsValid c (reprocess_all c graph get_public_key_imbalance height txs q).1
  unfolding reprocess_all
  reprocess_all-IsValid height [] q v = v
  reprocess_all-IsValid height (tx ∷ txs) q v =
      continue-keeps (IsValid c) (reprocess_tx c graph get_public_key_imbalance height tx q) _
        (reprocess_tx-IsValid height tx q v) (λ _ r w. reprocess_all-IsValid height txs r w)

  -- `RemoveBatch` keeps the map and the list in agreement, also where it fails.
  pub remove_batch-IsValid :
      (ids : List Bytes) (height : ℤ) (more : Bool) (q : RepresentationQueue)
      → IsValid c q
      → IsValid c (remove_batch c graph get_public_key_imbalance ids height more q).1
  unfolding remove_batch reprocess_queue
  remove_batch-IsValid ids height more q v =
      let w = remove_ids-IsConsistent c graph get_public_key_imbalance ids q.txs v in
      let txs = remove_ids ids q.txs in
      ground (
        arith,
        w,
        reprocess_all-IsValid height (contents txs)
            (record { txs = txs; cache = ImbalanceCache.empty }) w,
      )
