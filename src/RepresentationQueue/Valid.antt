-- ===== src/RepresentationQueue/Valid.antt =====
-- The queue's map and list agree under the representations' IDs, and each operation keeps that.
use plot_thread.Prelude.{
  ◌≡◌, Option, none, some, Option-cases, inl, inr, List, [], ◌∷◌, arith, ℤ, Result, ok, err, panic,
}
use plot_thread.Prelude.Stateful.{continue-keeps}
use plot_thread.Prelude.Bytes.{Bytes}
use plot_thread.Prelude.Assoc.{lookup}
use plot_thread.Indexed.{Indexed, delete}
use plot_thread.Indexed.Consistent.{
  IsConsistent, push_back-IsConsistent, push_front-IsConsistent, push_front_again-IsConsistent,
  delete-IsConsistent, empty-IsConsistent,
}
use plot_thread.Graph.{Graph}
use plot_thread.Representation.{Representation, Crypto, id}
use plot_thread.RepresentationQueue.{
  RepresentationQueue, new_representation_queue, add, remove_ids, add_front, add_batch,
}

abbrev pub tx_key : Crypto → Representation → Option Bytes
tx_key c tx = elim (id c tx) [ ok tx_id ↦ some tx_id | err _ ↦ none | panic ↦ none ]

abbrev pub IsValid : Crypto → RepresentationQueue → Type 0
IsValid c q = IsConsistent (tx_key c) q.txs

pub new-IsValid : (c : Crypto) → IsValid c new_representation_queue
unfolding new_representation_queue
new-IsValid c = empty-IsConsistent (tx_key c)

-- A list of representations goes with the list of their IDs.
abbrev pub HaveIds : Crypto → List Bytes → List Representation → Type 0
HaveIds c ids [] = Unit
HaveIds c [] (tx ∷ txs) = Unit
HaveIds c (tx_id ∷ ids) (tx ∷ txs) = (id c tx ≡ ok tx_id) × HaveIds c ids txs

add_front-IsConsistent :
    (c : Crypto) (tx_id : Bytes) (tx : Representation) (txs : Indexed Representation)
    → id c tx ≡ ok tx_id
    → IsConsistent (tx_key c) txs
    → IsConsistent (tx_key c) (add_front tx_id tx txs)
unfolding add_front
add_front-IsConsistent c tx_id tx txs named v = elim (Option-cases (lookup tx_id txs.index)) [
  | inl e ↦ rw (e, add_front) (push_front-IsConsistent (tx_key c) tx_id tx txs (ground arith) e v)
  | inr (h, e) ↦
      rw (e, add_front) (push_front_again-IsConsistent (tx_key c) tx_id tx h txs (ground arith) e v)
]

-- `AddBatch` of representations under their IDs keeps the map and the list in agreement, also for
-- those that are queued already.
pub add_batch-IsValid :
    (c : Crypto) (ids : List Bytes) (txs : List Representation) (height : ℤ)
    (q : RepresentationQueue)
    → HaveIds c ids txs
    → IsValid c q
    → IsValid c (add_batch ids txs height q).1
unfolding add_batch
add_batch-IsValid c ids [] height q named v = v
add_batch-IsValid c [] (tx ∷ txs) height q named v = v
add_batch-IsValid c (tx_id ∷ ids) (tx ∷ txs) height q named v =
    continue-keeps (IsValid c) (add_batch ids txs height q) _
      (add_batch-IsValid c ids txs height q named.1 v)
      (λ _ r valid. add_front-IsConsistent c tx_id tx r.txs named.0 valid)

module _ (c : Crypto) {F : Type 0} (graph : Graph F)
    (get_public_key_imbalance : Bytes → Result ℤ) where
  -- `Add` under the representation's ID keeps the map and the list in agreement, also where it
  -- fails.
  pub add-IsValid :
      (tx_id : Bytes) (tx : Representation) (q : RepresentationQueue)
      → id c tx ≡ ok tx_id
      → IsValid c q
      → IsValid c (add c graph get_public_key_imbalance tx_id tx q).1
  unfolding add
  add-IsValid tx_id tx q named v = elim (Option-cases (lookup tx_id q.txs.index)) [
    | inl e ↦
        rw (e, add) (ground (arith, push_back-IsConsistent (tx_key c) tx_id tx q.txs, named, v))
    | inr (h, e) ↦ rw (e, add) v
  ]

  pub remove_ids-IsConsistent :
      (ids : List Bytes) (txs : Indexed Representation)
      → IsConsistent (tx_key c) txs
      → IsConsistent (tx_key c) (remove_ids ids txs)
  unfolding remove_ids
  remove_ids-IsConsistent [] txs v = v
  remove_ids-IsConsistent (tx_id ∷ ids) txs v = elim (Option-cases (lookup tx_id txs.index)) [
    | inl e ↦ rw (e, remove_ids) (remove_ids-IsConsistent ids txs v)
    | inr (h, e) ↦
        rw (e, remove_ids)
          (remove_ids-IsConsistent ids (delete tx_id h txs)
            (delete-IsConsistent (tx_key c) tx_id h txs e v))
  ]
