-- ===== src/RepresentationQueue.antt =====
-- representation_queue_memory.go: the queue of representations to confirm. Each operation holds the
-- lock throughout. The ledger's `GetPublicKeyImbalance` and the graph are read as they are during
-- the call.
pub mod Valid
pub mod Reprocess
pub mod Adding
use plot_thread.Prelude.{
  ℕ, ◌≡◌, Bool, true, false, not, ◌||◌, Option, none, some, List, [], ◌∷◌, if◌then◌else◌, ltb, ◌==◌,
  length, take, ℤ, pos, add64, Result, ok, err, panic, Action, pure, fail, lift, modify, Error,
}
use plot_thread.Prelude.Stateful.{◌>>=◌, ◌>>◌, branch}
use plot_thread.Prelude.Bytes.{Bytes, bytes_eq}
use plot_thread.Prelude.Assoc.{lookup}
use plot_thread.Indexed.{Indexed, find, remove, push_back, push_front, delete, contents, value_at}
use plot_thread.Indexed
use plot_thread.Graph.{Graph, is_parent_descendant}
use plot_thread.PubKey.{pub_key_to_string}
use plot_thread.Representation.{Representation, Crypto, id, is_mature, is_expired}
use plot_thread.Representation.Check.{check_representation_series}
use plot_thread.ImbalanceCache.{Cache, apply}
use plot_thread.ImbalanceCache

-- `txMap` and `txQueue`, and the cache.
pub record RepresentationQueue : Type 0 where
  pub txs : Indexed Representation
  pub cache : Cache

unfoldable pub new_representation_queue : RepresentationQueue
new_representation_queue = record { txs = Indexed.empty; cache = ImbalanceCache.empty }

-- The search of the graph always ends (is_parent_descendant-Reach), so `none` does not occur.
unfoldable pub sender_descends : {F : Type 0} → Graph F → Representation → Bool
sender_descends graph tx =
    elim (is_parent_descendant graph (pub_key_to_string tx.for) (pub_key_to_string tx.by)) [
      | some b ↦ b
      | none ↦ false
    ]

-- The rules for the next plot that the checks of reprocessQueue read off the representation.
unfoldable pub is_invalidated : ℤ → Representation → Bool
is_invalidated height tx =
    not (check_representation_series tx (add64 height (pos 1)))
    || not (is_mature tx (add64 height (pos 1)))
    || is_expired tx (add64 height (pos 1))

module _ (c : Crypto) where
  -- `list.Remove` of a missing element is a nil dereference.
  unfoldable pub drop_tx : Representation → Action RepresentationQueue (Unit {0})
  drop_tx tx = do
    tx_id ← lift (id c tx)
    λ q. elim (lookup tx_id q.txs.index) [
      | some e ↦ (ok tt, record q { txs = delete tx_id e q.txs })
      | none ↦ (panic, q)
    ]

unfoldable pub remove_ids : List Bytes → Indexed Representation → Indexed Representation
remove_ids [] txs = txs
remove_ids (tx_id ∷ ids) txs =
    remove_ids ids (elim (lookup tx_id txs.index) [ some e ↦ delete tx_id e txs | none ↦ txs ])

module _ (c : Crypto) {F : Type 0} (graph : Graph F)
    (get_public_key_imbalance : Bytes → Result ℤ) where
  unfoldable pub apply_cached : Representation → Action RepresentationQueue Bool
  apply_cached tx q =
      let (r, cache) = apply get_public_key_imbalance tx q.cache in (r, record q { cache = cache })

  unfoldable pub add_new : Bytes → Representation → Action RepresentationQueue Bool
  unfolding apply_cached
  add_new tx_id tx = do
    covered ← apply_cached tx
    branch (not covered) (fail Error.insufficient_imbalance) (
        branch (sender_descends graph tx) (fail Error.sender_is_descendant)
          do modify (λ q. record q { txs = push_back tx_id tx q.txs }); pure true)

  unfoldable pub add : Bytes → Representation → Action RepresentationQueue Bool
  unfolding add_new
  add tx_id tx q = elim (lookup tx_id q.txs.index) [
    | some _ ↦ (ok false, q)
    | none ↦ add_new tx_id tx q
  ]

  unfoldable pub reprocess_tx : ℤ → Representation → Action RepresentationQueue (Unit {0})
  unfolding apply_cached
  reprocess_tx height tx = branch (is_invalidated height tx) (drop_tx c tx) do
    covered ← apply_cached tx
    branch (not covered || sender_descends graph tx) (drop_tx c tx) (pure tt)

  unfoldable pub reprocess_all : ℤ → List Representation → Action RepresentationQueue (Unit {0})
  unfolding reprocess_tx
  reprocess_all height [] = pure tt
  reprocess_all height (tx ∷ txs) = do reprocess_tx height tx; reprocess_all height txs

  -- The loop runs over a copy of the list.
  unfoldable pub reprocess_queue : ℤ → Action RepresentationQueue (Unit {0})
  unfolding reprocess_all
  reprocess_queue height q =
      reprocess_all height (contents q.txs) (record q { cache = ImbalanceCache.empty })

  unfoldable pub remove_batch : List Bytes → ℤ → Bool → Action RepresentationQueue (Unit {0})
  unfolding remove_ids
  remove_batch ids height more = do
    modify (λ q. record q { txs = remove_ids ids q.txs })
    branch more (pure tt) (reprocess_queue height)

-- A representation that is queued already is moved to the front.
unfoldable pub add_front : Bytes → Representation → Indexed Representation → Indexed Representation
add_front tx_id tx txs = push_front tx_id tx (elim (lookup tx_id txs.index) [
  | some e ↦ record txs { elements = remove e txs.elements }
  | none ↦ txs
])

-- From the last to the first, each to the front. With fewer IDs than representations the first
-- access is out of range.
unfoldable pub add_batch :
    List Bytes → List Representation → ℤ → Action RepresentationQueue (Unit {0})
add_batch ids [] height q = (ok tt, q)
add_batch [] (tx ∷ txs) height q = (panic, q)
add_batch (tx_id ∷ ids) (tx ∷ txs) height q =
    (add_batch ids txs height >> modify (λ r. record r { txs = add_front tx_id tx r.txs })) q

unfoldable pub get : ℕ → RepresentationQueue → List Representation
get limit q =
    if limit == 0 || ltb (length q.txs.elements) limit
    then contents q.txs
    else take limit (contents q.txs)

unfoldable pub exists : RepresentationQueue → Bytes → Bool
exists q tx_id = elim (lookup tx_id q.txs.index) [ some _ ↦ true | none ↦ false ]

-- An element of the map is always in the list (IsConsistent).
unfoldable pub exists_signed : RepresentationQueue → Bytes → Bytes → Bool
exists_signed q tx_id signature = elim (value_at q.txs tx_id) [
  | some tx ↦ bytes_eq tx.signature signature
  | none ↦ false
]

unfoldable pub len : RepresentationQueue → ℕ
len q = length q.txs.elements
