-- ===== src/Processor/Admission/Admitted.antt =====
-- processor.go: what a representation that `processRepresentation` admits is.
use plot_thread.Prelude.{
  ◌≡◌, ◌<◌, true, false, Option, none, some, inl, inr, Result-cases, Option-cases, ℤ, pos, add64,
  Result, ok, arith,
}
use plot_thread.Prelude.Bytes.{Bytes}
use plot_thread.Graph.{Graph}
use plot_thread.Representation.{Representation, Crypto, is_plotroot, is_mature, is_expired, verify}
use plot_thread.Representation.Check.{
  check_representation_series, IsSane, check_representation-IsSane,
}
use plot_thread.RepresentationQueue.{RepresentationQueue, len}
use plot_thread.RepresentationQueue.Adding.{IsAdded, add-IsAdded}
use plot_thread.Processor.Admission.{
  max_representation_queue_length, check_next, process_representation,
}

module _ (c : Crypto) {F : Type 0} (graph : Graph F) (get_public_key_imbalance : Bytes → Result ℤ)
    (get_representation_index : Bytes → Result (Option Bytes))
    (get_thread_tip : Result (Option (Bytes × ℤ))) where
  pub record IsAdmitted (tx_id : Bytes) (tx : Representation) (q q' : RepresentationQueue)
      : Type 0 where
    pub sane : IsSane tx
    pub not_plotroot : is_plotroot tx ≡ false
    pub room : len q < max_representation_queue_length
    pub not_confirmed : get_representation_index tx_id ≡ ok none
    pub tip :
        (tip_id : Bytes) × (tip_height : ℤ) × (get_thread_tip ≡ ok (some (tip_id, tip_height)))
        × (check_representation_series tx (add64 tip_height (pos 1)) ≡ true)
        × (is_mature tx (add64 tip_height (pos 1)) ≡ true)
        × (is_expired tx (add64 tip_height (pos 1)) ≡ false)
    pub signed : verify c tx ≡ ok true
    pub added : IsAdded c graph get_public_key_imbalance tx_id tx q q'

  -- A representation for which `processRepresentation` returns true, and which is announced, has
  -- met every rule and stands at the back of the queue.
  pub process_representation-IsAdmitted :
      (tx_id : Bytes) (tx : Representation) (q q' : RepresentationQueue)
      → process_representation c graph get_public_key_imbalance get_representation_index
          get_thread_tip tx_id tx q
        ≡ (ok true, q')
      → IsAdmitted tx_id tx q q'
  unfolding process_representation check_next
  process_representation-IsAdmitted tx_id tx q q' h = record {
    sane = (check_representation-IsSane tx).0 (ground arith);
    not_plotroot = ground arith;
    room = ground arith;
    not_confirmed = ground arith;
    tip = elim (Result-cases get_thread_tip) [
      | inr none_read ↦ ground (arith, none_read)
      | inl (found, read) ↦ elim (Option-cases found) [
        | inl missing ↦ ground (arith, read, missing)
        | inr (tip, e) ↦ (
          tip.0,
          tip.1,
          ground (arith, read, e),
          ground (arith, read, e),
          ground (arith, read, e),
          ground (arith, read, e),
        )
      ]
    ];
    signed = ground arith;
    added = ground (arith, add-IsAdded c graph get_public_key_imbalance tx_id tx q q');
  }
