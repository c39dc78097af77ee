-- ===== src/Processor/Admission.antt =====
-- processor.go: `processRepresentation`, which admits a loose representation to the queue. The
-- ledger's queries are parameters. The channels that are told of it get it exactly if the call
-- returns true.
pub mod Admitted
use plot_thread.Prelude.{
  ℕ, Bool, true, false, not, Option, none, some, leb, if◌then◌else◌, ℤ, pos, add64, Result, ok, err,
  Action, pure, lift, gets, fail, refuse, Error, some_or,
}
use plot_thread.Prelude.Stateful.{◌>>=◌, ◌>>◌, branch}
use plot_thread.Prelude.Bytes.{Bytes}
use plot_thread.Graph.{Graph}
use plot_thread.Representation.{Representation, Crypto, is_plotroot, is_mature, is_expired, verify}
use plot_thread.Representation.Check.{check_representation, check_representation_series}
use plot_thread.RepresentationQueue.{RepresentationQueue, add, len}

-- MAX_REPRESENTATION_QUEUE_LENGTH
abbrev pub max_representation_queue_length : ℕ
max_representation_queue_length = 100000

abbrev pub is_some : {A : Type 0} → Option A → Bool
is_some none = false
is_some (some _) = true

module _ (c : Crypto) {F : Type 0} (graph : Graph F) (get_public_key_imbalance : Bytes → Result ℤ)
    (get_representation_index : Bytes → Result (Option Bytes))
    (get_thread_tip : Result (Option (Bytes × ℤ))) where
  -- The rules that depend on the height of the next plot, and the signature.
  unfoldable pub check_next : Representation → ℤ → Action RepresentationQueue (Unit {0})
  check_next tx tip_height = do
    lift (
        refuse (not (check_representation_series tx (add64 tip_height (pos 1))))
          Error.series_not_current)
    lift (refuse (not (is_mature tx (add64 tip_height (pos 1)))) Error.not_mature)
    lift (refuse (is_expired tx (add64 tip_height (pos 1))) Error.is_expired)
    verified ← lift (verify c tx)
    lift (refuse (not verified) Error.verification_failed)

  unfoldable pub process_representation : Bytes → Representation → Action RepresentationQueue Bool
  process_representation tx_id tx = do
    lift (check_representation tx)
    lift (refuse (is_plotroot tx) Error.loose_plotroot)
    queued ← gets len
    lift (refuse (leb max_representation_queue_length queued) Error.queue_full)
    confirmed ← lift (get_representation_index tx_id)
    lift (refuse (is_some confirmed) Error.already_confirmed)
    found ← lift get_thread_tip
    (_, tip_height) ← lift (some_or found Error.no_tip)
    check_next tx tip_height
    add c graph get_public_key_imbalance tx_id tx
