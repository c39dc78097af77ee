-- ===== src/Processor/Run.antt =====
-- processor.go: `run`, the loop of the processor, as a relation between states. Which message comes
-- next is up to the other goroutines; a panic ends the program.
pub mod Healthy
use plot_thread.Prelude.{
  ℕ, ◌≡◌, ◌≢◌, Bool, true, false, not, ◌==◌, Option, none, some, List, [], ◌∷◌, ◌++◌, filter,
  if◌then◌else◌, ℤ, Result, ok, err, panic, bind, Action, pure, lift,
}
use plot_thread.Prelude.Stateful.{◌>>=◌, ◌>>◌, branch}
use plot_thread.Prelude.Bytes.{Bytes}
use plot_thread.Representation.{Representation, Crypto, id}
use plot_thread.RepresentationQueue.{RepresentationQueue}
use plot_thread.Plot.{Plot, PlotHeader}
use plot_thread.Processor.Admission.{process_representation}
use plot_thread.Processor.State.{
  Processor, PlotStorage, Ledger, Message, new_tx, look, on_queue, to_all,
}
use plot_thread.Processor.Laws.{IsSized}
use plot_thread.Processor.Accept.{process_plot}

-- `newTxChannels[ch] = struct{}{}`
unfoldable pub register : ℕ → List ℕ → List ℕ
register ch [] = ch ∷ []
register ch (k ∷ ks) = if k == ch then k ∷ ks else k ∷ register ch ks

unfoldable pub unregister : ℕ → List ℕ → List ℕ
unregister ch channels = filter (λ k. not (k == ch)) channels

unfoldable pub announce_tx : {W F : Type 0} → Message → Action (Processor W F) (Unit {0})
announce_tx message p = (ok tt, record p { sent = p.sent ++ to_all p.new_tx_channels message })

module _ (c : Crypto) {W F : Type 0} (ledger : Ledger W F) where
  -- `processRepresentation` on what it finds now.
  unfoldable pub admit : Bytes → Representation → Action (Processor W F) Bool
  admit tx_id tx = do
    graph ← look
    λ p.
        on_queue
          (process_representation c graph (ledger.get_public_key_imbalance p.disk)
            (λ k. bind (ledger.get_representation_index k p.disk) (λ found. ok found.0))
            (ledger.get_thread_tip p.disk) tx_id tx)
          p

  -- The registered channels are told if it is new to the queue.
  unfoldable pub process_tx : Bytes → Representation → Bytes → Action (Processor W F) (Unit {0})
  process_tx tx_id tx source = do
    queued ← admit tx_id tx
    branch (not queued) (pure tt) (announce_tx (new_tx tx_id tx source))

module _ (c : Crypto) (marshal_header : PlotHeader → Result Bytes) {W F : Type 0}
    (plot_store : PlotStorage W) (ledger : Ledger W F) (fuel : ℕ) (genesis_id : Bytes) where
  -- The cases of the `select`. The senders of representations and plots pass their IDs along.
  pub data Step (p : Processor W F) (p' : Processor W F) : Type 0 where
    tx_received :
        (tx_id : Bytes) (tx : Representation) (source : Bytes) (r : Result (Unit {0}))
        → id c tx ≡ ok tx_id
        → process_tx c ledger tx_id tx source p ≡ (r, p')
        → r ≢ panic
        → Step p p'
    plot_received :
        (plot_id : Bytes) (plot : Plot) (now : ℤ) (source : Bytes) (r : Result (Unit {0}))
        → IsSized plot_id plot
        → process_plot c marshal_header plot_store ledger fuel genesis_id plot_id plot now source p
          ≡ (r, p')
        → r ≢ panic
        → Step p p'
    register_new_tx :
        (ch : ℕ) → p' ≡ record p { new_tx_channels = register ch p.new_tx_channels } → Step p p'
    unregister_new_tx :
        (ch : ℕ) → p' ≡ record p { new_tx_channels = unregister ch p.new_tx_channels } → Step p p'
    register_tip_change :
        (ch : ℕ)
        → p' ≡ record p { tip_change_channels = register ch p.tip_change_channels }
        → Step p p'
    unregister_tip_change :
        (ch : ℕ)
        → p' ≡ record p { tip_change_channels = unregister ch p.tip_change_channels }
        → Step p p'

  pub data Reach (p : Processor W F) : Processor W F → Type 0 where
    here : Reach p p
    next : {q r : Processor W F} → Reach p q → Step q r → Reach p r
