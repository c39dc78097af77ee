-- ===== src/Processor/Run/Healthy.antt =====
-- processor.go: what holds in every state that the loop of the processor reaches.
use plot_thread.Prelude.{
  ap, ℕ, ◌≡◌, not, Option, ℤ, pos, sub64, leb, Result, ok, bind, pure, refuse, some_or, Error,
  arith,
}
use plot_thread.Prelude.Stateful.{continue-keeps, branch-keeps}
use plot_thread.Prelude.Bytes.{Bytes}
use plot_thread.Graph.{Graph}
use plot_thread.Representation.{Representation, Crypto, id, is_plotroot}
use plot_thread.Representation.Check.{check_representation}
use plot_thread.RepresentationQueue.{RepresentationQueue, len}
use plot_thread.RepresentationQueue.Valid.{IsValid, add-IsValid}
use plot_thread.Plot.{PlotHeader}
use plot_thread.Processor.Admission.{
  process_representation, check_next, max_representation_queue_length, is_some,
}
use plot_thread.Processor.State.{Processor, PlotStorage, Ledger, look, new_tx}
use plot_thread.Processor.Laws.{IsLedger, HasTip}
use plot_thread.Processor.Keeping.{Keeps, IsGood}
use plot_thread.Processor.Keeping.Accepting.{process_plot-keeps}
use plot_thread.Processor.Run.{
  admit, announce_tx, process_tx, Step, Reach, here, next, tx_received, plot_received,
  register_new_tx, unregister_new_tx, register_tip_change, unregister_tip_change,
}

module _ (c : Crypto) {F : Type 0} (graph : Graph F) (get_public_key_imbalance : Bytes → Result ℤ)
    (get_representation_index : Bytes → Result (Option Bytes))
    (get_thread_tip : Result (Option (Bytes × ℤ))) where
  check_next-IsValid :
      (tx : Representation) (tip_height : ℤ) (q : RepresentationQueue)
      → IsValid c q
      → IsValid c
          (check_next c graph get_public_key_imbalance get_representation_index get_thread_tip tx
            tip_height q).1
  unfolding check_next
  check_next-IsValid tx tip_height q v = ground arith

  process_representation-IsValid :
      (tx_id : Bytes) (tx : Representation) (q : RepresentationQueue)
      → id c tx ≡ ok tx_id
      → IsValid c q
      → IsValid c
          (process_representation c graph get_public_key_imbalance get_representation_index
            get_thread_tip tx_id tx q).1
  unfolding process_representation
  process_representation-IsValid tx_id tx q named v =
      continue-keeps (IsValid c) (check_representation tx, q) _ v
        (λ _ q₁ v₁.
          continue-keeps (IsValid c) (refuse (is_plotroot tx) Error.loose_plotroot, q₁) _ v₁
            (λ _ q₂ v₂.
              continue-keeps (IsValid c)
                (refuse (leb max_representation_queue_length (len q₂)) Error.queue_full, q₂) _ v₂
                (λ _ q₃ v₃.
                  continue-keeps (IsValid c) (get_representation_index tx_id, q₃) _ v₃
                    (λ confirmed q₄ v₄.
                      continue-keeps (IsValid c)
                        (refuse (is_some confirmed) Error.already_confirmed, q₄) _ v₄
                        (λ _ q₅ v₅.
                          continue-keeps (IsValid c) (get_thread_tip, q₅) _ v₅
                            (λ found q₆ v₆.
                              continue-keeps (IsValid c) (some_or found Error.no_tip, q₆) _ v₆
                                (λ tip q₇ v₇.
                                  continue-keeps (IsValid c)
                                    (check_next c graph get_public_key_imbalance
                                      get_representation_index get_thread_tip tx tip.1 q₇)
                                    _ (check_next-IsValid tx tip.1 q₇ v₇)
                                    (λ _ q₈ v₈.
                                      add-IsValid c graph get_public_key_imbalance tx_id tx q₈ named
                                        v₈))))))))

module _ (c : Crypto) (marshal_header : PlotHeader → Result Bytes) {W F : Type 0}
    (plot_store : PlotStorage W) (ledger : Ledger W F) (fuel : ℕ) (genesis_id : Bytes)
    (Q : W → Type 0) (keeps : Keeps c plot_store ledger Q) where
  abbrev Good : Processor W F → Type 0
  Good = IsGood c plot_store ledger Q keeps

  admit-keeps :
      (tx_id : Bytes) (tx : Representation) (p : Processor W F)
      → id c tx ≡ ok tx_id
      → Good p
      → Good (admit c ledger tx_id tx p).1
  unfolding admit look
  admit-keeps tx_id tx p named good = (
    good.0,
    process_representation-IsValid c (p.graphs p.looks) (ledger.get_public_key_imbalance p.disk)
        (λ k. bind (ledger.get_representation_index k p.disk) (λ found. ok found.0))
        (ledger.get_thread_tip p.disk) tx_id tx p.queue named good.1,
  )

  process_tx-keeps :
      (tx_id : Bytes) (tx : Representation) (source : Bytes) (p : Processor W F)
      → id c tx ≡ ok tx_id
      → Good p
      → Good (process_tx c ledger tx_id tx source p).1
  unfolding process_tx announce_tx
  process_tx-keeps tx_id tx source p named good =
      continue-keeps Good (admit c ledger tx_id tx p) _ (admit-keeps tx_id tx p named good)
        (λ queued q good₁.
          branch-keeps Good (not queued) (pure tt) (announce_tx (new_tx tx_id tx source)) q good₁
            good₁)

  Step-keeps :
      {p p' : Processor W F}
      → Step c marshal_header plot_store ledger fuel genesis_id p p'
      → Good p
      → Good p'
  Step-keeps {p} (tx_received tx_id tx source r named e alive) good =
      rw (ap (λ t. t.1) e) at (process_tx-keeps tx_id tx source p named good)
  Step-keeps {p} (plot_received plot_id plot now source r sized e alive) good =
      rw (ap (λ t. t.1) e) at (
        process_plot-keeps c marshal_header plot_store ledger fuel Q keeps genesis_id plot_id plot
          now source p sized good)
  Step-keeps (register_new_tx ch e) good = rw e good
  Step-keeps (unregister_new_tx ch e) good = rw e good
  Step-keeps (register_tip_change ch e) good = rw e good
  Step-keeps (unregister_tip_change ch e) good = rw e good

  pub Reach-keeps :
      {p p' : Processor W F}
      → Reach c marshal_header plot_store ledger fuel genesis_id p p'
      → Good p
      → Good p'
  Reach-keeps here good = good
  Reach-keeps (next r step) good = Step-keeps step (Reach-keeps r good)

module _ (c : Crypto) {W F : Type 0} (plot_store : PlotStorage W) (ledger : Ledger W F)
    (IsSound : W → Type 0) (laws : IsLedger c plot_store ledger IsSound) where
  pub sound_keeps : Keeps c plot_store ledger IsSound
  sound_keeps = record {
    stored_sized = laws.stored_sized;
    store_keeps = λ plot_id plot now w w' s z e. (laws.store_sound plot_id plot now w w' s z e).0;
    set_branch_type_keeps = λ plot_id t w w' s e. (laws.set_branch_type_sound plot_id t w w' s e).0;
    connect_keeps =
        λ g plot_id plot w w' ids s z e. (laws.connect_sound g plot_id plot w w' ids s z e).0;
    disconnect_keeps = λ plot_id plot w w' ids s z e.
        let r = laws.disconnect_sound plot_id plot w w' ids s z e in (r.0, r.2);
  }

  abbrev Tipped : W → Type 0
  Tipped w = IsSound w × HasTip c plot_store ledger IsSound w

  tip_keeps : Keeps c plot_store ledger Tipped
  tip_keeps = record {
    stored_sized = λ plot_id plot w s. laws.stored_sized plot_id plot w s.0;
    store_keeps = λ plot_id plot now w w' s z e.
        let r = laws.store_sound plot_id plot now w w' s.0 z e in
        (r.0, (s.1.0, ground (arith, r.1, s.1.1)));
    set_branch_type_keeps = λ plot_id t w w' s e.
        let r = laws.set_branch_type_sound plot_id t w w' s.0 e in
        (r.0, (s.1.0, ground (arith, r.1, s.1.1)));
    connect_keeps = λ g plot_id plot w w' ids s z e.
        let r = laws.connect_sound g plot_id plot w w' ids s.0 z e in
        (r.0, ((plot_id, plot.header.height), r.1));
    disconnect_keeps = λ plot_id plot w w' ids s z e.
        let r = laws.disconnect_sound plot_id plot w w' ids s.0 z e in
        ((r.0, ((plot.header.previous, sub64 plot.header.height (pos 1)), r.1)), r.2);
  }

  -- In every run of the processor on a ledger and a plot storage that obey their laws, from data
  -- that is sound and a queue whose map and list agree, the data stays sound and the map and the
  -- list agree, errors and reorganisations that fail half way included; and where there was a tip,
  -- there is one.
  pub Reach-IsHealthy :
      (marshal_header : PlotHeader → Result Bytes) (fuel : ℕ) (genesis_id : Bytes)
      (p p' : Processor W F)
      → IsSound p.disk
      → IsValid c p.queue
      → Reach c marshal_header plot_store ledger fuel genesis_id p p'
      → IsSound p'.disk
        × IsValid c p'.queue
        × (HasTip c plot_store ledger IsSound p.disk → HasTip c plot_store ledger IsSound p'.disk)
  Reach-IsHealthy marshal_header fuel genesis_id p p' sound valid run =
      let (sound', valid') =
        Reach-keeps c marshal_header plot_store ledger fuel genesis_id IsSound sound_keeps run
          (sound, valid) in
      (
        sound',
        valid',
        λ tip.
            (Reach-keeps c marshal_header plot_store ledger fuel genesis_id Tipped tip_keeps run
              ((sound, tip), valid)).0.1,
      )
