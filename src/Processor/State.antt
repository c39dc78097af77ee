-- ===== src/Processor/State.antt =====
-- processor.go, plot_storage.go and ledger.go: the state of the processor and what it shares with
-- others. The ledger and plot storage stand behind their interfaces, over one type of what they
-- keep. The indexer changes the graph in a goroutine of its own: `graphs` is what the successive
-- calls that read the graph find.
use plot_thread.Prelude.{ℕ, suc, Bool, Option, List, ◌++◌, map, ℤ, Result, ok, err, panic, Action}
use plot_thread.Prelude.Bytes.{Bytes}
use plot_thread.Graph.{Graph}
use plot_thread.Representation.{Representation}
use plot_thread.RepresentationQueue.{RepresentationQueue}
use plot_thread.Plot.{Plot, PlotHeader}

-- `PlotStorage`, as far as the processor calls it. A missing plot or header is `none`.
pub record PlotStorage (W : Type 0) : Type 0 where
  pub store : Bytes → Plot → ℤ → W → Result W
  pub get_plot : Bytes → W → Result (Option Plot)
  pub get_plot_header : W → Bytes → Result (Option (PlotHeader × ℤ))

-- `Ledger`, as far as the processor and the queue call it. A call that fails leaves it as it was.
pub record Ledger (W F : Type 0) : Type 0 where
  pub get_thread_tip : W → Result (Option (Bytes × ℤ))
  pub get_plot_id_for_height : W → ℤ → Result (Option Bytes)
  pub set_branch_type : Bytes → ℕ → W → Result W
  pub get_branch_type : Bytes → W → Result ℕ
  pub connect_plot : Graph F → Bytes → Plot → W → Result (List Bytes × W)
  pub disconnect_plot : Bytes → Plot → W → Result (List Bytes × W)
  pub get_public_key_imbalance : W → Bytes → Result ℤ
  pub get_representation_index : Bytes → W → Result (Option Bytes × ℤ)

-- `NewTx` and `TipChange`
pub data Message : Type 0 where
  new_tx : Bytes → Representation → Bytes → Message
  tip_change : Bytes → Plot → Bytes → Bool → Bool → Message

-- A message on every channel.
abbrev pub to_all : List ℕ → Message → List (ℕ × Message)
to_all channels message = map (λ ch. (ch, message)) channels

-- The channels are numbers; `sent` is what was sent on them, in order.
pub record Processor (W F : Type 0) : Type 0 where
  pub disk : W
  pub queue : RepresentationQueue
  pub graphs : ℕ → Graph F
  pub looks : ℕ
  pub new_tx_channels : List ℕ
  pub tip_change_channels : List ℕ
  pub sent : List (ℕ × Message)

module _ {W F : Type 0} where
  unfoldable pub look : Action (Processor W F) (Graph F)
  look p = (ok (p.graphs p.looks), record p { looks = suc p.looks })

  -- A query of what the ledger and plot storage keep.
  abbrev pub query : {A : Type 0} → (W → Result A) → Action (Processor W F) A
  query f p = (f p.disk, p)

  abbrev pub on_disk : {A : Type 0} → (W → Result (A × W)) → Action (Processor W F) A
  on_disk f p = elim (f p.disk) [
    | ok (a, w) ↦ (ok a, record p { disk = w })
    | err e ↦ (err e, p)
    | panic ↦ (panic, p)
  ]

  abbrev pub write_disk : (W → Result W) → Action (Processor W F) (Unit {0})
  write_disk f p = elim (f p.disk) [
    | ok w ↦ (ok tt, record p { disk = w })
    | err e ↦ (err e, p)
    | panic ↦ (panic, p)
  ]

  abbrev pub on_queue : {A : Type 0} → Action RepresentationQueue A → Action (Processor W F) A
  on_queue f p = let (r, queue) = f p.queue in (r, record p { queue = queue })

  unfoldable pub notify : Message → Action (Processor W F) (Unit {0})
  notify message p = (ok tt, record p { sent = p.sent ++ to_all p.tip_change_channels message })
