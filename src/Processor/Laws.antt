-- ===== src/Processor/Laws.antt =====
-- What the processor relies on: the laws of a ledger and of plot storage that share what they keep.
use plot_thread.Prelude.{ℕ, ◌≡◌, some, List, map, length, ℤ, pos, sub64, IsInt64, ok}
use plot_thread.Prelude.Bytes.{Bytes}
use plot_thread.Graph.{Graph}
use plot_thread.Representation.{Crypto, id}
use plot_thread.Plot.{Plot}
use plot_thread.Processor.State.{PlotStorage, Ledger}

-- IDs have 32 bytes and heights are in int64, also one below.
abbrev pub IsSized : Bytes → Plot → Type 0
IsSized plot_id plot =
    (length plot_id ≡ 32)
    × (length plot.header.previous ≡ 32)
    × IsInt64 plot.header.height
    × IsInt64 (sub64 plot.header.height (pos 1))

module _ (c : Crypto) {W F : Type 0} (plot_store : PlotStorage W) (ledger : Ledger W F)
    (IsSound : W → Type 0) where
  -- Of sound data: each call leaves sound data, and only the calls of `Ledger` move the tip.
  pub record IsLedger : Type 0 where
    pub stored_sized :
        (plot_id : Bytes) (plot : Plot) (w : W)
        → IsSound w
        → plot_store.get_plot plot_id w ≡ ok (some plot)
        → IsSized plot_id plot
    pub store_sound :
        (plot_id : Bytes) (plot : Plot) (now : ℤ) (w w' : W)
        → IsSound w
        → IsSized plot_id plot
        → plot_store.store plot_id plot now w ≡ ok w'
        → IsSound w' × (ledger.get_thread_tip w' ≡ ledger.get_thread_tip w)
    pub set_branch_type_sound :
        (plot_id : Bytes) (branch_type : ℕ) (w w' : W)
        → IsSound w
        → ledger.set_branch_type plot_id branch_type w ≡ ok w'
        → IsSound w'
          × (ledger.get_thread_tip w' ≡ ledger.get_thread_tip w)
          × (ledger.get_branch_type plot_id w' ≡ ok branch_type)
    pub connect_sound :
        (graph : Graph F) (plot_id : Bytes) (plot : Plot) (w w' : W) (tx_ids : List Bytes)
        → IsSound w
        → IsSized plot_id plot
        → ledger.connect_plot graph plot_id plot w ≡ ok (tx_ids, w')
        → IsSound w'
          × (ledger.get_thread_tip w' ≡ ok (some (plot_id, plot.header.height)))
          × (map (id c) plot.representations ≡ map ok tx_ids)
    pub disconnect_sound :
        (plot_id : Bytes) (plot : Plot) (w w' : W) (tx_ids : List Bytes)
        → IsSound w
        → IsSized plot_id plot
        → ledger.disconnect_plot plot_id plot w ≡ ok (tx_ids, w')
        → IsSound w'
          × (ledger.get_thread_tip w'
              ≡ ok (some (plot.header.previous, sub64 plot.header.height (pos 1))))
          × (map (id c) plot.representations ≡ map ok tx_ids)

  -- There is a tip.
  abbrev pub HasTip : W → Type 0
  HasTip w = (tip : Bytes × ℤ) × (ledger.get_thread_tip w ≡ ok (some tip))
