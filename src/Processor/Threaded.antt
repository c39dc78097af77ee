-- ===== src/Processor/Threaded.antt =====
-- processor.go: the search for the common ancestor ends, on a storage in which every plot stands on
-- its parent.
use plot_thread.Prelude.{ℕ, suc, ◌≡◌, true, Option, some, List, ℤ, pos, Result, ok}
use plot_thread.Prelude.Bytes.{Bytes}
use plot_thread.Plot.{PlotHeader}
use plot_thread.Processor.Reorganize.{header_eq}

module _ (get_plot_header : Bytes → Result (Option (PlotHeader × ℤ))) where
  -- A header that is stored at the given height.
  abbrev pub IsStoredAt : ℕ → PlotHeader → Type 0
  IsStoredAt n h =
      (i : Bytes) × (when : ℤ) × (get_plot_header i ≡ ok (some (h, when))) × (h.height ≡ pos n)

  -- Every stored plot but the first has its parent stored, one height below, and there is one first
  -- plot.
  pub record IsThreaded : Type 0 where
    pub parent :
        (n : ℕ) (h : PlotHeader)
        → IsStoredAt (suc n) h
        → (h' : PlotHeader) × (when : ℤ) × (get_plot_header h.previous ≡ ok (some (h', when)))
          × (h'.height ≡ pos n)
    pub first : (g h : PlotHeader) → IsStoredAt 0 g → IsStoredAt 0 h → header_eq h g ≡ true
