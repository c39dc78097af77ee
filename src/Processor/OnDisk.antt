-- ===== src/Processor/OnDisk.antt =====
-- ledger_disk.go behind the interface of ledger.go, over a database and a plot storage that the
-- ledger reads.
pub mod Lawful
use plot_thread.Prelude.{ℕ, Bool, Option, none, some, ℤ, Result, ok, bind}
use plot_thread.Prelude.Bytes.{Bytes}
use plot_thread.Representation.{Representation, Crypto}
use plot_thread.Plot.{Plot, PlotHeader}
use plot_thread.LedgerDisk.Database.{Database}
use plot_thread.LedgerDisk.Queries as Queries
use plot_thread.LedgerDisk.Connect as Connecting
use plot_thread.LedgerDisk.Disconnect as Disconnecting
use plot_thread.Processor.State.{PlotStorage, Ledger}

-- Plot storage alone, with the representations that the ledger asks for.
pub record PlotFiles (S : Type 0) : Type 0 where
  pub files : PlotStorage S
  pub get_representation : S → Bytes → ℕ → Result (Option Representation)

unfoldable pub shared_storage : {D S : Type 0} → PlotFiles S → PlotStorage (D × S)
shared_storage plots = record {
  store = λ plot_id plot now w. bind (plots.files.store plot_id plot now w.1) (λ s. ok (w.0, s));
  get_plot = λ plot_id w. plots.files.get_plot plot_id w.1;
  get_plot_header = λ w plot_id. plots.files.get_plot_header w.1 plot_id;
}

module _ (c : Crypto) {D S F : Type 0} (db : Database D) (plots : PlotFiles S) (prune : Bool) where
  open plots use {files, get_representation}

  unfoldable pub ledger_disk : Ledger (D × S) F
  ledger_disk = record {
    get_thread_tip = λ w. Queries.get_thread_tip db w.0;
    get_plot_id_for_height = λ w height. Queries.get_plot_id_for_height db height w.0;
    set_branch_type =
        λ plot_id t w. bind (Queries.set_branch_type db plot_id t w.0) (λ d. ok (d, w.1));
    get_branch_type = λ plot_id w. Queries.get_branch_type db plot_id w.0;
    connect_plot = λ graph plot_id plot w.
        bind
          (Connecting.connect_plot c graph db (get_representation w.1) (λ i. files.get_plot i w.1)
            prune plot_id plot w.0)
          (λ r. ok (r.0, (r.1, w.1)));
    disconnect_plot = λ plot_id plot w.
        bind
          (Disconnecting.disconnect_plot c db (get_representation w.1) (λ i. files.get_plot i w.1)
            prune plot_id plot w.0)
          (λ r. ok (r.0, (r.1, w.1)));
    get_public_key_imbalance = λ w key. Queries.get_public_key_imbalance db w.0 key;
    get_representation_index = λ tx_id w. Queries.get_representation_index db tx_id w.0;
  }
