-- ===== src/Processor/OnDisk/Lawful.antt =====
-- ledger_disk.go: the ledger on disk obeys the laws of a ledger.
use plot_thread.Prelude.{
  ℕ, ◌≡◌, refl, Bool, not, Option, some, List, [], ◌∷◌, ◌++◌, ℤ, Result, ok, bind-eq-ok, refuse,
  Error, arith,
}
use plot_thread.Prelude.Bytes.{Bytes, bytes_eq}
use plot_thread.Graph.{Graph}
use plot_thread.Representation.{Representation, Crypto}
use plot_thread.ImbalanceCache.{empty}
use plot_thread.Plot.{Plot}
use plot_thread.LedgerDisk.Database.{Database, Op, puts, effect, IsAtomic}
use plot_thread.LedgerDisk.Keys.{compute_branch_type_key, compute_thread_tip_key}
use plot_thread.LedgerDisk.Queries.{get_thread_tip, set_branch_type}
use plot_thread.LedgerDisk.Connect.{
  imbalance_ops, connect_ops, extends, prune_if, connect_txs, connect_plot,
}
use plot_thread.LedgerDisk.Disconnect.{
  disconnect_ops, check_tip, restore_if, disconnect_txs, disconnect_plot,
}
use plot_thread.LedgerDisk.Settled.{IsReadable}
use plot_thread.LedgerDisk.Branches.{get_branch_type-set_branch_type}
use plot_thread.LedgerDisk.Tip.{connect_plot-tip}
use plot_thread.LedgerDisk.Undone.{disconnect_plot-tip}
use plot_thread.Processor.Laws.{IsSized, IsLedger}
use plot_thread.Processor.OnDisk.{PlotFiles, shared_storage, ledger_disk}

-- What is stored is sized, if only sized plots are stored.
pub record IsPlotFiles {S : Type 0} (plots : PlotFiles S) (IsSoundFiles : S → Type 0) : Type 0 where
  pub stored_sized :
      (plot_id : Bytes) (plot : Plot) (s : S)
      → IsSoundFiles s
      → plots.files.get_plot plot_id s ≡ ok (some plot)
      → IsSized plot_id plot
  pub store_sound :
      (plot_id : Bytes) (plot : Plot) (now : ℤ) (s s' : S)
      → IsSoundFiles s
      → IsSized plot_id plot
      → plots.files.store plot_id plot now s ≡ ok s'
      → IsSoundFiles s'

module _ {D : Type 0} (db : Database D) (atomic : IsAtomic db) where
  write-IsReadable :
      (ops : List Op) (d d' : D) → IsReadable db d → db.write ops d ≡ ok d' → IsReadable db d'
  write-IsReadable ops d d' readable done k =
      let (v, found) = readable k in (effect ops k v, atomic ops d d' k v done found)

  set_branch_type-IsReadable :
      (plot_id : Bytes) (branch_type : ℕ) (d d' : D)
      → IsReadable db d
      → set_branch_type db plot_id branch_type d ≡ ok d'
      → IsReadable db d'
  unfolding set_branch_type
  set_branch_type-IsReadable plot_id branch_type d d' readable done =
      write-IsReadable (puts (compute_branch_type_key plot_id) (branch_type ∷ []) ∷ []) d d'
        readable done

  set_branch_type-tip :
      (plot_id : Bytes) (branch_type : ℕ) (d d' : D)
      → IsReadable db d
      → set_branch_type db plot_id branch_type d ≡ ok d'
      → get_thread_tip db d' ≡ get_thread_tip db d
  unfolding set_branch_type get_thread_tip effect bytes_eq compute_branch_type_key
      compute_thread_tip_key
  set_branch_type-tip plot_id branch_type d d' readable done =
      let (v, found) = readable (b'T' ∷ []) in
      let same =
        atomic (puts (b'B' ∷ plot_id) (branch_type ∷ []) ∷ []) d d' (b'T' ∷ []) v done found in
      ground (arith, found, same)

module _ (c : Crypto) {F : Type 0} (graph : Graph F) {D : Type 0} (db : Database D)
    (get_representation : Bytes → ℕ → Result (Option Representation))
    (get_plot : Bytes → Result (Option Plot)) (prune : Bool) where
  connect_plot-write :
      (plot_id : Bytes) (plot : Plot) (d d' : D) (tx_ids : List Bytes)
      → connect_plot c graph db get_representation get_plot prune plot_id plot d ≡ ok (tx_ids, d')
      → (ops : List Op) × (db.write ops d ≡ ok d')
  unfolding connect_plot
  connect_plot-write plot_id plot d d' tx_ids e =
      let height = plot.header.height in
      let (tip, read, after_tip) = bind-eq-ok (get_thread_tip db d) _ e in
      let (_, extended, after_check) =
        bind-eq-ok (refuse (not (extends tip plot.header.previous)) Error.tip_mismatch) _
          after_tip in
      let ((ids, p), all, after_txs) =
        bind-eq-ok
          (connect_txs c graph db get_representation get_plot d height 0 plot.representations
            (record { batch = []; cache = empty }))
          _ after_check in
      let (pruned, found, after_prune) =
        bind-eq-ok (prune_if c graph db get_representation get_plot prune height d) _ after_txs in
      let ops = (p.batch ++ imbalance_ops p.cache) ++ (connect_ops plot_id height ++ pruned) in
      let (e', written, same) = bind-eq-ok (db.write ops d) _ after_prune in
      (ops, ground (arith, written, same))

module _ (c : Crypto) {D : Type 0} (db : Database D)
    (get_representation : Bytes → ℕ → Result (Option Representation))
    (get_plot : Bytes → Result (Option Plot)) (prune : Bool) where
  disconnect_plot-write :
      (plot_id : Bytes) (plot : Plot) (d d' : D) (tx_ids : List Bytes)
      → disconnect_plot c db get_representation get_plot prune plot_id plot d ≡ ok (tx_ids, d')
      → (ops : List Op) × (db.write ops d ≡ ok d')
  unfolding disconnect_plot
  disconnect_plot-write plot_id plot d d' tx_ids e =
      let height = plot.header.height in
      let (tip, read, after_tip) = bind-eq-ok (get_thread_tip db d) _ e in
      let (u, checked, after_check) = bind-eq-ok (check_tip tip plot_id) _ after_tip in
      let ((ids, p), all, after_txs) =
        bind-eq-ok
          (disconnect_txs c db get_representation get_plot d height 0 plot.representations
            (record { batch = []; cache = empty }))
          _ after_check in
      let (restored, found, after_restore) =
        bind-eq-ok (restore_if c db get_representation get_plot prune height d) _ after_txs in
      let ops =
        (p.batch ++ imbalance_ops p.cache)
        ++ (disconnect_ops plot_id plot.header.previous height ++ restored) in
      let (e', written, same) = bind-eq-ok (db.write ops d) _ after_restore in
      (ops, ground (arith, written, same))

abbrev pub IsSoundDisk : {D S : Type 0} → Database D → (S → Type 0) → D × S → Type 0
IsSoundDisk db IsSoundFiles w = IsReadable db w.0 × IsSoundFiles w.1

module _ (c : Crypto) {D S F : Type 0} (db : Database D) (plots : PlotFiles S) (prune : Bool)
    (IsSoundFiles : S → Type 0) (atomic : IsAtomic db)
    (files_laws : IsPlotFiles plots IsSoundFiles) where
  -- On a database that writes atomically, and with a storage that holds sized plots as long as only
  -- such are stored, the ledger on disk obeys the laws of a ledger, where the database is readable.
  pub ledger_disk-IsLedger :
      IsLedger c
        (shared_storage plots)
        (ledger_disk c {F = F} db plots prune)
        (IsSoundDisk db IsSoundFiles)
  unfolding ledger_disk shared_storage
  ledger_disk-IsLedger = record {
    stored_sized = λ plot_id plot w sound e. files_laws.stored_sized plot_id plot w.1 sound.1 e;
    store_sound = λ plot_id plot now w w' sound sized e.
        let (s, done, same) = bind-eq-ok (plots.files.store plot_id plot now w.1) _ e in
        let there : (w.0, s) ≡ w' = ground (arith, same) in
        rw (← there)
          ((sound.0, files_laws.store_sound plot_id plot now w.1 s sound.1 sized done), refl);
    set_branch_type_sound = λ plot_id t w w' sound e.
        let (d, done, same) = bind-eq-ok (set_branch_type db plot_id t w.0) _ e in
        let there : (d, w.1) ≡ w' = ground (arith, same) in
        rw (← there) (
          (set_branch_type-IsReadable db atomic plot_id t w.0 d sound.0 done, sound.1),
          set_branch_type-tip db atomic plot_id t w.0 d sound.0 done,
          (get_branch_type-set_branch_type db plot_id plot_id t w.0 d atomic sound.0 done).0,
        );
    connect_sound = λ g plot_id plot w w' ids sound sized e.
        let ((ids', d), done, same) =
          bind-eq-ok
            (connect_plot c g db (plots.get_representation w.1) (λ i. plots.files.get_plot i w.1)
              prune plot_id plot w.0)
            _ e in
        let there : (d, w.1) ≡ w' = ground (arith, same) in
        let same_ids : ids' ≡ ids = ground (arith, same) in
        let (ops, written) =
          connect_plot-write c g db (plots.get_representation w.1) (λ i. plots.files.get_plot i w.1)
            prune plot_id plot w.0 d ids' done in
        let (before, named, tip, branch, index) =
          connect_plot-tip c g db (plots.get_representation w.1) (λ i. plots.files.get_plot i w.1)
            prune plot_id plot w.0 d ids' atomic sound.0 sized.0 sized.2 done in
        rw (← there, ← same_ids)
          ((write-IsReadable db atomic ops w.0 d sound.0 written, sound.1), tip, named);
    disconnect_sound = λ plot_id plot w w' ids sound sized e.
        let ((ids', d), done, same) =
          bind-eq-ok
            (disconnect_plot c db (plots.get_representation w.1) (λ i. plots.files.get_plot i w.1)
              prune plot_id plot w.0)
            _ e in
        let there : (d, w.1) ≡ w' = ground (arith, same) in
        let same_ids : ids' ≡ ids = ground (arith, same) in
        let (ops, written) =
          disconnect_plot-write c db (plots.get_representation w.1)
            (λ i. plots.files.get_plot i w.1) prune plot_id plot w.0 d ids' done in
        let (before, named, tip, branch, index) =
          disconnect_plot-tip c db (plots.get_representation w.1) (λ i. plots.files.get_plot i w.1)
            prune plot_id plot w.0 d ids' atomic sound.0 sized.1 sized.3 done in
        rw (← there, ← same_ids)
          ((write-IsReadable db atomic ops w.0 d sound.0 written, sound.1), tip, named);
  }
