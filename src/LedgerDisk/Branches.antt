-- ===== src/LedgerDisk/Branches.antt =====
-- ledger_disk.go: `SetBranchType` and `GetBranchType`.
use plot_thread.Prelude.{ℕ, ◌≡◌, ◌≢◌, [], ◌∷◌, ok, arith}
use plot_thread.Prelude.Bytes.{Bytes, bytes_eq, bytes_eq_refl, bytes_eq_iff}
use plot_thread.LedgerDisk.Database.{Database, effect, puts, IsAtomic}
use plot_thread.LedgerDisk.Keys.{compute_branch_type_key}
use plot_thread.LedgerDisk.Queries.{decode_branch_type, set_branch_type, get_branch_type}
use plot_thread.LedgerDisk.Settled.{IsReadable}

module _ {D : Type 0} (db : Database D) where
  -- Where `SetBranchType` succeeds on a database that is readable and writes atomically, the plot
  -- has that branch type, and every other plot the one that it had.
  pub get_branch_type-set_branch_type :
      (plot_id other : Bytes) (branch_type : ℕ) (d d' : D)
      → IsAtomic db
      → IsReadable db d
      → set_branch_type db plot_id branch_type d ≡ ok d'
      → (get_branch_type db plot_id d' ≡ ok branch_type)
        × (other ≢ plot_id → get_branch_type db other d' ≡ get_branch_type db other d)
  unfolding set_branch_type get_branch_type effect compute_branch_type_key decode_branch_type
      bytes_eq
  get_branch_type-set_branch_type plot_id other branch_type d d' atomic readable e =
      let op = puts (b'B' ∷ plot_id) (branch_type ∷ []) in
      let (v, found) = readable (b'B' ∷ plot_id) in
      let (u, there) = readable (b'B' ∷ other) in
      let here = atomic (op ∷ []) d d' (b'B' ∷ plot_id) v e found in
      let beside = atomic (op ∷ []) d d' (b'B' ∷ other) u e there in
      (
        ground (arith, here, bytes_eq_refl plot_id),
        λ apart. ground (arith, beside, there, apart, bytes_eq_iff plot_id other),
      )
