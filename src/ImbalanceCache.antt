-- ===== src/ImbalanceCache.antt =====
-- imbalance_cache.go: a partial view of the imbalances that is not confirmed yet. The ledger's
-- `GetPublicKeyImbalance` is a parameter, which may fail.
pub mod View
pub mod Undoing
use plot_thread.Prelude.{
  ◌≡◌, Bool, true, false, Option, none, some, ℤ, pos, Result, ok, err, panic, Action, pure, lift,
  gets, modify, ltb_ℤ, add64, sub64, if◌then◌else◌, [],
}
use plot_thread.Prelude.Stateful.{◌>>=◌, ◌>>◌, branch}
use plot_thread.Prelude.Bytes.{Bytes, copy_array, or_empty}
use plot_thread.Prelude.Assoc.{Assoc, lookup, insert}
use plot_thread.Representation.{Representation, is_plotroot}

-- `map[[ed25519.PublicKeySize]byte]int64`
abbrev pub Cache : Type 0
Cache = Assoc ℤ

-- The array of a public key.
abbrev pub array_of : Option Bytes → Bytes
array_of key = copy_array 32 (or_empty key)

-- `NewImbalanceCache` and `Reset`
abbrev pub empty : Cache
empty = []

module _ (get_public_key_imbalance : Bytes → Result ℤ) where
  -- The cached imbalance of a key, or else the ledger's.
  unfoldable pub imbalance_of : Option Bytes → Cache → Result ℤ
  imbalance_of key cache = elim (lookup (array_of key) cache) [
    | some imbalance ↦ ok imbalance
    | none ↦ get_public_key_imbalance (or_empty key)
  ]

  unfoldable pub fetch : Option Bytes → Action Cache ℤ
  fetch key cache = (imbalance_of key cache, cache)

  unfoldable pub credit : Option Bytes → Action Cache (Unit {0})
  unfolding fetch
  credit key = do imbalance ← fetch key; modify (insert (array_of key) (add64 imbalance (pos 1)))

  -- False if the sender has less than 1.
  unfoldable pub debit_sender : Representation → Action Cache Bool
  unfolding is_plotroot fetch
  debit_sender tx = branch (is_plotroot tx) (pure true) do
    imbalance ← fetch tx.by
    branch (ltb_ℤ imbalance (pos 1)) (pure false)
        do modify (insert (array_of tx.by) (sub64 imbalance (pos 1))); pure true

  unfoldable pub apply : Representation → Action Cache Bool
  unfolding debit_sender credit
  apply tx = do covered ← debit_sender tx; branch covered (do credit tx.for; pure true) (pure false)

  unfoldable pub credit_sender : Representation → Action Cache (Unit {0})
  unfolding is_plotroot credit
  credit_sender tx = branch (is_plotroot tx) (pure tt) (credit tx.by)

  -- A recipient with less than 1 stops the program.
  unfoldable pub debit_recipient : Representation → Action Cache (Unit {0})
  unfolding fetch
  debit_recipient tx = do
    imbalance ← fetch tx.for
    branch (ltb_ℤ imbalance (pos 1)) (lift panic)
        (modify (insert (array_of tx.for) (sub64 imbalance (pos 1))))

  unfoldable pub undo : Representation → Action Cache (Unit {0})
  unfolding credit_sender debit_recipient
  undo tx = do credit_sender tx; debit_recipient tx
