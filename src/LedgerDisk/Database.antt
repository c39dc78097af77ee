-- ===== src/LedgerDisk/Database.antt =====
-- ledger_disk.go: what the ledger takes from LevelDB, and the batches that it writes.
use plot_thread.Prelude.{
  ◌≡◌, refl, Bool, Option, none, some, List, [], ◌∷◌, ◌++◌, if◌then◌else◌, Result, ok,
}
use plot_thread.Prelude.Bytes.{Bytes, bytes_eq}

-- The records of a `leveldb.Batch`.
pub data Op : Type 0 where
  puts : Bytes → Bytes → Op
  deletes : Bytes → Op

-- What a batch leaves under a key: its last record of the key wins.
unfoldable pub effect : List Op → Bytes → Option Bytes → Option Bytes
effect [] k v = v
effect (puts j w ∷ ops) k v = effect ops k (if bytes_eq j k then some w else v)
effect (deletes j ∷ ops) k v = effect ops k (if bytes_eq j k then none else v)

-- `Get`, with `none` for ErrNotFound, `Has`, and `Write` of a batch.
pub record Database (D : Type 0) : Type 0 where
  pub get : D → Bytes → Result (Option Bytes)
  pub has : D → Bytes → Result Bool
  pub write : List Op → D → Result D

-- `NewIterator` over a range of keys, from the first to before the last: the entries that it meets,
-- in the order of their keys, and what `Error` says after them.
pub record Iteration (D : Type 0) : Type 0 where
  pub range : D → Bytes → Bytes → List (Bytes × Bytes) × Result (Unit {0})

-- A batch that is written takes effect as a whole, on every key that can be read.
abbrev pub IsAtomic : {D : Type 0} → Database D → Type 0
IsAtomic {D} db =
    (ops : List Op) (d d' : D) (k : Bytes) (v : Option Bytes)
    → db.write ops d ≡ ok d'
    → db.get d k ≡ ok v
    → db.get d' k ≡ ok (effect ops k v)

pub effect-append :
    (xs ys : List Op) (k : Bytes) (v : Option Bytes)
    → effect (xs ++ ys) k v ≡ effect ys k (effect xs k v)
unfolding effect
effect-append [] ys k v = refl
effect-append (puts j w ∷ xs) ys k v = effect-append xs ys k (if bytes_eq j k then some w else v)
effect-append (deletes j ∷ xs) ys k v = effect-append xs ys k (if bytes_eq j k then none else v)
