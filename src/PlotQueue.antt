-- ===== src/PlotQueue.antt =====
-- plot_queue.go: the queue of plots to download. Each operation holds the lock throughout, so calls
-- do not interleave; the clock is an argument, in nanoseconds.
pub mod Download
use plot_thread.Prelude.{
  ℕ, ◌-◌, ◌≡◌, Bool, true, false, Option, none, some, List, [], ◌∷◌, if◌then◌else◌, ltb, length,
  replicate,
}
use plot_thread.Prelude.Bytes.{Bytes, bytes_eq}
use plot_thread.Prelude.Assoc.{lookup}
use plot_thread.Indexed.{Indexed, empty, find, assign, push_back, delete, contents}

-- `plotQueueEntry`
pub record Entry : Type 0 where
  pub id : Bytes
  pub who : Bytes
  pub when : ℕ

-- `plotMap` and `plotQueue`
abbrev pub PlotQueue : Type 0
PlotQueue = Indexed Entry

-- Two minutes.
abbrev pub max_queue_wait : ℕ
max_queue_wait = 120000000000

unfoldable pub new_plot_queue : PlotQueue
new_plot_queue = empty

-- The entry is a pointer: what is written through it is seen in the list.
retry : ℕ → Entry → Bytes → ℕ → PlotQueue → PlotQueue × Bool
retry h entry who now q = if ltb (now - entry.when) max_queue_wait then (q, false) else (
  record q { elements = assign h (record entry { when = now; who = who }) q.elements },
  true,
)

-- An element of the map is always in the list (IsConsistent), so `none` does not occur.
retry_found : ℕ → Option Entry → Bytes → ℕ → PlotQueue → PlotQueue × Bool
unfolding retry
retry_found h none who now q = (q, false)
retry_found h (some entry) who now q = retry h entry who now q

unfoldable pub add : Bytes → Bytes → ℕ → PlotQueue → PlotQueue × Bool
unfolding retry_found
add id who now q = elim (lookup id q.index) [
  | some h ↦ retry_found h (find h q.elements) who now q
  | none ↦ (push_back id (record { id = id; who = who; when = now }) q, true)
]

remove_owned : ℕ → Option Entry → Bytes → PlotQueue → PlotQueue × Bool
remove_owned h none who q = (q, false)
remove_owned h (some entry) who q =
    if bytes_eq entry.who who then (delete entry.id h q, true) else (q, false)

unfoldable pub remove : Bytes → Bytes → PlotQueue → PlotQueue × Bool
unfolding remove_owned
remove id who q = elim (lookup id q.index) [
  | some h ↦ remove_owned h (find h q.elements) who q
  | none ↦ (q, false)
]

unfoldable pub exists : PlotQueue → Bytes → Bool
exists q id = elim (lookup id q.index) [ none ↦ false | some _ ↦ true ]

-- The zero ID and false for an empty queue.
unfoldable pub peek : PlotQueue → Bytes × Bool
peek q = elim (contents q) [ [] ↦ (replicate 32 0, false) | entry ∷ _ ↦ (entry.id, true) ]

unfoldable pub len : PlotQueue → ℕ
len q = length q.elements
