-- ===== src/Indexed.antt =====
-- The shape that plot_queue.go and representation_queue_memory.go share: a container/list with a
-- map from keys to its elements. An element is a pointer, here a handle that is never used again.
pub mod Consistent
pub mod Contents
pub mod Unique
use plot_thread.Prelude.{
  ℕ, suc, ◌≡◌, Bool, true, false, Option, none, some, List, [], ◌∷◌, ◌++◌, ◌==◌, if◌then◌else◌, map,
}
use plot_thread.Prelude.Bytes.{Bytes}
use plot_thread.Prelude.Assoc.{Assoc, lookup, insert, erase}

pub record Indexed (A : Type 0) : Type 0 where
  pub index : Assoc ℕ
  pub elements : List (ℕ × A)
  pub next : ℕ

module _ {A : Type 0} where
  abbrev pub empty : Indexed A
  empty = record { index = []; elements = []; next = 0 }

  -- `e.Value`
  unfoldable pub find : ℕ → List (ℕ × A) → Option A
  find h [] = none
  find h ((j, a) ∷ xs) = if j == h then some a else find h xs

  -- `list.Remove`: an element that is not in the list stays out of it.
  unfoldable pub remove : ℕ → List (ℕ × A) → List (ℕ × A)
  remove h [] = []
  remove h ((j, a) ∷ xs) = if j == h then remove h xs else (j, a) ∷ remove h xs

  -- `e.Value = a`
  unfoldable pub assign : ℕ → A → List (ℕ × A) → List (ℕ × A)
  assign h b [] = []
  assign h b ((j, a) ∷ xs) = (if j == h then (j, b) else (j, a)) ∷ assign h b xs

  -- `e := list.PushBack(a); index[k] = e`
  unfoldable pub push_back : Bytes → A → Indexed A → Indexed A
  push_back k a q = record {
    index = insert k q.next q.index;
    elements = q.elements ++ (q.next, a) ∷ [];
    next = suc q.next;
  }

  -- `e := list.PushFront(a); index[k] = e`
  unfoldable pub push_front : Bytes → A → Indexed A → Indexed A
  push_front k a q = record {
    index = insert k q.next q.index;
    elements = (q.next, a) ∷ q.elements;
    next = suc q.next;
  }

  -- `list.Remove(e); delete(index, k)`
  unfoldable pub delete : Bytes → ℕ → Indexed A → Indexed A
  delete k h q = record q { index = erase k q.index; elements = remove h q.elements }

  -- The values in order, which is what the list is for.
  abbrev pub contents : Indexed A → List A
  contents q = map (λ e. e.1) q.elements

  -- `index[k].Value`
  unfoldable pub value_at : Indexed A → Bytes → Option A
  unfolding find
  value_at q k = elim (lookup k q.index) [ none ↦ none | some h ↦ find h q.elements ]
