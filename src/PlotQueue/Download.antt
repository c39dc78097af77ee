-- ===== src/PlotQueue/Download.antt =====
-- plot_queue.go against a queue that is a plain list of entries, one for each plot.
use plot_thread.Prelude.{
  ℕ, suc, ◌-◌, ◌≡◌, refl, ap, Bool, true, false, Option, none, some, Option-cases, inl, inr, List,
  [], ◌∷◌, ◌++◌, if◌then◌else◌, ltb, length, arith, map,
}
use plot_thread.Prelude.Bytes.{Bytes, bytes_eq}
use plot_thread.Prelude.Assoc.{lookup}
use plot_thread.Indexed.{empty, find, contents, value_at}
use plot_thread.Indexed.Consistent.{
  IsConsistent, push_back-IsConsistent, delete-IsConsistent, assign-IsConsistent,
  empty-IsConsistent,
}
use plot_thread.Indexed.Contents.{
  first, without, replace, value_at-first, value_at-lookup, contents-delete, contents-assign,
  contents-push_back,
}
use plot_thread.PlotQueue.{
  Entry, PlotQueue, max_queue_wait, new_plot_queue, add, remove, exists, len,
}

abbrev pub id_of : Entry → Option Bytes
id_of e = some e.id

abbrev pub IsValid : PlotQueue → Type 0
IsValid = IsConsistent id_of

-- The queue as its entries in order.
unfoldable pub add_entry : Bytes → Bytes → ℕ → List Entry → List Entry × Bool
add_entry id who now es = elim (first id_of id es) [
  | none ↦ (es ++ record { id = id; who = who; when = now } ∷ [], true)
  | some e ↦
      if ltb (now - e.when) max_queue_wait
      then (es, false)
      else (replace id_of id (record { id = id; who = who; when = now }) es, true)
]

unfoldable pub remove_entry : Bytes → Bytes → List Entry → List Entry × Bool
remove_entry id who es = elim (first id_of id es) [
  | none ↦ (es, false)
  | some e ↦ if bytes_eq e.who who then (without id_of id es, true) else (es, false)
]

abbrev pub observed : PlotQueue × Bool → List Entry × Bool
observed (q, b) = (contents q, b)

value_at_missing : (id : Bytes) (q : PlotQueue) → lookup id q.index ≡ none → value_at q id ≡ none
unfolding value_at
value_at_missing id q e = ground arith

found-id :
    (id : Bytes) (q : PlotQueue) (h : ℕ)
    → IsValid q
    → lookup id q.index ≡ some h
    → (e : Entry) × (find h q.elements ≡ some e) × (e.id ≡ id)
found-id id q h v at = elim (Option-cases (find h q.elements)) [
  | inl e ↦ ground (arith, v.indexed id h at)
  | inr (e, found) ↦ (e, found, ground (arith, v.indexed id h at))
]

-- Where the map and the list agree, `Add` appends an unknown plot, refuses one that is pending, and
-- hands an expired one to the new peer in its place, as on the list of entries.
pub add-add_entry :
    (id who : Bytes) (now : ℕ) (q : PlotQueue)
    → IsValid q
    → observed (add id who now q) ≡ add_entry id who now (contents q)
unfolding add add_entry
add-add_entry id who now q v = elim (Option-cases (lookup id q.index)) [
  | inl e ↦ ground (
    arith,
    value_at-first id_of id q v,
    value_at_missing id q e,
    contents-push_back id (record { id = id; who = who; when = now }) q,
  )
  | inr (h, at) ↦
      let (entry, found, same) = found-id id q h v at in
      ground (
        arith,
        found,
        same,
        value_at-first id_of id q v,
        value_at-lookup id_of id h q v at,
        contents-assign id_of id h q v at (record { id = id; who = who; when = now }),
      )
]

-- Where the map and the list agree, `Remove` takes a plot out for the peer who is responsible for
-- it, and for no other, as on the list of entries.
pub remove-remove_entry :
    (id who : Bytes) (q : PlotQueue)
    → IsValid q
    → observed (remove id who q) ≡ remove_entry id who (contents q)
unfolding remove remove_entry
remove-remove_entry id who q v = elim (Option-cases (lookup id q.index)) [
  | inl e ↦ ground (arith, value_at-first id_of id q v, value_at_missing id q e)
  | inr (h, at) ↦
      let (entry, found, same) = found-id id q h v at in
      ground (
        arith,
        found,
        same,
        value_at-first id_of id q v,
        value_at-lookup id_of id h q v at,
        contents-delete id_of id h q v at,
      )
]

pub add-IsValid :
    (id who : Bytes) (now : ℕ) (q : PlotQueue) → IsValid q → IsValid (add id who now q).0
unfolding add
add-IsValid id who now q v = elim (Option-cases (lookup id q.index)) [
  | inl e ↦ ground (
    arith,
    push_back-IsConsistent id_of id (record { id = id; who = who; when = now }) q refl e v,
  )
  | inr (h, at) ↦
      let (entry, found, same) = found-id id q h v at in
      ground (
        arith,
        found,
        assign-IsConsistent id_of id h (record entry { when = now; who = who }) q at (ap some same)
            v,
      )
]

pub remove-IsValid : (id who : Bytes) (q : PlotQueue) → IsValid q → IsValid (remove id who q).0
unfolding remove
remove-IsValid id who q v = elim (Option-cases (lookup id q.index)) [
  | inl e ↦ ground arith
  | inr (h, at) ↦
      let (entry, found, same) = found-id id q h v at in
      ground (arith, found, same, delete-IsConsistent id_of id h q at v)
]

-- A call with its arguments; the clock comes with `Add`.
pub data Call : Type 0 where
  adds : Bytes → Bytes → ℕ → Call
  removes : Bytes → Bytes → Call

abbrev pub step : Call → PlotQueue → PlotQueue × Bool
step (adds id who now) q = add id who now q
step (removes id who) q = remove id who q

abbrev pub step_entries : Call → List Entry → List Entry × Bool
step_entries (adds id who now) es = add_entry id who now es
step_entries (removes id who) es = remove_entry id who es

-- The results of a history of calls, and the entries that it leaves.
unfoldable pub run : List Call → PlotQueue → List Bool × PlotQueue
run [] q = ([], q)
run (c ∷ cs) q = let (q', b) = step c q in let (bs, last) = run cs q' in (b ∷ bs, last)

unfoldable pub run_entries : List Call → List Entry → List Bool × List Entry
run_entries [] es = ([], es)
run_entries (c ∷ cs) es =
    let (es', b) = step_entries c es in let (bs, last) = run_entries cs es' in (b ∷ bs, last)

step-step_entries :
    (c : Call) (q : PlotQueue) → IsValid q → observed (step c q) ≡ step_entries c (contents q)
step-step_entries (adds id who now) q v = add-add_entry id who now q v
step-step_entries (removes id who) q v = remove-remove_entry id who q v

step-IsValid : (c : Call) (q : PlotQueue) → IsValid q → IsValid (step c q).0
step-IsValid (adds id who now) q v = add-IsValid id who now q v
step-IsValid (removes id who) q v = remove-IsValid id who q v

run-run_entries_from :
    (cs : List Call) (q : PlotQueue)
    → IsValid q
    → IsValid (run cs q).1
      × ((run cs q).0 ≡ (run_entries cs (contents q)).0)
      × (contents (run cs q).1 ≡ (run_entries cs (contents q)).1)
unfolding run run_entries
run-run_entries_from [] q v = (v, refl, refl)
run-run_entries_from (c ∷ cs) q v =
    let (valid, same, left) = run-run_entries_from cs (step c q).0 (step-IsValid c q v) in
    rw (← step-step_entries c q v) (valid, ap (◌∷◌ (step c q).1) same, left)

-- In every history of a new queue the calls return what they return on the list of entries, the
-- queue holds those entries in that order, and its map and its list agree.
pub run-run_entries :
    (cs : List Call)
    → IsValid (run cs new_plot_queue).1
      × ((run cs new_plot_queue).0 ≡ (run_entries cs []).0)
      × (contents (run cs new_plot_queue).1 ≡ (run_entries cs []).1)
unfolding new_plot_queue
run-run_entries cs = run-run_entries_from cs empty (empty-IsConsistent id_of)

length-contents : (xs : List (ℕ × Entry)) → length xs ≡ length (map (λ e. e.1) xs)
length-contents [] = refl
length-contents (x ∷ xs) = ap suc (length-contents xs)

-- Where the map and the list agree, a plot is in the queue exactly if one of the entries has its
-- ID, and `Len` counts the entries.
pub exists-contents :
    (id : Bytes) (q : PlotQueue)
    → IsValid q
    → (exists q id ≡ elim (first id_of id (contents q)) [ none ↦ false | some _ ↦ true ])
      × (len q ≡ length (contents q))
unfolding exists len
exists-contents id q v = elim (Option-cases (lookup id q.index)) [
  | inl e ↦ (
    ground (arith, value_at-first id_of id q v, value_at_missing id q e),
    length-contents q.elements,
  )
  | inr (h, at) ↦
      let (entry, found, same) = found-id id q h v at in
      (
        ground (arith, found, value_at-first id_of id q v, value_at-lookup id_of id h q v at),
        length-contents q.elements,
      )
]
