-- ===== src/Indexed/Unique.antt =====
-- A key stands once in the list: deleting it takes out one value and leaves the others in place.
use plot_thread.Prelude.{
  ℕ, ◌≡◌, refl, ◌∙◌, subst, true, Option, none, some, Option-cases, Bool-cases, inl, inr, List, [],
  ◌∷◌, ◌++◌, arith, map,
}
use plot_thread.Prelude.Bytes.{Bytes, bytes_eq_iff}
use plot_thread.Prelude.Assoc.{lookup}
use plot_thread.Indexed.{Indexed, find, delete, contents}
use plot_thread.Indexed.Consistent.{IsConsistent, Distinct, delete-IsConsistent}
use plot_thread.Indexed.Contents.{has_key, without, Marks, Marks-IsConsistent, contents-delete}

module _ {A : Type 0} (key : A → Option Bytes) (k : Bytes) where
  abbrev values : List (ℕ × A) → List A
  values xs = map (λ e. e.1) xs

  unmarked :
      (h : ℕ) (xs : List (ℕ × A)) → find h xs ≡ none → Marks key k (some h) xs → Marks key k none xs
  unfolding find
  unmarked h [] e m = tt
  unmarked h ((j, a) ∷ xs) e m = (ground arith, unmarked h xs (ground arith) m.1)

  without-unmarked :
      (xs : List (ℕ × A)) → Marks key k none xs → without key k (values xs) ≡ values xs
  unfolding without
  without-unmarked [] m = refl
  without-unmarked ((j, a) ∷ xs) m = ground (arith, without-unmarked xs m.1)

  not-unmarked :
      (before after : List A) (a : A) (xs : List (ℕ × A))
      → Marks key k none xs
      → values xs ≡ before ++ a ∷ after
      → has_key key k a ≡ true
      → ⊥
  not-unmarked [] after a [] m e h = cc
  not-unmarked (b ∷ before) after a [] m e h = cc
  not-unmarked [] after a ((j, b) ∷ xs) m e h = ground arith
  not-unmarked (c ∷ before) after a ((j, b) ∷ xs) m e h =
      not-unmarked before after a xs m.1 (ground arith) h

  without-marked :
      (before after : List A) (a : A) (h : ℕ) (xs : List (ℕ × A))
      → Distinct xs
      → Marks key k (some h) xs
      → values xs ≡ before ++ a ∷ after
      → has_key key k a ≡ true
      → without key k (values xs) ≡ before ++ after
  unfolding without
  without-marked [] after a h [] d m e keyed = cc
  without-marked (b ∷ before) after a h [] d m e keyed = cc
  without-marked [] after a h ((j, b) ∷ xs) (new, d) m e keyed =
      ground (arith, without-unmarked xs, unmarked h xs)
  without-marked (c ∷ before) after a h ((j, b) ∷ xs) (new, d) m e keyed =
      elim (Bool-cases (has_key key k b)) [
        | inl same ↦
            absurd (
              not-unmarked before after a xs (unmarked h xs (ground arith) m.1) (ground arith)
                keyed)
        | inr other ↦ ground (arith, without-marked before after a h xs d m.1)
      ]

  -- A value of the list is found under its key, and deleting the key takes out that value alone.
  pub contents-delete_middle :
      (before after : List A) (a : A) (q : Indexed A)
      → IsConsistent key q
      → contents q ≡ before ++ a ∷ after
      → key a ≡ some k
      → (h : ℕ) × (lookup k q.index ≡ some h)
        × (contents (delete k h q) ≡ before ++ after)
        × IsConsistent key (delete k h q)
  contents-delete_middle before after a q v e keyed =
      let marks = Marks-IsConsistent key k q v in
      let has : has_key key k a ≡ true = ground (arith, bytes_eq_iff k k) in
      elim (Option-cases (lookup k q.index)) [
        | inl e' ↦ absurd (
            not-unmarked before after a q.elements (subst (λ o. Marks key k o q.elements) e' marks)
              e has)
        | inr (h, e') ↦ (
          h,
          e',
          contents-delete key k h q v e'
              ∙ without-marked before after a h q.elements v.distinct
                  (subst (λ o. Marks key k o q.elements) e' marks) e has,
          delete-IsConsistent key k h q e' v,
        )
      ]
