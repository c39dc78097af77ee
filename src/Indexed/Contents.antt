-- ===== src/Indexed/Contents.antt =====
-- The values in order, by their keys alone: the abstract view, which forgets the handles.
use plot_thread.Prelude.{
  ℕ, ◌≡◌, refl, Bool, false, Option, none, some, Option-cases, inl, inr, List, [], ◌∷◌, ◌++◌, ◌==◌,
  if◌then◌else◌, arith, map, subst,
}
use mathlib.Core.List.{map-append}
use plot_thread.Prelude.Bytes.{Bytes, bytes_eq, bytes_eq_iff}
use plot_thread.Prelude.Assoc.{lookup}
use plot_thread.Indexed.{
  Indexed, find, remove, assign, push_back, push_front, delete, contents, value_at,
}
use plot_thread.Indexed.Consistent.{IsConsistent, Distinct}

module _ {A : Type 0} (key : A → Option Bytes) where
  abbrev pub has_key : Bytes → A → Bool
  has_key k a = elim (key a) [ none ↦ false | some j ↦ bytes_eq j k ]

  -- The first value of a key.
  unfoldable pub first : Bytes → List A → Option A
  first k [] = none
  first k (a ∷ xs) = if has_key k a then some a else first k xs

  -- Without the values of a key.
  unfoldable pub without : Bytes → List A → List A
  without k [] = []
  without k (a ∷ xs) = if has_key k a then without k xs else a ∷ without k xs

  -- With the values of a key replaced.
  unfoldable pub replace : Bytes → A → List A → List A
  replace k b [] = []
  replace k b (a ∷ xs) = (if has_key k a then b else a) ∷ replace k b xs

  -- The elements of a key are those of one handle, or there are none.
  abbrev pub Marks : Bytes → Option ℕ → List (ℕ × A) → Type 0
  Marks k o [] = Unit
  Marks k o ((j, a) ∷ xs) = (has_key k a ≡ elim o [ none ↦ false | some h ↦ j == h ]) × Marks k o xs

  Marks-elements :
      (k : Bytes) (o : Option ℕ) (xs : List (ℕ × A))
      → Distinct xs
      → ((j : ℕ) (a : A)
          → find j xs ≡ some a
          → has_key k a ≡ elim o [ none ↦ false | some h ↦ j == h ])
      → Marks k o xs
  unfolding find
  Marks-elements k o [] d p = tt
  Marks-elements k o ((i, a) ∷ xs) (new, d) p =
      (p i a (ground arith), Marks-elements k o xs d (λ j b e. p j b (ground arith)))

  pub Marks-IsConsistent :
      (k : Bytes) (q : Indexed A) → IsConsistent key q → Marks k (lookup k q.index) q.elements
  Marks-IsConsistent k q v = Marks-elements k (lookup k q.index) q.elements v.distinct (λ j a e.
      elim (Option-cases (key a)) [
        | inl nokey ↦ ground (arith, v.indexed k j)
        | inr (i, keyed) ↦ ground (arith, v.indexed k j, v.listed k j, bytes_eq_iff i k)
      ])

  find-first :
      (k : Bytes) (h : ℕ) (xs : List (ℕ × A))
      → Marks k (some h) xs
      → find h xs ≡ first k (map (λ e. e.1) xs)
  unfolding find first
  find-first k h [] m = refl
  find-first k h ((j, a) ∷ xs) m = ground (arith, find-first k h xs m.1)

  first-none :
      (k : Bytes) (xs : List (ℕ × A)) → Marks k none xs → first k (map (λ e. e.1) xs) ≡ none
  unfolding first
  first-none k [] m = refl
  first-none k ((j, a) ∷ xs) m = ground (arith, first-none k xs m.1)

  remove-without :
      (k : Bytes) (h : ℕ) (xs : List (ℕ × A))
      → Marks k (some h) xs
      → map (λ e. e.1) (remove h xs) ≡ without k (map (λ e. e.1) xs)
  unfolding remove without
  remove-without k h [] m = refl
  remove-without k h ((j, a) ∷ xs) m = ground (arith, remove-without k h xs m.1)

  assign-replace :
      (k : Bytes) (h : ℕ) (b : A) (xs : List (ℕ × A))
      → Marks k (some h) xs
      → map (λ e. e.1) (assign h b xs) ≡ replace k b (map (λ e. e.1) xs)
  unfolding assign replace
  assign-replace k h b [] m = refl
  assign-replace k h b ((j, a) ∷ xs) m = ground (arith, assign-replace k h b xs m.1)

  -- What the map leads to is the first value of the key.
  pub value_at-first :
      (k : Bytes) (q : Indexed A) → IsConsistent key q → value_at q k ≡ first k (contents q)
  unfolding value_at
  value_at-first k q v = elim (Option-cases (lookup k q.index)) [
    | inl e ↦ ground (
      arith,
      first-none k q.elements (subst (λ o. Marks k o q.elements) e (Marks-IsConsistent k q v)),
    )
    | inr (h, e) ↦ ground (
      arith,
      find-first k h q.elements (subst (λ o. Marks k o q.elements) e (Marks-IsConsistent k q v)),
    )
  ]

  module _ (k : Bytes) (h : ℕ) (q : Indexed A) (v : IsConsistent key q)
      (at : lookup k q.index ≡ some h) where
    pub contents-delete : contents (delete k h q) ≡ without k (contents q)
    unfolding delete
    contents-delete =
        remove-without k h q.elements
          (subst (λ o. Marks k o q.elements) at (Marks-IsConsistent k q v))

    pub contents-assign :
        (b : A)
        → contents (record q { elements = assign h b q.elements }) ≡ replace k b (contents q)
    contents-assign b =
        assign-replace k h b q.elements
          (subst (λ o. Marks k o q.elements) at (Marks-IsConsistent k q v))

    pub value_at-lookup : value_at q k ≡ find h q.elements
    unfolding value_at
    value_at-lookup = ground arith

pub contents-push_back :
    {A : Type 0} (k : Bytes) (a : A) (q : Indexed A)
    → contents (push_back k a q) ≡ contents q ++ a ∷ []
unfolding push_back
contents-push_back k a q = map-append _ q.elements _

pub contents-push_front :
    {A : Type 0} (k : Bytes) (a : A) (q : Indexed A) → contents (push_front k a q) ≡ a ∷ contents q
unfolding push_front
contents-push_front k a q = refl
