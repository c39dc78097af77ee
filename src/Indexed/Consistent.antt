-- ===== src/Indexed/Consistent.antt =====
-- The map and the list agree, and each operation keeps that.
use plot_thread.Prelude.{
  ℕ, suc, ◌≡◌, refl, ◌≤◌, Option, none, some, List, [], ◌∷◌, ◌++◌, ◌==◌, Option-cases, inl, inr,
  if◌then◌else◌, arith,
}
use plot_thread.Prelude.Bytes.{Bytes, bytes_eq, bytes_eq_iff}
use plot_thread.Prelude.Assoc.{lookup, lookup-insert, lookup-erase}
use plot_thread.Indexed.{Indexed, empty, find, remove, assign, push_back, push_front, delete}

module _ {A : Type 0} where
  pub find-remove :
      (j h : ℕ) (xs : List (ℕ × A)) → find j (remove h xs) ≡ (if h == j then none else find j xs)
  unfolding find remove
  find-remove j h [] = ground arith
  find-remove j h ((i, a) ∷ xs) = ground (arith, find-remove j h xs)

  pub find-append :
      (j h : ℕ) (a : A) (xs : List (ℕ × A))
      → find j xs ≡ none
      → find j (xs ++ (h, a) ∷ []) ≡ (if h == j then some a else none)
  unfolding find
  find-append j h a [] e = refl
  find-append j h a ((i, b) ∷ xs) e = ground (arith, find-append j h a xs)

  pub find-append_found :
      (j h : ℕ) (a b : A) (xs : List (ℕ × A))
      → find j xs ≡ some b
      → find j (xs ++ (h, a) ∷ []) ≡ some b
  unfolding find
  find-append_found j h a b [] e = cc
  find-append_found j h a b ((i, c) ∷ xs) e = ground (arith, find-append_found j h a b xs)

  pub find-assign :
      (j h : ℕ) (b : A) (xs : List (ℕ × A))
      → find j (assign h b xs)
        ≡ elim (find j xs) [ none ↦ none | some a ↦ if h == j then some b else some a ]
  unfolding find assign
  find-assign j h b [] = refl
  find-assign j h b ((i, a) ∷ xs) = ground (arith, find-assign j h b xs)

-- No handle stands twice in the list.
abbrev pub Distinct : {A : Type 0} → List (ℕ × A) → Type 0
Distinct [] = Unit
Distinct ((h, a) ∷ xs) = (find h xs ≡ none) × Distinct xs

module _ {A : Type 0} where
  Distinct-append :
      (h : ℕ) (a : A) (xs : List (ℕ × A))
      → find h xs ≡ none
      → Distinct xs
      → Distinct (xs ++ (h, a) ∷ [])
  unfolding find
  Distinct-append h a [] e d = (refl, tt)
  Distinct-append h a ((i, b) ∷ xs) e (new, d) =
      (ground (arith, find-append i h a xs), Distinct-append h a xs (ground arith) d)

  pub Distinct-remove : (h : ℕ) (xs : List (ℕ × A)) → Distinct xs → Distinct (remove h xs)
  unfolding remove
  Distinct-remove h [] d = tt
  Distinct-remove h ((i, a) ∷ xs) (new, d) =
      ground (arith, find-remove i h xs, Distinct-remove h xs d)

  Distinct-assign : (h : ℕ) (b : A) (xs : List (ℕ × A)) → Distinct xs → Distinct (assign h b xs)
  unfolding assign
  Distinct-assign h b [] d = tt
  Distinct-assign h b ((i, a) ∷ xs) (new, d) =
      ground (arith, find-assign i h b xs, Distinct-assign h b xs d)

-- `key` gives the key under which a value belongs.
module _ {A : Type 0} (key : A → Option Bytes) where
  abbrev pub key_of : Option A → Option Bytes
  key_of none = none
  key_of (some a) = key a

  pub record IsConsistent (q : Indexed A) : Type 0 where
    -- The map leads to elements in the list, under their keys.
    pub indexed :
        (k : Bytes) (h : ℕ) → lookup k q.index ≡ some h → key_of (find h q.elements) ≡ some k
    -- Every element in the list is what the map has for its key.
    pub listed :
        (k : Bytes) (h : ℕ) → key_of (find h q.elements) ≡ some k → lookup k q.index ≡ some h
    -- Handles from `next` on are not in use.
    pub fresh : (h : ℕ) → q.next ≤ h → find h q.elements ≡ none
    pub distinct : Distinct q.elements

  find-push_back :
      (k : Bytes) (a : A) (q : Indexed A) (h : ℕ)
      → IsConsistent q
      → find h (push_back k a q).elements ≡ (if q.next == h then some a else find h q.elements)
  unfolding push_back
  find-push_back k a q h v = elim (Option-cases (find h q.elements)) [
    | inl e ↦ ground (arith, find-append h q.next a q.elements)
    | inr (b, e) ↦ ground (arith, find-append_found h q.next a b q.elements, v.fresh h)
  ]

  abbrev pub Added : Bytes → A → Indexed A → Indexed A → Type 0
  Added k a q q' =
      ((j : Bytes) → lookup j q'.index ≡ (if bytes_eq k j then some q.next else lookup j q.index))
      × (q'.next ≡ suc q.next)
      × ((h : ℕ) → find h q'.elements ≡ (if q.next == h then some a else find h q.elements))

  -- However a new element is linked in.
  pub Added-IsConsistent :
      (k : Bytes) (a : A) (q q' : Indexed A)
      → key a ≡ some k
      → lookup k q.index ≡ none
      → IsConsistent q
      → Added k a q q'
      → Distinct q'.elements
      → IsConsistent q'
  Added-IsConsistent k a q q' keyed new v (same, later, found) d = record {
    indexed = λ j h e. ground (arith, found h, same j, bytes_eq_iff k j, v.indexed j h, v.fresh h);
    listed = λ j h e. ground (arith, found h, same j, bytes_eq_iff k j, v.listed j h, v.fresh h);
    fresh = λ h le. ground (arith, found h, v.fresh h);
    distinct = d;
  }

  pub push_back-IsConsistent :
      (k : Bytes) (a : A) (q : Indexed A)
      → key a ≡ some k
      → lookup k q.index ≡ none
      → IsConsistent q
      → IsConsistent (push_back k a q)
  unfolding push_back
  push_back-IsConsistent k a q keyed new v =
      Added-IsConsistent k a q (push_back k a q) keyed new v
        (λ j. lookup-insert j k q.next q.index, refl, λ h. find-push_back k a q h v)
        (Distinct-append q.next a q.elements (v.fresh q.next (omega arith)) v.distinct)

  pub push_front-IsConsistent :
      (k : Bytes) (a : A) (q : Indexed A)
      → key a ≡ some k
      → lookup k q.index ≡ none
      → IsConsistent q
      → IsConsistent (push_front k a q)
  unfolding push_front find
  push_front-IsConsistent k a q keyed new v =
      Added-IsConsistent k a q (push_front k a q) keyed new v
        (λ j. lookup-insert j k q.next q.index, refl, λ h. refl)
        (v.fresh q.next (omega arith), v.distinct)

  pub delete-IsConsistent :
      (k : Bytes) (h : ℕ) (q : Indexed A)
      → lookup k q.index ≡ some h
      → IsConsistent q
      → IsConsistent (delete k h q)
  unfolding delete
  delete-IsConsistent k h q at v = record {
    indexed = λ j i e. ground (
      arith,
      find-remove i h q.elements,
      lookup-erase j k q.index,
      bytes_eq_iff k j,
      v.indexed j i,
      v.listed k i,
      v.indexed k h,
    );
    listed = λ j i e. ground (
      arith,
      find-remove i h q.elements,
      lookup-erase j k q.index,
      bytes_eq_iff k j,
      v.listed j i,
      v.indexed k h,
    );
    fresh = λ i le. ground (arith, find-remove i h q.elements, v.fresh i);
    distinct = Distinct-remove h q.elements v.distinct;
  }

  pub assign-IsConsistent :
      (k : Bytes) (h : ℕ) (a : A) (q : Indexed A)
      → lookup k q.index ≡ some h
      → key a ≡ some k
      → IsConsistent q
      → IsConsistent (record q { elements = assign h a q.elements })
  assign-IsConsistent k h a q at keyed v = record {
    indexed = λ j i e. ground (arith, find-assign i h a q.elements, v.indexed j i, v.indexed k h);
    listed = λ j i e. ground (arith, find-assign i h a q.elements, v.listed j i, v.indexed k h);
    fresh = λ i le. ground (arith, find-assign i h a q.elements, v.fresh i);
    distinct = Distinct-assign h a q.elements v.distinct;
  }

  pub empty-IsConsistent : IsConsistent empty
  unfolding find lookup
  empty-IsConsistent = record {
    indexed = λ k h e. cc;
    listed = λ k h e. cc;
    fresh = λ h le. refl;
    distinct = tt;
  }

  -- A value whose key is in use already takes the place of the element that had it.
  pub push_front_again-IsConsistent :
      (k : Bytes) (a : A) (h : ℕ) (q : Indexed A)
      → key a ≡ some k
      → lookup k q.index ≡ some h
      → IsConsistent q
      → IsConsistent (push_front k a (record q { elements = remove h q.elements }))
  unfolding push_front delete find
  push_front_again-IsConsistent k a h q keyed at v =
      let d = delete-IsConsistent k h q at v in
      Added-IsConsistent k a (delete k h q)
        (push_front k a (record q { elements = remove h q.elements })) keyed
        (ground (arith, lookup-erase k k q.index, bytes_eq_iff k k)) d
        (
          λ j. ground (arith, lookup-insert j k q.next q.index, lookup-erase j k q.index),
          refl,
          λ i. refl,
        )
        (d.fresh q.next (omega arith), d.distinct)
