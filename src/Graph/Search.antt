-- ===== src/Graph/Search.antt =====
-- `dfs` decides reachability.
use plot_thread.Prelude.{
  ℕ, zero, suc, ◌≡◌, ◌≢◌, ◌<◌, ◌≤◌, ◌+◌, refl, Bool, true, false, Bool-cases, inl, inr, Option,
  none, some, List, [], ◌∷◌, ◌==◌, if◌then◌else◌, length, arith, subst, ◌↔◌,
}
use plot_thread.Graph.{member, scan, dfs}

-- The nodes of a list that are not visited yet.
unvisited : List ℕ → List ℕ → ℕ
unfolding member
unvisited [] visited = 0
unvisited (x ∷ xs) visited = (if member x visited then 0 else 1) + unvisited xs visited

abbrev pub Sub : List ℕ → List ℕ → Type 0
Sub xs ys = (x : ℕ) → member x xs ≡ true → member x ys ≡ true

unvisited_mono : (xs vs ws : List ℕ) → Sub vs ws → unvisited xs ws ≤ unvisited xs vs
unfolding unvisited
unvisited_mono [] vs ws sub = omega arith
unvisited_mono (x ∷ xs) vs ws sub = ground (arith, sub x, unvisited_mono xs vs ws sub)

unvisited-cons-le : (xs vs : List ℕ) (c : ℕ) → unvisited xs (c ∷ vs) ≤ unvisited xs vs
unfolding unvisited
unvisited-cons-le [] vs c = omega arith
unvisited-cons-le (x ∷ xs) vs c = ground (arith, unvisited-cons-le xs vs c)

-- A visit uses up one node at least.
unvisited-cons :
    (xs vs : List ℕ) (c : ℕ)
    → member c xs ≡ true
    → member c vs ≡ false
    → unvisited xs (c ∷ vs) < unvisited xs vs
unfolding unvisited
unvisited-cons [] vs c inside new = cc
unvisited-cons (x ∷ xs) vs c inside new =
    ground (arith, unvisited-cons-le xs vs c, unvisited-cons xs vs c)

unvisited-le : (xs vs : List ℕ) → unvisited xs vs ≤ length xs
unfolding unvisited
unvisited-le [] vs = omega arith
unvisited-le (x ∷ xs) vs = ground (arith, unvisited-le xs vs)

module _ (next : ℕ → List ℕ) where
  -- A way along the edges.
  pub data Reach : ℕ → ℕ → Type 0 where
    here : (x : ℕ) → Reach x x
    step : {x z : ℕ} (y : ℕ) → member y (next x) ≡ true → Reach y z → Reach x z

  -- What a search that did not find the target has visited: all the edges of the new nodes.
  abbrev New : ℕ → List ℕ → List ℕ → Type 0
  New t vs ws =
      (x : ℕ)
      → member x ws ≡ true
      → member x vs ≡ false
      → (x ≢ t) × ((y : ℕ) → member y (next x) ≡ true → member y ws ≡ true)

  abbrev Found : ℕ → ℕ → List ℕ → Option (Bool × List ℕ) → Type 0
  Found t c vs none = ⊥
  Found t c vs (some (true, ws)) = Reach c t
  Found t c vs (some (false, ws)) = Sub vs ws × (member c ws ≡ true) × New t vs ws

  abbrev Scanned : ℕ → List ℕ → List ℕ → Option (Bool × List ℕ) → Type 0
  Scanned t es vs none = ⊥
  Scanned t es vs (some (true, ws)) = (e : ℕ) × (member e es ≡ true) × Reach e t
  Scanned t es vs (some (false, ws)) = Sub vs ws × Sub es ws × New t vs ws

  New-trans : (t : ℕ) (us vs ws : List ℕ) → Sub vs ws → New t us vs → New t vs ws → New t us ws
  New-trans t us vs ws sub old new x inside outside = elim (Bool-cases (member x vs)) [
    | inl e ↦ let (ne, out) = old x e outside in (ne, λ y edge. sub y (out y edge))
    | inr e ↦ new x inside e
  ]

  Scanned-skip :
      (t e : ℕ) (es vs : List ℕ) (r : Option (Bool × List ℕ))
      → member e vs ≡ true
      → Scanned t es vs r
      → Scanned t (e ∷ es) vs r
  unfolding member
  Scanned-skip t e es vs none old p = p
  Scanned-skip t e es vs (some (true, ws)) old (x, inside, way) = (x, ground arith, way)
  Scanned-skip t e es vs (some (false, ws)) old (sub, all, new) =
      (sub, λ x h. ground (arith, sub x, all x), new)

  Scanned-visit :
      (t e : ℕ) (es vs us : List ℕ) (r : Option (Bool × List ℕ))
      → Sub vs us
      → member e us ≡ true
      → New t vs us
      → Scanned t es us r
      → Scanned t (e ∷ es) vs r
  unfolding member
  Scanned-visit t e es vs us none sub inside new p = p
  Scanned-visit t e es vs us (some (true, ws)) sub inside new (x, among, way) =
      (x, ground arith, way)
  Scanned-visit t e es vs us (some (false, ws)) sub inside new (sub', all, new') = (
    λ x h. sub' x (sub x h),
    λ x h. ground (arith, sub' x, all x),
    New-trans t vs us ws sub' new new',
  )

  -- The scan of a node's edges, seen from the node.
  after :
      (t c : ℕ) (vs : List ℕ) (r : Option (Bool × List ℕ))
      → c ≢ t
      → Scanned t (next c) (c ∷ vs) r
      → Found t c vs r
  unfolding member
  after t c vs none ne p = p
  after t c vs (some (true, ws)) ne (e, edge, way) = step e edge way
  after t c vs (some (false, ws)) ne (sub, all, new) = (
    λ x h. sub x (ground arith),
    sub c (ground arith),
    λ x inside outside. elim (Bool-cases (c == x)) [
      | inl e ↦ (ground arith, λ y edge. all y (ground (arith, edge)))
      | inr other ↦ new x inside (ground arith)
    ],
  )

  module _ (t : ℕ) (universe : List ℕ) (fuel : ℕ) (visit : ℕ → List ℕ → Option (Bool × List ℕ))
      (visit_found : (e : ℕ) (vs : List ℕ)
        → member e universe ≡ true
        → member e vs ≡ false
        → unvisited universe vs < fuel
        → Found t e vs (visit e vs)) where
    scan-Scanned :
        (es vs : List ℕ)
        → Sub es universe
        → unvisited universe vs < fuel
        → Scanned t es vs (scan visit es vs)
    unfolding scan member
    scan-Scanned [] vs inside enough = (λ x h. h, λ x h. cc, λ x h new. cc)
    scan-Scanned (e ∷ es) vs inside enough =
        let rest = scan-Scanned es in
        elim (Bool-cases (member e vs)) [
          | inl old ↦
              rw (old, scan)
                (Scanned-skip t e es vs _ old (rest vs (λ x h. inside x (ground arith)) enough))
          | inr new ↦
              rw (new, scan)
                (go (visit e vs) (visit_found e vs (inside e (ground arith)) new enough) rest)
        ]
      where
        go :
            (r : Option (Bool × List ℕ))
            → Found t e vs r
            → ((us : List ℕ)
                → Sub es universe
                → unvisited universe us < fuel
                → Scanned t es us (scan visit es us))
            → Scanned t (e ∷ es) vs (elim r [
              | none ↦ none
              | some (true, ws) ↦ some (true, ws)
              | some (false, ws) ↦ scan visit es ws
            ])
        go none found rest = found
        go (some (true, ws)) found rest = (e, ground arith, found)
        go (some (false, ws)) (sub, inside', new) rest =
            Scanned-visit t e es vs ws (scan visit es ws) sub inside' new (
              rest ws (λ x h. inside x (ground arith))
                (omega (arith, unvisited_mono universe vs ws sub)))

  -- With more fuel than there are nodes to visit, the search ends and is right.
  dfs-Found :
      (t : ℕ) (universe : List ℕ) (fuel : ℕ)
      → ((x : ℕ) → Sub (next x) universe)
      → (c : ℕ) (vs : List ℕ) → member c universe ≡ true
      → member c vs ≡ false
      → unvisited universe vs < fuel
      → Found t c vs (dfs next fuel t c vs)
  unfolding dfs
  dfs-Found t universe zero closed c vs inside new enough = absurd (omega arith)
  dfs-Found t universe (suc fuel) closed c vs inside new enough = elim (Bool-cases (c == t)) [
    | inl e ↦ rw (e, dfs) (subst (λ x. Reach c x) (ground arith) (here c))
    | inr ne ↦
        rw (ne, dfs)
          (after t c vs (scan (dfs next fuel t) (next c) (c ∷ vs)) (ground arith) (
            scan-Scanned t universe fuel (dfs next fuel t) (dfs-Found t universe fuel closed)
              (next c) (c ∷ vs) (closed c)
              (omega (arith, unvisited-cons universe vs c inside new))))
  ]

  not-Reach : {x t : ℕ} (ws : List ℕ) → Reach x t → New t [] ws → member x ws ≡ true → ⊥
  unfolding member
  not-Reach ws (here x) new inside = (new x inside refl).0 refl
  not-Reach ws (step {x} y edge way) new inside =
      not-Reach ws way new ((new x inside refl).1 y edge)

  Found-Reach :
      (t c : ℕ) (r : Option (Bool × List ℕ))
      → Found t c [] r
      → (b : Bool) × (ws : List ℕ) × (r ≡ some (b, ws)) × ((b ≡ true) ↔ Reach c t)
  Found-Reach t c none p = absurd p
  Found-Reach t c (some (true, ws)) way = (true, ws, refl, (λ _. way, λ _. refl))
  Found-Reach t c (some (false, ws)) (sub, inside, new) =
      (false, ws, refl, (λ e. cc, λ way. absurd (not-Reach ws way new inside)))

  -- Among the nodes of a list that holds all targets of edges, a search with fuel for one visit
  -- more than the list is long ends, and finds the target exactly if there is a way to it.
  pub dfs-Reach :
      (t c : ℕ) (universe : List ℕ) (fuel : ℕ)
      → ((x : ℕ) → Sub (next x) universe)
      → member c universe ≡ true
      → length universe < fuel
      → (b : Bool) × (ws : List ℕ) × (dfs next fuel t c [] ≡ some (b, ws))
        × ((b ≡ true) ↔ Reach c t)
  unfolding member
  dfs-Reach t c universe fuel closed inside enough =
      Found-Reach t c (dfs next fuel t c []) (
        dfs-Found t universe fuel closed c [] inside refl (omega (arith, unvisited-le universe [])))
