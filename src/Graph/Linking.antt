-- ===== src/Graph/Linking.antt =====
-- What `Link` adds to the graph, and what `IsParentDescendant` says of it.
use mathlib.Core.Path.{subst₂}
use plot_thread.Prelude.{
  ℕ, suc, ◌≡◌, ◌%◌, refl, Bool, true, false, ◌||◌, ◌&&◌, inl, inr, none, some, Option-cases, List,
  [], ◌∷◌, ◌++◌, ◌==◌, if◌then◌else◌, length, map, arith, ◌↔◌,
}
use plot_thread.Prelude.Bytes.{Bytes, bytes_eq_iff}
use plot_thread.Prelude.Assoc.{lookup, lookup-insert}
use plot_thread.Graph.{
  Graph, get, put, add_node, add_outbound, add_edge, out_edges, weight_of, link, neighbours, member,
  targets, is_parent_descendant,
}
use plot_thread.Graph.Search.{Reach, Sub, dfs-Reach}

member-append : (x : ℕ) (xs ys : List ℕ) → member x (xs ++ ys) ≡ member x xs || member x ys
unfolding member
member-append x [] ys = refl
member-append x (y ∷ xs) ys = ground (arith, member-append x xs ys)

member_self : (x : ℕ) (xs : List ℕ) → member x (x ∷ xs) ≡ true
unfolding member
member_self x xs = ground arith

module _ {V : Type 0} where
  get-put :
      (j k : ℕ) (v : V) (m : List (ℕ × V))
      → get j (put k v m) ≡ (if k == j then some v else get j m)
  unfolding get put
  get-put j k v [] = refl
  get-put j k v ((i, w) ∷ m) = ground (arith, get-put j k v m)

  member-put :
      (j k : ℕ) (v : V) (m : List (ℕ × V))
      → member j (map (λ e. e.0) (put k v m)) ≡ (k == j) || member j (map (λ e. e.0) m)
  unfolding put member
  member-put j k v [] = ground arith
  member-put j k v ((i, w) ∷ m) = ground (arith, member-put j k v m)

module _ {F : Type 0} where
  -- The edge from x to y is there.
  abbrev pub edge : Graph F → ℕ → ℕ → Bool
  edge g x y = member y (neighbours g x)

  edge-target :
      (x y : ℕ) (edges : List (ℕ × List (ℕ × F)))
      → member y (elim (get x edges) [ some es ↦ map (λ e. e.0) es | none ↦ [] ]) ≡ true
      → member y (targets edges) ≡ true
  unfolding get targets
  edge-target x y [] h = h
  edge-target x y ((i, es) ∷ edges) h =
      ground (arith, member-append y (map (λ e. e.0) es) (targets edges), edge-target x y edges)

  neighbours-targets : (g : Graph F) (x : ℕ) → Sub (neighbours g x) (targets g.edges)
  unfolding neighbours
  neighbours-targets g x y h = edge-target x y g.edges h

  cons-targets :
      (g : Graph F) (p x y : ℕ)
      → member y (neighbours g x) ≡ true
      → member y (p ∷ targets g.edges) ≡ true
  unfolding member
  cons-targets g p x y h = ground (arith, neighbours-targets g x y h)

  -- There is always an answer; it is yes exactly if both pubkeys are known and the edges lead
  -- from the first to the second.
  pub is_parent_descendant-Reach :
      (g : Graph F) (parent descendant : Bytes)
      → (b : Bool) × (is_parent_descendant g parent descendant ≡ some b)
        × ((b ≡ true) ↔ (
            (p : ℕ) × (d : ℕ) × (lookup parent g.index ≡ some p)
            × (lookup descendant g.index ≡ some d)
            × Reach (neighbours g) p d))
  unfolding is_parent_descendant
  is_parent_descendant-Reach g parent descendant = elim (Option-cases (lookup parent g.index)) [
    | inl e ↦ (false, ground arith, (λ h. cc, λ (p, d, found, found', _). cc))
    | inr (p, e) ↦ elim (Option-cases (lookup descendant g.index)) [
      | inl e' ↦ (false, ground arith, (λ h. cc, λ (p, d, found, found', _). cc))
      | inr (d, e') ↦
          let (b, ws, answer, decides) =
            dfs-Reach (neighbours g) d p (p ∷ targets g.edges)
              (suc (suc (length (targets g.edges)))) (cons-targets g p)
              (member_self p (targets g.edges)) (omega arith) in
          (
            b,
            ground (arith, answer),
            (
              λ h. (p, d, e, e', decides.0 h),
              λ (p', d', found, found', way).
                  decides.1 (subst₂ (Reach (neighbours g)) (cc) (cc) way),
            ),
          )
    ]
  ]

module _ {F : Type 0} (float_zero : F) (float_add : F → F → F) where
  add_node-edges : (k : Bytes) (g : Graph F) → (add_node float_zero float_add k g).edges ≡ g.edges
  unfolding add_node
  add_node-edges k g = ground arith

  add_node-known :
      (k : Bytes) (g : Graph F)
      → (i : ℕ) × (lookup k (add_node float_zero float_add k g).index ≡ some i)
  unfolding add_node
  add_node-known k g = elim (Option-cases (lookup k g.index)) [
    | inl e ↦ (
      length g.index % 4294967296,
      ground (arith, lookup-insert k k (length g.index % 4294967296) g.index, bytes_eq_iff k k),
    )
    | inr (i, e) ↦ (i, ground arith)
  ]

  add_node-keeps :
      (j k : Bytes) (g : Graph F) (i : ℕ)
      → lookup j g.index ≡ some i
      → lookup j (add_node float_zero float_add k g).index ≡ some i
  unfolding add_node
  add_node-keeps j k g i e =
      ground (arith, lookup-insert j k (length g.index % 4294967296) g.index, bytes_eq_iff k j)

  add_outbound-same :
      (i : ℕ) (w : F) (g : Graph F)
      → ((add_outbound float_zero float_add i w g).edges ≡ g.edges)
        × ((add_outbound float_zero float_add i w g).index ≡ g.index)
  unfolding add_outbound
  add_outbound-same i w g = ground arith

  member-nil : (y : ℕ) → member y [] ≡ false
  unfolding member
  member-nil y = refl

  edge-add_edge :
      (i j x y : ℕ) (w : F) (g : Graph F)
      → edge (add_edge float_zero float_add i j w g) x y ≡ edge g x y || ((i == x) && (j == y))
  unfolding add_edge neighbours
  edge-add_edge i j x y w g =
      let w' =
        float_add (weight_of float_zero float_add j (out_edges float_zero float_add i g)) w in
      let es = put j w' (out_edges float_zero float_add i g) in
      ground (
        arith,
        get-put x i es g.edges,
        member-put y j w' (out_edges float_zero float_add i g),
        member-nil y,
      )

  add_edge-index :
      (i j : ℕ) (w : F) (g : Graph F) → (add_edge float_zero float_add i j w g).index ≡ g.index
  unfolding add_edge
  add_edge-index i j w g = refl

  edge-cong : (x y : ℕ) (g g' : Graph F) → g.edges ≡ g'.edges → edge g x y ≡ edge g' x y
  unfolding neighbours
  edge-cong x y g g' e = rw e

  -- `Link` knows both pubkeys afterwards, and adds the edge from the first to the second and no
  -- other.
  pub link-edge :
      (source target : Bytes) (w : F) (g : Graph F)
      → let g' = link float_zero float_add source target w g in
        (i : ℕ) × (j : ℕ) × (lookup source g'.index ≡ some i)
        × (lookup target g'.index ≡ some j)
        × ((x y : ℕ) → edge g' x y ≡ edge g x y || ((i == x) && (j == y)))
  unfolding link
  link-edge source target w g =
      let g₁ = add_node float_zero float_add source g in
      let g₂ = add_node float_zero float_add target g₁ in
      let (i, at) = add_node-known source g in
      let (j, at') = add_node-known target g₁ in
      let kept = add_node-keeps source target g₁ i at in
      let same = add_outbound-same i w g₂ in
      (
        i,
        j,
        ground (
          arith,
          kept,
          at',
          same,
          add_edge-index i j w (add_outbound float_zero float_add i w g₂),
        ),
        ground (
          arith,
          kept,
          at',
          same,
          add_edge-index i j w (add_outbound float_zero float_add i w g₂),
        ),
        λ x y. ground (
          arith,
          kept,
          at',
          same,
          edge-add_edge i j x y w (add_outbound float_zero float_add i w g₂),
          add_node-edges source g,
          add_node-edges target g₁,
          edge-cong x y (add_outbound float_zero float_add i w g₂) g,
        ),
      )
