-- ===== src/Graph.antt =====
-- representation_graph.go: the graph of who represents whom, and the search that finds cycles.
-- Weights are floating-point numbers: their type, zero and sum are parameters.
pub mod Search
pub mod Linking
use plot_thread.Prelude.{
  ℕ, zero, suc, ◌%◌, ◌≡◌, Bool, true, false, Option, none, some, List, [], ◌∷◌, ◌++◌, ◌==◌,
  if◌then◌else◌, map, length,
}
use mathlib.Core.Option
use plot_thread.Prelude.Bytes.{Bytes}
use plot_thread.Prelude.Assoc.{Assoc, lookup, insert}

-- Maps keyed by uint32.
module _ {V : Type 0} where
  unfoldable pub get : ℕ → List (ℕ × V) → Option V
  get k [] = none
  get k ((j, v) ∷ m) = if j == k then some v else get k m

  unfoldable pub put : ℕ → V → List (ℕ × V) → List (ℕ × V)
  put k v [] = (k, v) ∷ []
  put k v ((j, w) ∷ m) = if j == k then (k, v) ∷ m else (j, w) ∷ put k v m

pub record Node (F : Type 0) : Type 0 where
  pub pubkey : Bytes
  pub ranking : F
  pub outbound : F

pub record Graph (F : Type 0) : Type 0 where
  pub index : Assoc ℕ
  pub nodes : List (ℕ × Node F)
  pub edges : List (ℕ × List (ℕ × F))

-- `NewGraph` and `Reset`
abbrev pub new_graph : {F : Type 0} → Graph F
new_graph = record { index = []; nodes = []; edges = [] }

module _ {F : Type 0} (float_zero : F) (float_add : F → F → F) where
  -- A pubkey gets the next index, as a uint32, when it is first seen.
  unfoldable pub add_node : Bytes → Graph F → Graph F
  add_node pubkey g = elim (lookup pubkey g.index) [
    | some _ ↦ g
    | none ↦
        let next = length g.index % 4294967296 in
        record g {
          index = insert pubkey next g.index;
          nodes =
              put next (record { pubkey = pubkey; ranking = float_zero; outbound = float_zero })
                g.nodes;
        }
  ]

  -- A missing index reads as zero.
  abbrev pub index_of : Bytes → Graph F → ℕ
  index_of pubkey g = elim (lookup pubkey g.index) [ some i ↦ i | none ↦ 0 ]

  abbrev pub out_edges : ℕ → Graph F → List (ℕ × F)
  out_edges i g = elim (get i g.edges) [ some es ↦ es | none ↦ [] ]

  abbrev pub weight_of : ℕ → List (ℕ × F) → F
  weight_of i es = elim (get i es) [ some w ↦ w | none ↦ float_zero ]

  -- The node of an indexed pubkey is there; a missing one would stop the program.
  unfoldable pub add_outbound : ℕ → F → Graph F → Graph F
  add_outbound i weight g = elim (get i g.nodes) [
    | some node ↦ record g {
      nodes = put i (record node { outbound = float_add node.outbound weight }) g.nodes;
    }
    | none ↦ g
  ]

  unfoldable pub add_edge : ℕ → ℕ → F → Graph F → Graph F
  add_edge source target weight g = record g {
    edges =
        put source
          (put target (float_add (weight_of target (out_edges source g)) weight)
            (out_edges source g))
          g.edges;
  }

  unfoldable pub link : Bytes → Bytes → F → Graph F → Graph F
  link source target weight g =
      let g' = add_node target (add_node source g) in
      let s = index_of source g' in
      add_edge s (index_of target g') weight (add_outbound s weight g')

-- The targets of a node's edges. Go visits them in no fixed order; here it is that of the list.
unfoldable pub neighbours : {F : Type 0} → Graph F → ℕ → List ℕ
neighbours g i = elim (get i g.edges) [ some es ↦ map (λ e. e.0) es | none ↦ [] ]

unfoldable pub member : ℕ → List ℕ → Bool
member x [] = false
member x (y ∷ ys) = if y == x then true else member x ys

-- The loop of `dfs` over the edges of a node, with the visited nodes so far. `visit` is the
-- recursive call; `none` means that the fuel ran out.
unfoldable pub scan :
    (ℕ → List ℕ → Option (Bool × List ℕ)) → List ℕ → List ℕ → Option (Bool × List ℕ)
scan visit [] visited = some (false, visited)
scan visit (e ∷ es) visited = elim (member e visited) [
  | true ↦ scan visit es visited
  | false ↦ elim (visit e visited) [
    | none ↦ none
    | some (true, visited') ↦ some (true, visited')
    | some (false, visited') ↦ scan visit es visited'
  ]
]

unfoldable pub dfs : (ℕ → List ℕ) → ℕ → ℕ → ℕ → List ℕ → Option (Bool × List ℕ)
unfolding scan
dfs next zero target current visited = none
dfs next (suc fuel) target current visited = elim (current == target) [
  | true ↦ some (true, visited)
  | false ↦ scan (dfs next fuel target) (next current) (current ∷ visited)
]

-- Every node that is the target of an edge, and so the most that one search can visit.
unfoldable pub targets : {F : Type 0} → List (ℕ × List (ℕ × F)) → List ℕ
targets [] = []
targets ((i, es) ∷ edges) = map (λ e. e.0) es ++ targets edges

unfoldable pub is_parent_descendant : {F : Type 0} → Graph F → Bytes → Bytes → Option Bool
unfolding dfs
is_parent_descendant g parent descendant = elim (lookup parent g.index) [
  | none ↦ some false
  | some p ↦ elim (lookup descendant g.index) [
    | none ↦ some false
    | some d ↦
        Option.map (λ r. r.0) (dfs (neighbours g) (suc (suc (length (targets g.edges)))) d p [])
  ]
]
