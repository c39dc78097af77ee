-- ===== src/Tests/Graphs.antt =====
-- The theorems on the graph of representation, at concrete inputs.
use plot_thread.Prelude.{
  ℕ, ◌≡◌, ◌+◌, refl, if◌then◌else◌, Bool, true, ◌||◌, ◌&&◌, some, List, [], ◌∷◌, ◌==◌, arith, ◌↔◌,
}
use plot_thread.Prelude.Assoc.{lookup}
use plot_thread.Graph.{is_parent_descendant, dfs, neighbours, link, member}
use plot_thread.Graph.Search.{Reach, Sub, dfs-Reach}
use plot_thread.Graph.Linking.{edge, is_parent_descendant-Reach, link-edge}
use plot_thread.Tests.{alice, bob, bob_alice}

-- A cycle of 0, 1 and 2.
abbrev cycle : ℕ → List ℕ
cycle x = if x == 0 then 1 ∷ [] else if x == 1 then 2 ∷ [] else 0 ∷ []

cycle-Sub : (x : ℕ) → Sub (cycle x) (0 ∷ 1 ∷ 2 ∷ [])
unfolding member
cycle-Sub x y inside = ground arith

member_0 : member 0 (0 ∷ 1 ∷ 2 ∷ []) ≡ true
unfolding member
member_0 = refl

dfs-Reach_example :
    (b : Bool) × (ws : List ℕ) × (dfs cycle 4 7 0 [] ≡ some (b, ws))
    × ((b ≡ true) ↔ Reach cycle 0 7)
dfs-Reach_example = dfs-Reach cycle 7 0 (0 ∷ 1 ∷ 2 ∷ []) 4 cycle-Sub member_0 (omega arith)

is_parent_descendant-Reach_example :
    (b : Bool) × (is_parent_descendant bob_alice bob alice ≡ some b)
    × ((b ≡ true) ↔ (
        (p : ℕ) × (d : ℕ) × (lookup bob bob_alice.index ≡ some p)
        × (lookup alice bob_alice.index ≡ some d)
        × Reach (neighbours bob_alice) p d))
is_parent_descendant-Reach_example = is_parent_descendant-Reach bob_alice bob alice

link-edge_example :
    let g' = link 0 (λ a b. a + b) alice bob 1 bob_alice in
    (i : ℕ) × (j : ℕ) × (lookup alice g'.index ≡ some i)
    × (lookup bob g'.index ≡ some j)
    × ((x y : ℕ) → edge g' x y ≡ edge bob_alice x y || ((i == x) && (j == y)))
link-edge_example = link-edge 0 (λ a b. a + b) alice bob 1 bob_alice
