-- ===== src/Indexer.antt =====
-- indexer.go: what `indexRepresentations` links in the graph. The check of a plus code is a
-- parameter, as are the weights.
use mathlib.Core.List.{reverse}
use plot_thread.Prelude.{
  ℕ, ◌-◌, Bool, ◌||◌, ◌==◌, if◌then◌else◌, leb, List, [], ◌∷◌, ◌++◌, length, replicate, ℤ,
}
use plot_thread.Prelude.Bytes.{Bytes, bytes_eq}
use plot_thread.Representation.{Representation}
use plot_thread.Plot.{Plot}
use plot_thread.Graph.{Graph, link}
use plot_thread.PubKey.{pub_key_to_string}

-- To the 44 characters of a key in base64.
unfoldable pub pad_to_base64_length : Bytes → Bytes
pad_to_base64_length input =
    if leb 44 (length input)
    then input
    else input ++ (replicate (44 - length input - 1) b'0' ++ b'=' ∷ [])

-- `strings.Trim(s, "/0=")`
abbrev is_padding : ℕ → Bool
is_padding c = (c == b'/') || (c == b'0') || (c == b'=')

unfoldable pub trim_left : Bytes → Bytes
trim_left [] = []
trim_left (c ∷ s) = if is_padding c then trim_left s else c ∷ s

unfoldable pub trim : Bytes → Bytes
trim s = reverse (trim_left (reverse (trim_left s)))

-- `strings.Split(s, "/")`: the first part, and those after it.
unfoldable pub split : Bytes → Bytes × List Bytes
split [] = ([], [])
split (c ∷ s) =
    let rest = split s in if c == b'/' then ([], rest.0 ∷ rest.1) else (c ∷ rest.0, rest.1)

abbrev first_or_empty : List Bytes → Bytes
first_or_empty [] = []
first_or_empty (s ∷ ss) = s

-- The code, whether it is a full plus code, and the topic behind it.
unfoldable pub plus_code_from_pub_key : (Bytes → Bool) → Bytes → Bytes × Bool × Bytes
plus_code_from_pub_key check_full pub_key =
    let parts = split (trim pub_key) in (parts.0, check_full parts.0, first_or_empty parts.1)

pub record Indexer (F : Type 0) : Type 0 where
  pub latest_plot_id : Bytes
  pub latest_height : ℤ
  pub tx_graph : Graph F

module _ {F : Type 0} (zero_weight : F) (plus : F → F → F) (check_full : Bytes → Bool) where
  unfoldable pub index_representation : F → Representation → Graph F → Graph F
  index_representation increment_by rep graph =
      let rep_for = pub_key_to_string rep.for in
      let rep_by = pub_key_to_string rep.by in
      let (plus_code, full, topic) = plus_code_from_pub_key check_full rep_for in
      let plus_key = pad_to_base64_length (b'/' ∷ b'/' ∷ plus_code) in
      if full
      then if bytes_eq topic []
        then link zero_weight plus rep_by plus_key increment_by graph
        else link zero_weight plus plus_key (b'/' ∷ topic) increment_by
            (link zero_weight plus rep_by plus_key increment_by graph)
      else link zero_weight plus rep_by rep_for increment_by graph

  unfoldable pub index_all : F → List Representation → Graph F → Graph F
  index_all increment_by [] graph = graph
  index_all increment_by (rep ∷ reps) graph =
      index_all increment_by reps (index_representation increment_by rep graph)

  -- The weights of a connected plot's representations and of a disconnected one's.
  unfoldable pub index_representations : F → F → Plot → Bytes → Bool → Indexer F → Indexer F
  index_representations one minus_one plot plot_id increment idx = record {
    latest_plot_id = plot_id;
    latest_height = plot.header.height;
    tx_graph = index_all (if increment then one else minus_one) plot.representations idx.tx_graph;
  }
