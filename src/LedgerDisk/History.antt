-- ===== src/LedgerDisk/History.antt =====
-- ledger_disk.go: the queries that iterate over the tables of representations and of imbalances.
pub mod Cached
use mathlib.Core.List.{reverse}
use plot_thread.Prelude.{
  ℕ, suc, ◌==◌, ◌&&◌, not, Bool, true, false, if◌then◌else◌, Option, none, some, List, [], ◌∷◌,
  ◌++◌, length, ℤ, pos, negsuc, leb_ℤ, ltb_ℤ, eqb_ℤ, add64, sub64, Result, ok, err, bind, some_or,
  Error,
}
use plot_thread.Prelude.Bytes.{Bytes, bytes_eq, or_empty}
use plot_thread.Representation.{Representation}
use plot_thread.LedgerDisk.Database.{Database, Iteration}
use plot_thread.LedgerDisk.Keys.{
  compute_pub_key_representation_index_key, compute_pub_key_imbalance_key,
  decode_pub_key_representation_index_key,
}
use plot_thread.LedgerDisk.Connect.{plotroot_maturity}
use plot_thread.LedgerDisk.Queries.{decode_imbalance, get_thread_tip, get_plot_id_for_height}

-- `heightMap`, the plots of the heights that were met.
abbrev pub Heights : Type 0
Heights = List (ℤ × Bytes)

unfoldable pub plot_of : ℤ → Heights → Option Bytes
plot_of height [] = none
plot_of height ((h, plot_id) ∷ heights) =
    if eqb_ℤ h height then some plot_id else plot_of height heights

module _ {D : Type 0} (db : Database D) where
  -- The plot of a height; no plot there is an error.
  unfoldable pub look_up : D → ℤ → Result Bytes
  look_up d height =
      bind (get_plot_id_for_height db height d) (λ found. some_or found Error.missing_plot)

  -- The same, by the map if it has the height.
  unfoldable pub look_up_cached : D → ℤ → Heights → Result (Bytes × Heights)
  look_up_cached d height heights = elim (plot_of height heights) [
    | some plot_id ↦ ok (plot_id, heights)
    | none ↦ bind (look_up d height) (λ plot_id. ok (plot_id, (height, plot_id) ∷ heights))
  ]

  -- The IDs and indices, one beside the other, and the last height and index; a limit of 0 is none.
  unfoldable pub indices_from :
      D
      → ℕ
      → List (Bytes × Bytes)
      → Heights
      → List (Bytes × ℤ)
      → ℤ × ℤ
      → Result (List (Bytes × ℤ) × ℤ × ℤ)
  indices_from d limit [] heights found last = ok (found, last.0, last.1)
  indices_from d limit ((key, _) ∷ entries) heights found last =
      bind (decode_pub_key_representation_index_key key) (λ decoded.
        bind (look_up_cached d decoded.1 heights) (λ r.
          elim (not (limit == 0) && (length (found ++ (r.0, decoded.2) ∷ []) == limit)) [
            | true ↦ ok (found ++ (r.0, decoded.2) ∷ [], decoded.1, decoded.2)
            | false ↦
                indices_from d limit entries r.1 (found ++ (r.0, decoded.2) ∷ [])
                  (decoded.1, decoded.2)
          ]))

  module _ (iteration : Iteration D) where
    unfoldable pub indices_range_forward :
        Bytes → ℤ → ℤ → ℕ → ℕ → D → Result (List (Bytes × ℤ) × ℤ × ℤ)
    indices_range_forward pub_key start_height end_height start_index limit d =
        let (entries, error) =
          iteration.range d
            (compute_pub_key_representation_index_key pub_key (some start_height)
              (some start_index))
            (compute_pub_key_representation_index_key pub_key (some (add64 end_height (pos 1)))
              none) in
        bind (indices_from d limit entries [] [] (pos 0, pos 0)) (λ r. bind error (λ _. ok r))

    unfoldable pub indices_range_reverse :
        Bytes → ℤ → ℤ → ℕ → ℕ → D → Result (List (Bytes × ℤ) × ℤ × ℤ)
    indices_range_reverse pub_key start_height end_height start_index limit d =
        let (entries, error) =
          iteration.range d
            (compute_pub_key_representation_index_key pub_key (some end_height) none)
            (compute_pub_key_representation_index_key pub_key (some start_height)
              (some (suc start_index))) in
        bind (indices_from d limit (reverse entries) [] [] (pos 0, pos 0))
          (λ r. bind error (λ _. ok r))

    unfoldable pub get_public_key_representation_indices_range :
        Bytes → ℤ → ℤ → ℕ → ℕ → D → Result (List (Bytes × ℤ) × ℤ × ℤ)
    get_public_key_representation_indices_range pub_key start_height end_height start_index limit
          d =
        elim (leb_ℤ start_height end_height) [
          | true ↦ indices_range_forward pub_key start_height end_height start_index limit d
          | false ↦ indices_range_reverse pub_key start_height end_height start_index limit d
        ]

unfoldable pub sum_imbalances : List (Bytes × Bytes) → ℤ → ℤ
sum_imbalances [] total = total
sum_imbalances ((_, value) ∷ entries) total =
    sum_imbalances entries (add64 total (decode_imbalance (some value)))

-- The keys that start with the prefix of the table are those before the next letter.
unfoldable pub total_imbalance : {D : Type 0} → Iteration D → D → Result ℤ
total_imbalance iteration d =
    let (entries, error) = iteration.range d (compute_pub_key_imbalance_key []) (b'c' ∷ []) in
    bind error (λ _. ok (sum_imbalances entries (pos 0)))

-- How a representation moved the key's imbalance, if it involves the key.
unfoldable pub moved_by : Bytes → Representation → Result ℤ
moved_by pub_key tx =
    if bytes_eq pub_key (or_empty tx.for)
    then ok (pos 1)
    else if bytes_eq pub_key (or_empty tx.by)
    then ok (negsuc 0)
    else err Error.not_involved

module _ {D : Type 0} (db : Database D) (iteration : Iteration D)
    (get_representation : Bytes → ℤ → Result (Option Representation)) where
  unfoldable pub imbalance_from : Bytes → ℤ → D → List (Bytes × Bytes) → ℤ → Result ℤ
  imbalance_from pub_key current_height d [] imbalance = ok imbalance
  imbalance_from pub_key current_height d ((key, _) ∷ entries) imbalance =
      bind (decode_pub_key_representation_index_key key) (λ decoded.
        elim (eqb_ℤ decoded.2 (pos 0)
          && ltb_ℤ (sub64 current_height (pos plotroot_maturity)) decoded.1) [
            | true ↦ imbalance_from pub_key current_height d entries imbalance
            | false ↦ bind (look_up db d decoded.1) (λ plot_id.
                bind (get_representation plot_id decoded.2) (λ found.
                  bind (some_or found Error.missing_representation) (λ tx.
                    bind (moved_by pub_key tx) (λ by.
                      imbalance_from pub_key current_height d entries (add64 imbalance by)))))
          ])

  unfoldable pub get_public_key_imbalance_at : Bytes → ℤ → D → Result ℤ
  get_public_key_imbalance_at pub_key height d = bind (get_thread_tip db d) (λ tip.
      let (entries, error) =
        iteration.range d (compute_pub_key_representation_index_key pub_key none none)
          (compute_pub_key_representation_index_key pub_key (some (add64 height (pos 1))) none) in
      bind (imbalance_from pub_key (elim tip [ none ↦ pos 0 | some t ↦ t.1 ]) d entries (pos 0))
        (λ imbalance. bind error (λ _. ok imbalance)))
