-- ===== src/LedgerDisk/History/Cached.antt =====
-- ledger_disk.go: the map of heights changes nothing in what the ranges of indices give.
use plot_thread.Prelude.{
  ℕ, ◌≡◌, refl, sym, ap, ◌∙◌, true, false, not, ◌&&◌, ◌==◌, Bool-cases, Option, none, some, List,
  [], ◌∷◌, ◌++◌, length, ℤ, eqb_ℤ, Result, ok, err, panic, bind, arith, inl, inr,
}
use plot_thread.Prelude.Bytes.{Bytes}
use plot_thread.LedgerDisk.Database.{Database}
use plot_thread.LedgerDisk.Keys.{decode_pub_key_representation_index_key}
use plot_thread.LedgerDisk.History.{Heights, plot_of, look_up, look_up_cached, indices_from}

bind-cong :
    {A B : Type 0} (r : Result A) (f g : A → Result B)
    → ((a : A) → r ≡ ok a → f a ≡ g a)
    → bind r f ≡ bind r g
bind-cong (ok a) f g h = h a refl
bind-cong (err e) f g h = refl
bind-cong panic f g h = refl

nothing : (height : ℤ) (plot_id : Bytes) → plot_of height [] ≡ some plot_id → ⊥
unfolding plot_of
nothing height plot_id at = cc

module _ {D : Type 0} (db : Database D) (d : D) where
  -- What the map has is what the ledger says.
  abbrev pub Agrees : Heights → Type 0
  Agrees heights =
      (height : ℤ) (plot_id : Bytes)
      → plot_of height heights ≡ some plot_id
      → look_up db d height ≡ ok plot_id

  -- The loop without the map.
  unfoldable pub plain_indices :
      ℕ → List (Bytes × Bytes) → List (Bytes × ℤ) → ℤ × ℤ → Result (List (Bytes × ℤ) × ℤ × ℤ)
  plain_indices limit [] found last = ok (found, last.0, last.1)
  plain_indices limit ((key, _) ∷ entries) found last =
      bind (decode_pub_key_representation_index_key key) (λ decoded.
        bind (look_up db d decoded.1) (λ plot_id.
          elim (not (limit == 0) && (length (found ++ (plot_id, decoded.2) ∷ []) == limit)) [
            | true ↦ ok (found ++ (plot_id, decoded.2) ∷ [], decoded.1, decoded.2)
            | false ↦
                plain_indices limit entries (found ++ (plot_id, decoded.2) ∷ [])
                  (decoded.1, decoded.2)
          ]))

  remembered :
      (height : ℤ) (plot_id : Bytes) (heights : Heights)
      → look_up db d height ≡ ok plot_id
      → Agrees heights
      → Agrees ((height, plot_id) ∷ heights)
  unfolding plot_of
  remembered height plot_id heights there agrees h i at = elim (Bool-cases (eqb_ℤ height h)) [
    | inl same ↦
        let e : height ≡ h = ground (arith, same) in
        let k : plot_id ≡ i = ground (arith, rw (same, plot_of) at at) in rw (e, k) at there
    | inr apart ↦ agrees h i (rw (apart, plot_of) at at)
  ]

  after_look_up :
      {B : Type 0} (height : ℤ) (heights : Heights) (r : Result Bytes)
      (f : Bytes × Heights → Result B) (g : Bytes → Result B)
      → look_up db d height ≡ r
      → Agrees heights
      → ((plot_id : Bytes) (heights' : Heights)
          → Agrees heights'
          → f (plot_id, heights') ≡ g plot_id)
      → bind (bind r (λ plot_id. ok (plot_id, (height, plot_id) ∷ heights))) f ≡ bind r g
  after_look_up height heights (ok plot_id) f g there agrees step =
      step plot_id ((height, plot_id) ∷ heights) (remembered height plot_id heights there agrees)
  after_look_up height heights (err e) f g there agrees step = refl
  after_look_up height heights panic f g there agrees step = refl

  cached_or_found :
      {B : Type 0} (height : ℤ) (heights : Heights) (known : Option Bytes)
      (f : Bytes × Heights → Result B) (g : Bytes → Result B)
      → plot_of height heights ≡ known
      → Agrees heights
      → ((plot_id : Bytes) (heights' : Heights)
          → Agrees heights'
          → f (plot_id, heights') ≡ g plot_id)
      → bind
          (elim known [
            | some plot_id ↦ ok (plot_id, heights)
            | none ↦
                bind (look_up db d height) (λ plot_id. ok (plot_id, (height, plot_id) ∷ heights))
          ])
          f
        ≡ bind (look_up db d height) g
  cached_or_found height heights (some plot_id) f g at agrees step =
      step plot_id heights agrees ∙ sym (ap (λ r. bind r g) (agrees height plot_id at))
  cached_or_found height heights none f g at agrees step =
      after_look_up height heights (look_up db d height) f g refl agrees step

  indices_from-Agrees :
      (limit : ℕ) (entries : List (Bytes × Bytes)) (heights : Heights) (found : List (Bytes × ℤ))
      (last : ℤ × ℤ)
      → Agrees heights
      → indices_from db d limit entries heights found last ≡ plain_indices limit entries found last
  unfolding indices_from plain_indices look_up_cached
  indices_from-Agrees limit [] heights found last agrees = refl
  indices_from-Agrees limit (entry ∷ entries) heights found last agrees =
      bind-cong (decode_pub_key_representation_index_key entry.0) _ _ (λ decoded read.
        cached_or_found decoded.1 heights (plot_of decoded.1 heights) _ _ refl agrees
          (λ plot_id heights' agrees'.
            elim (Bool-cases
              (not (limit == 0) && (length (found ++ (plot_id, decoded.2) ∷ []) == limit))) [
                | inl full ↦ rw full refl
                | inr more ↦ rw more (
                    indices_from-Agrees limit entries heights' (found ++ (plot_id, decoded.2) ∷ [])
                      (decoded.1, decoded.2) agrees')
              ]))

  -- The loop over a key's representations finds what it would find without its map of heights, the
  -- errors included.
  pub indices_from-plain :
      (limit : ℕ) (entries : List (Bytes × Bytes)) (last : ℤ × ℤ)
      → indices_from db d limit entries [] [] last ≡ plain_indices limit entries [] last
  indices_from-plain limit entries last =
      indices_from-Agrees limit entries [] [] last
        (λ height plot_id at. absurd (nothing height plot_id at))
