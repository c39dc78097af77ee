-- ===== src/LedgerDisk/Settled.antt =====
-- ledger_disk.go: what batches leave under the keys of the tip, of branch types and of heights.
use plot_thread.Prelude.{
  ℕ, suc, ◌≡◌, refl, Bool, true, false, ◌||◌, ◌==◌, Option, none, some, List, [], ◌∷◌, ◌++◌, ℤ, pos,
  sub64, IsInt64, length, ok, bind-eq-ok, arith,
}
use plot_thread.Prelude.Bytes.{Bytes, bytes_eq, bytes_eq_refl, bytes_eq_iff, copy_array-key}
use plot_thread.Representation.{Representation, Crypto, id}
use plot_thread.LedgerDisk.Database.{Database, Op, puts, deletes, effect, IsAtomic, effect-append}
use plot_thread.LedgerDisk.Keys.{
  compute_branch_type_key, compute_plot_height_index_key, compute_thread_tip_key,
  compute_representation_index_key, compute_pub_key_representation_index_key,
  encode_representation_index,
}
use plot_thread.LedgerDisk.Keys.Codec.{decode-encode}
use plot_thread.LedgerDisk.Queries.{
  main, side, decode_branch_type, decode_tip, get_thread_tip, get_branch_type,
  get_plot_id_for_height,
}
use plot_thread.LedgerDisk.Connect.{party_ops, put_mark, connect_ops, prune_txs}
use plot_thread.LedgerDisk.Disconnect.{disconnect_ops, restore_txs}

-- The keys of representations and of their parties.
abbrev pub is_index_key : Bytes → Bool
is_index_key [] = false
is_index_key (x ∷ xs) = (x == b't') || (x == b'k')

index_keys_apart :
    (j k : Bytes) → is_index_key j ≡ true → is_index_key k ≡ false → bytes_eq j k ≡ false
index_keys_apart j k is isnt = ground (arith, bytes_eq_iff j k)

deletes_spares :
    (j k : Bytes) (ops : List Op) (v : Option Bytes)
    → is_index_key j ≡ true
    → is_index_key k ≡ false
    → effect (deletes j ∷ ops) k v ≡ effect ops k v
unfolding effect
deletes_spares j k ops v is isnt = rw (index_keys_apart j k is isnt) refl

puts_spares :
    (j w k : Bytes) (ops : List Op) (v : Option Bytes)
    → is_index_key j ≡ true
    → is_index_key k ≡ false
    → effect (puts j w ∷ ops) k v ≡ effect ops k v
unfolding effect
puts_spares j w k ops v is isnt = rw (index_keys_apart j k is isnt) refl

party_deletes_spare :
    (height : ℤ) (i : ℕ) (tx : Representation) (k : Bytes) (ops : List Op) (v : Option Bytes)
    → is_index_key k ≡ false
    → effect (party_ops deletes height i tx ++ ops) k v ≡ effect ops k v
unfolding party_ops compute_pub_key_representation_index_key
party_deletes_spare height i tx k ops v isnt = grind (arith, deletes_spares)

party_marks_spare :
    (height : ℤ) (i : ℕ) (tx : Representation) (k : Bytes) (ops : List Op) (v : Option Bytes)
    → is_index_key k ≡ false
    → effect (party_ops put_mark height i tx ++ ops) k v ≡ effect ops k v
unfolding party_ops compute_pub_key_representation_index_key
party_marks_spare height i tx k ops v isnt = grind (arith, puts_spares)

pub prune_txs_spares :
    (c : Crypto) (height : ℤ) (i : ℕ) (txs : List Representation) (ops : List Op) (k : Bytes)
    (v : Option Bytes)
    → prune_txs c height i txs ≡ ok ops
    → is_index_key k ≡ false
    → effect ops k v ≡ v
unfolding prune_txs effect compute_representation_index_key
prune_txs_spares c height i [] ops k v e isnt = ground arith
prune_txs_spares c height i (tx ∷ txs) ops k v e isnt =
    let (tx_id, named, more) = bind-eq-ok (id c tx) _ e in
    let (rest, made, same) = bind-eq-ok (prune_txs c height (suc i) txs) _ more in
    ground (
      arith,
      same,
      deletes_spares (b't' ∷ tx_id) k (party_ops deletes height i tx ++ rest) v refl isnt,
      party_deletes_spare height i tx k rest v isnt,
      prune_txs_spares c height (suc i) txs rest k v made isnt,
    )

pub restore_txs_spares :
    (c : Crypto) (height : ℤ) (i : ℕ) (txs : List Representation) (ops : List Op) (k : Bytes)
    (v : Option Bytes)
    → restore_txs c height i txs ≡ ok ops
    → is_index_key k ≡ false
    → effect ops k v ≡ v
unfolding restore_txs effect compute_representation_index_key
restore_txs_spares c height i [] ops k v e isnt = ground arith
restore_txs_spares c height i (tx ∷ txs) ops k v e isnt =
    let (tx_id, named, more) = bind-eq-ok (id c tx) _ e in
    let (rest, made, same) = bind-eq-ok (restore_txs c height (suc i) txs) _ more in
    ground (
      arith,
      same,
      puts_spares (b't' ∷ tx_id) (encode_representation_index height i) k
          (party_ops put_mark height i tx ++ rest) v refl isnt,
      party_marks_spare height i tx k rest v isnt,
      restore_txs_spares c height (suc i) txs rest k v made isnt,
    )

module _ {D : Type 0} (db : Database D) where
  open db use {get, write}

  -- Every key can be read.
  abbrev pub IsReadable : D → Type 0
  IsReadable d = (k : Bytes) → (v : Option Bytes) × (get d k ≡ ok v)

  -- Of a batch, the records before and after those that matter are not seen.
  get-settled :
      (before settled after : List Op) (d d' : D) (k : Bytes)
      → IsAtomic db
      → IsReadable d
      → write (before ++ (settled ++ after)) d ≡ ok d'
      → ((v : Option Bytes) → effect after k v ≡ v)
      → (v : Option Bytes) × (get d' k ≡ ok (effect settled k v))
  get-settled before settled after d d' k atomic readable done spared =
      let (v, found) = readable k in
      (
        effect before k v,
        grind (
          arith,
          atomic (before ++ (settled ++ after)) d d' k v done found,
          effect-append,
          spared,
        ),
      )

  pub connected :
      (before after : List Op) (plot_id : Bytes) (height : ℤ) (d d' : D)
      → IsAtomic db
      → IsReadable d
      → length plot_id ≡ 32
      → IsInt64 height
      → write (before ++ (connect_ops plot_id height ++ after)) d ≡ ok d'
      → ((k : Bytes) (v : Option Bytes) → is_index_key k ≡ false → effect after k v ≡ v)
      → (get_thread_tip db d' ≡ ok (some (plot_id, height)))
        × (get_branch_type db plot_id d' ≡ ok main)
        × (get_plot_id_for_height db height d' ≡ ok (some plot_id))
  unfolding get_thread_tip get_branch_type get_plot_id_for_height decode_tip decode_branch_type
      connect_ops effect compute_branch_type_key compute_plot_height_index_key
      compute_thread_tip_key bytes_eq
  connected before after plot_id height d d' atomic readable size fits done spared =
      let settled = connect_ops plot_id height in
      let (t, tip) =
        get-settled before settled after d d' (b'T' ∷ []) atomic readable done
          (λ v. spared _ v refl) in
      let (b, branch) =
        get-settled before settled after d d' (b'B' ∷ plot_id) atomic readable done
          (λ v. spared _ v refl) in
      let (h, index) =
        get-settled before settled after d d' (compute_plot_height_index_key height) atomic readable
          done (λ v. spared _ v refl) in
      (
        ground (arith, tip, (decode-encode plot_id height 0 size fits (omega arith)).0),
        ground (arith, branch, bytes_eq_refl plot_id),
        ground (
          arith,
          index,
          bytes_eq_refl (compute_plot_height_index_key height),
          copy_array-key 32 plot_id size,
        ),
      )

  pub disconnected :
      (before after : List Op) (plot_id previous : Bytes) (height : ℤ) (d d' : D)
      → IsAtomic db
      → IsReadable d
      → length previous ≡ 32
      → IsInt64 (sub64 height (pos 1))
      → write (before ++ (disconnect_ops plot_id previous height ++ after)) d ≡ ok d'
      → ((k : Bytes) (v : Option Bytes) → is_index_key k ≡ false → effect after k v ≡ v)
      → (get_thread_tip db d' ≡ ok (some (previous, sub64 height (pos 1))))
        × (get_branch_type db plot_id d' ≡ ok side)
        × (get_plot_id_for_height db height d' ≡ ok none)
  unfolding get_thread_tip get_branch_type get_plot_id_for_height decode_tip decode_branch_type
      disconnect_ops effect compute_branch_type_key compute_plot_height_index_key
      compute_thread_tip_key bytes_eq
  disconnected before after plot_id previous height d d' atomic readable size fits done spared =
      let settled = disconnect_ops plot_id previous height in
      let (t, tip) =
        get-settled before settled after d d' (b'T' ∷ []) atomic readable done
          (λ v. spared _ v refl) in
      let (b, branch) =
        get-settled before settled after d d' (b'B' ∷ plot_id) atomic readable done
          (λ v. spared _ v refl) in
      let (h, index) =
        get-settled before settled after d d' (compute_plot_height_index_key height) atomic readable
          done (λ v. spared _ v refl) in
      (
        ground (
          arith,
          tip,
          (decode-encode previous (sub64 height (pos 1)) 0 size fits (omega arith)).0,
        ),
        ground (arith, branch, bytes_eq_refl plot_id),
        ground (arith, index, bytes_eq_refl (compute_plot_height_index_key height)),
      )
