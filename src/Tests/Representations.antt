-- ===== src/Tests/Representations.antt =====
-- The theorems on representations, names, keys and the imbalance cache, at concrete inputs.
use plot_thread.Prelude.{
  ◌≡◌, refl, true, not, none, some, [], ◌++◌, pos, ok, bind, arith, ◌↔◌, length,
}
use plot_thread.Prelude.Bytes.{Bytes, bytes_eq, bytes_eq_refl, copy_array}
use plot_thread.Prelude.Assoc.{lookup, insert}
use plot_thread.Representation.{
  id, sign, verify, is_mature, is_expired, new_representation, is_plotroot,
}
use plot_thread.Representation.Check.{
  check_representation, check_representation_series, IsSane, check_representation-IsSane,
}
use plot_thread.Representation.Series.{check_series-new_representation, is_mature-is_expired}
use plot_thread.Representation.Signing.{KeyPair, verify-sign}
use plot_thread.ImbalanceCache.{
  Cache, empty, apply, undo, fetch, credit, debit_sender, credit_sender, debit_recipient,
  imbalance_of,
}
use plot_thread.ImbalanceCache.View.{shown, moved, shown-apply}
use plot_thread.ImbalanceCache.Undoing.{undo-apply}
use plot_thread.PubKey.{pub_key_to_string}
use plot_thread.PubKey.Names.{pub_key_to_string-injective}
use plot_thread.LedgerDisk.Keys.{
  decode_thread_tip, encode_thread_tip, decode_representation_index, encode_representation_index,
  decode_pub_key_representation_index_key, compute_pub_key_representation_index_key,
}
use plot_thread.LedgerDisk.Keys.Codec.{decode-encode}
use plot_thread.Tests.{alice, bob, crypto, plotroot, alice_to_bob, memo_id, five}

check_representation-IsSane_example : (check_representation plotroot ≡ ok tt) ↔ IsSane plotroot
check_representation-IsSane_example = check_representation-IsSane plotroot

check_series-new_representation_example :
    (check_representation_series
        (new_representation (pos 5) (pos 7) none (some bob) (pos 0) (pos 0) (pos 2000) [])
        (pos 2000)
      ≡ true)
    × (check_representation_series
          (new_representation (pos 5) (pos 7) (some alice) (some bob) (pos 0) (pos 0) (pos 2000) [])
          (pos 2908)
        ≡ true)
check_series-new_representation_example =
    check_series-new_representation (pos 5) (pos 7) alice (some bob) (pos 0) (pos 0) [] 2000 908
      (omega arith) (omega arith)

is_mature-is_expired_example :
    is_mature alice_to_bob (pos 3)
    ≡ not (is_expired (record alice_to_bob { expires = alice_to_bob.matures }) (pos 3))
is_mature-is_expired_example = is_mature-is_expired alice_to_bob (pos 3)

alice_keys : KeyPair crypto alice alice
alice_keys m s made = grind (arith, bytes_eq_refl (alice ++ m))

signed_lem :
    sign crypto alice alice_to_bob ≡ ok (record alice_to_bob { signature = alice ++ memo_id 11 })
unfolding sign id
signed_lem = refl

verify-sign_example :
    (verify crypto (record alice_to_bob { signature = alice ++ memo_id 11 }) ≡ ok true)
    × (id crypto (record alice_to_bob { signature = alice ++ memo_id 11 }) ≡ id crypto alice_to_bob)
    × (alice_to_bob ≡ alice_to_bob)
verify-sign_example =
    verify-sign crypto alice alice alice_to_bob
      (record alice_to_bob { signature = alice ++ memo_id 11 }) alice_keys refl signed_lem

abbrev charged : Cache
charged = insert bob (pos 6) (insert alice (pos 4) empty)

apply_lem : apply five alice_to_bob empty ≡ (ok true, (apply five alice_to_bob empty).1)
unfolding apply debit_sender credit fetch imbalance_of lookup copy_array insert bytes_eq is_plotroot
apply_lem = refl

shown-apply_example :
    shown five bob (apply five alice_to_bob empty).1
    ≡ bind (shown five bob empty) (λ v. ok (moved alice_to_bob bob v))
shown-apply_example =
    shown-apply five alice_to_bob bob empty (apply five alice_to_bob empty).1 (refl, refl) refl
      apply_lem

undo_lem : undo five alice_to_bob empty ≡ (ok tt, (undo five alice_to_bob empty).1)
unfolding undo credit_sender debit_recipient credit fetch imbalance_of lookup copy_array insert
    bytes_eq is_plotroot
undo_lem = refl

undo-apply_example :
    ((undo five alice_to_bob (apply five alice_to_bob empty).1).0 ≡ ok tt)
    × ((k : Bytes)
        → length k ≡ 32
        → shown five k (undo five alice_to_bob (apply five alice_to_bob empty).1).1
          ≡ shown five k empty)
unfolding imbalance_of lookup
undo-apply_example =
    undo-apply five alice_to_bob bob (pos 5) empty (apply five alice_to_bob empty).1 (refl, refl)
      refl (λ h. ground arith) (λ k u h. ground arith) refl (omega arith) (omega arith) apply_lem

pub_key_to_string-injective_example : alice ≡ alice
unfolding pub_key_to_string
pub_key_to_string-injective_example =
    pub_key_to_string-injective alice alice (ground arith) (ground arith) refl

decode-encode_example :
    (decode_thread_tip (encode_thread_tip alice (pos 7)) ≡ ok (alice, pos 7))
    × (decode_representation_index (encode_representation_index (pos 7) 3) ≡ ok (pos 7, pos 3))
    × (decode_pub_key_representation_index_key
          (compute_pub_key_representation_index_key alice (some (pos 7)) (some 3))
        ≡ ok (alice, pos 7, pos 3))
decode-encode_example = decode-encode alice (pos 7) 3 refl (omega arith) (omega arith)
