-- ===== src/ImbalanceCache/Undoing.antt =====
-- What `Undo` does to the imbalances that a cache shows, and that it takes `Apply` back.
use plot_thread.Prelude.{
  ◌≡◌, refl, ◌≢◌, true, some, ℤ, pos, Result, ok, err, panic, bind, add64, sub64, if◌then◌else◌,
  length, arith, ◌<ℤ◌, ◌≤ℤ◌, max_int64, IsInt64, inl, inr, Option-cases,
}
use plot_thread.Prelude.Stateful.{continue-eq-ok}
use plot_thread.Prelude.Bytes.{Bytes, bytes_eq, bytes_eq_iff, copy_array-key, or_empty}
use plot_thread.Representation.{Representation}
use plot_thread.ImbalanceCache.{
  Cache, credit, debit_sender, credit_sender, debit_recipient, apply, undo,
}
use plot_thread.ImbalanceCache.View.{
  is_sender, is_recipient, moved, HasKeys, shown, shown-insert, shown-credit, shown-apply,
}

-- The way back.
abbrev pub returned : Representation → Bytes → ℤ → ℤ
returned tx k imbalance =
    let credited = if is_sender tx k then add64 imbalance (pos 1) else imbalance in
    if is_recipient tx k then sub64 credited (pos 1) else credited

add64-sub64 : (v : ℤ) → IsInt64 v → add64 (sub64 v (pos 1)) (pos 1) ≡ v
unfolding add64 sub64
add64-sub64 v h = ground arith

sub64-add64 : (v : ℤ) → IsInt64 v → sub64 (add64 v (pos 1)) (pos 1) ≡ v
unfolding add64 sub64
sub64-add64 v h = ground arith

abbrev IsOk : Result ℤ → Type 0
IsOk (ok v) = Unit
IsOk (err e) = ⊥
IsOk panic = ⊥

add64-one : (v : ℤ) → pos 0 ≤ℤ v → v <ℤ max_int64 → pos 1 ≤ℤ add64 v (pos 1)
unfolding add64
add64-one v low high = ground arith

module _ (get_public_key_imbalance : Bytes → Result ℤ) where
  shown-debit_recipient :
      (tx : Representation) (key k : Bytes) (cache cache' : Cache)
      → tx.for ≡ some key
      → length key ≡ 32
      → length k ≡ 32
      → debit_recipient get_public_key_imbalance tx cache ≡ (ok tt, cache')
      → shown get_public_key_imbalance k cache'
        ≡ bind
            (shown get_public_key_imbalance k cache)
            (λ v. ok (if bytes_eq key k then sub64 v (pos 1) else v))
  unfolding debit_recipient
  shown-debit_recipient tx key k cache cache' e hkey h done =
      grind (arith, shown-insert, copy_array-key 32 key hkey, bytes_eq_iff key k)

  shown-credit_sender :
      (tx : Representation) (k : Bytes) (cache cache' : Cache)
      → HasKeys tx
      → length k ≡ 32
      → credit_sender get_public_key_imbalance tx cache ≡ (ok tt, cache')
      → shown get_public_key_imbalance k cache'
        ≡ bind
            (shown get_public_key_imbalance k cache)
            (λ v. ok (if is_sender tx k then add64 v (pos 1) else v))
  unfolding credit_sender
  shown-credit_sender tx k cache cache' keys h done = elim (Option-cases tx.by) [
    | inl e ↦ ground arith
    | inr (by, e) ↦ ground (arith, shown-credit get_public_key_imbalance by k cache cache')
  ]

  -- Where `Undo` succeeds on keys of 32 bytes, it moves 1 back from the recipient to the sender, if
  -- there is one, and leaves all others alone.
  pub shown-undo :
      (tx : Representation) (k : Bytes) (cache cache' : Cache)
      → HasKeys tx
      → length k ≡ 32
      → undo get_public_key_imbalance tx cache ≡ (ok tt, cache')
      → shown get_public_key_imbalance k cache'
        ≡ bind (shown get_public_key_imbalance k cache) (λ v. ok (returned tx k v))
  unfolding undo
  shown-undo tx k cache cache' keys h done =
      let (_, mid, first, second) =
        continue-eq-ok (credit_sender get_public_key_imbalance tx cache) _ done in
      elim (Option-cases tx.for) [
        | inl e ↦ ground arith
        | inr (key, e) ↦ grind (
          arith,
          shown-debit_recipient tx key k mid cache' e,
          shown-credit_sender tx k cache mid keys h,
          bytes_eq_iff key k,
        )
      ]

  restored :
      (r : Result ℤ) (tx : Representation) (k : Bytes)
      → ((u : ℤ) → r ≡ ok u → IsInt64 u)
      → bind (bind r (λ u. ok (moved tx k u))) (λ u. ok (returned tx k u)) ≡ r
  restored (ok u) tx k int64 =
      ground (arith, add64-sub64 u (int64 u refl), sub64-add64 u (int64 u refl))
  restored (err e) tx k int64 = refl
  restored panic tx k int64 = refl

  apply-sender_IsOk :
      (tx : Representation) (by : Bytes) (cache cache' : Cache)
      → tx.by ≡ some by
      → apply get_public_key_imbalance tx cache ≡ (ok true, cache')
      → IsOk (shown get_public_key_imbalance by cache)
  unfolding apply debit_sender
  apply-sender_IsOk tx by cache cache' e done = ground arith

  credit_sender-ok :
      (tx : Representation) (cache : Cache)
      → ((by : Bytes) → tx.by ≡ some by → IsOk (shown get_public_key_imbalance by cache))
      → (credit_sender get_public_key_imbalance tx cache).0 ≡ ok tt
  unfolding credit_sender credit
  credit_sender-ok tx cache known = elim (Option-cases tx.by) [
    | inl e ↦ ground arith
    | inr (by, e) ↦ ground (arith, known by e)
  ]

  -- `Undo` succeeds where the sender is known and the recipient is shown 1 or more.
  undo-ok :
      (tx : Representation) (key : Bytes) (w : ℤ) (cache : Cache)
      → HasKeys tx
      → tx.for ≡ some key
      → tx.by ≢ some key
      → ((by : Bytes) → tx.by ≡ some by → IsOk (shown get_public_key_imbalance by cache))
      → shown get_public_key_imbalance key cache ≡ ok w
      → pos 1 ≤ℤ w
      → (undo get_public_key_imbalance tx cache).0 ≡ ok tt
  unfolding undo debit_recipient
  undo-ok tx key w cache keys e ne known funds low =
      let mid = (credit_sender get_public_key_imbalance tx cache).1 in
      let credited = credit_sender-ok tx cache known in
      grind (arith, shown-credit_sender tx key cache mid keys, bytes_eq_iff, credited)

  -- After an `Apply` that succeeded on keys of 32 bytes of two different parties, where the cache
  -- showed imbalances in int64 and the recipient had at least 0 and less than the largest, `Undo`
  -- succeeds and restores what the cache showed for every key.
  pub undo-apply :
      (tx : Representation) (key : Bytes) (v : ℤ) (cache cache' : Cache)
      → HasKeys tx
      → tx.for ≡ some key
      → tx.by ≢ some key
      → ((k : Bytes) (u : ℤ) → shown get_public_key_imbalance k cache ≡ ok u → IsInt64 u)
      → shown get_public_key_imbalance key cache ≡ ok v
      → pos 0 ≤ℤ v
      → v <ℤ max_int64
      → apply get_public_key_imbalance tx cache ≡ (ok true, cache')
      → ((undo get_public_key_imbalance tx cache').0 ≡ ok tt)
        × ((k : Bytes)
            → length k ≡ 32
            → shown get_public_key_imbalance k (undo get_public_key_imbalance tx cache').1
              ≡ shown get_public_key_imbalance k cache)
  undo-apply tx key v cache cache' keys e ne int64 funds low high done =
      let undone =
        undo-ok tx key (add64 v (pos 1)) cache' keys e ne
          (λ by eb. ground (
            arith,
            apply-sender_IsOk tx by cache cache' eb done,
            shown-apply get_public_key_imbalance tx by cache cache' keys,
          ))
          (ground (
            arith,
            shown-apply get_public_key_imbalance tx key cache cache' keys,
            bytes_eq_iff key key,
            bytes_eq_iff (or_empty tx.by) key,
          ))
          (omega (arith, add64-one v low high)) in
      (
        undone,
        λ k hk.
            rw
              (
                shown-undo tx k cache' (undo get_public_key_imbalance tx cache').1 keys hk
                    (ground (arith, undone)),
                shown-apply get_public_key_imbalance tx k cache cache' keys hk done,
              )
              (restored (shown get_public_key_imbalance k cache) tx k (int64 k)),
      )
