-- ===== src/ImbalanceCache/View.antt =====
-- What `Apply` does to the imbalances that a cache shows.
use plot_thread.Prelude.{
  ◌≡◌, Bool, true, false, Option, none, some, ℤ, pos, Result, ok, err, panic, bind, add64, sub64,
  if◌then◌else◌, length, arith, ◌<ℤ◌, inl, inr, Option-cases, ◌↔◌,
}
use plot_thread.Prelude.Stateful.{continue-eq-ok}
use plot_thread.Prelude.Bytes.{Bytes, bytes_eq, bytes_eq_iff, copy_array, copy_array-key, or_empty}
use plot_thread.Prelude.Assoc.{insert, lookup-insert}
use plot_thread.Representation.{Representation, is_plotroot}
use plot_thread.Representation.Check.{IsKey}
use plot_thread.ImbalanceCache.{Cache, imbalance_of, credit, debit_sender, apply}

-- What a representation moves: 1 from its sender, if it has one, to its recipient.
abbrev pub is_sender : Representation → Bytes → Bool
is_sender tx k = elim tx.by [ none ↦ false | some by ↦ bytes_eq by k ]

abbrev pub is_recipient : Representation → Bytes → Bool
is_recipient tx k = bytes_eq (or_empty tx.for) k

abbrev pub moved : Representation → Bytes → ℤ → ℤ
moved tx k imbalance =
    let debited = if is_sender tx k then sub64 imbalance (pos 1) else imbalance in
    if is_recipient tx k then add64 debited (pos 1) else debited

-- The keys of the parties have 32 bytes.
abbrev pub IsSender : Option Bytes → Type 0
IsSender none = Unit
IsSender (some k) = length k ≡ 32

abbrev pub HasKeys : Representation → Type 0
HasKeys tx = IsKey tx.for × IsSender tx.by

-- A balance that was read, and is below 1.
abbrev pub IsShort : Result ℤ → Type 0
IsShort (ok v) = v <ℤ pos 1
IsShort (err e) = ⊥
IsShort panic = ⊥

module _ (get_public_key_imbalance : Bytes → Result ℤ) where
  -- What the cache shows for a key.
  abbrev pub shown : Bytes → Cache → Result ℤ
  shown k cache = imbalance_of get_public_key_imbalance (some k) cache

  pub shown-insert :
      (j k : Bytes) (v : ℤ) (cache : Cache)
      → length k ≡ 32
      → shown k (insert j v cache) ≡ (if bytes_eq j k then ok v else shown k cache)
  unfolding imbalance_of
  shown-insert j k v cache h =
      ground (arith, lookup-insert (copy_array 32 k) j v cache, copy_array-key 32 k h)

  pub shown-credit :
      (key k : Bytes) (cache cache' : Cache)
      → length key ≡ 32
      → length k ≡ 32
      → credit get_public_key_imbalance (some key) cache ≡ (ok tt, cache')
      → shown k cache'
        ≡ bind (shown k cache) (λ v. ok (if bytes_eq key k then add64 v (pos 1) else v))
  unfolding credit
  shown-credit key k cache cache' hkey h done =
      grind (arith, shown-insert, copy_array-key 32 key hkey, bytes_eq_iff key k)

  shown-debit_sender :
      (tx : Representation) (k : Bytes) (cache cache' : Cache)
      → HasKeys tx
      → length k ≡ 32
      → debit_sender get_public_key_imbalance tx cache ≡ (ok true, cache')
      → shown k cache'
        ≡ bind (shown k cache) (λ v. ok (if is_sender tx k then sub64 v (pos 1) else v))
  unfolding debit_sender
  shown-debit_sender tx k cache cache' keys h done = elim (Option-cases tx.by) [
    | inl e ↦ grind (arith)
    | inr (by, e) ↦ grind (arith, shown-insert, copy_array-key 32 by, bytes_eq_iff by k)
  ]

  -- Where `Apply` returns true on keys of 32 bytes, it moves 1 from the sender, if there is one, to
  -- the recipient, and leaves all others alone.
  pub shown-apply :
      (tx : Representation) (k : Bytes) (cache cache' : Cache)
      → HasKeys tx
      → length k ≡ 32
      → apply get_public_key_imbalance tx cache ≡ (ok true, cache')
      → shown k cache' ≡ bind (shown k cache) (λ v. ok (moved tx k v))
  unfolding apply
  shown-apply tx k cache cache' keys h done =
      let (covered, mid, first, second) =
        continue-eq-ok (debit_sender get_public_key_imbalance tx cache) _ done in
      elim (Option-cases tx.for) [
        | inl e ↦ ground arith
        | inr (key, e) ↦ grind (
          arith,
          shown-credit key k mid cache',
          shown-debit_sender tx k cache mid keys h,
          bytes_eq_iff key k,
        )
      ]

  -- `Apply` refuses a representation exactly when it has a sender who is shown less than 1, and
  -- then changes nothing.
  pub apply-refused :
      (tx : Representation) (cache : Cache)
      → (apply get_public_key_imbalance tx cache ≡ (ok false, cache))
        ↔ ((is_plotroot tx ≡ false) × IsShort (imbalance_of get_public_key_imbalance tx.by cache))
  unfolding apply
  apply-refused tx cache = (λ h. ground arith, λ h. ground arith)
