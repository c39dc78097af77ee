-- ===== src/Representation/Check.antt =====
-- processor.go: `checkRepresentation` and `checkRepresentationSeries`.
use plot_thread.Prelude.{
  ℕ, ◌≡◌, Bool, true, false, not, ◌||◌, ◌&&◌, Option, none, some, ltb_ℤ, leb_ℤ, eqb_ℤ, ℤ, pos,
  sub64, add64, quot_ℤ, Result, ok, refuse, if◌then◌else◌, length, ltb, ◌==◌, ◌≤ℤ◌, ◌≤◌, arith,
  Error, ◌↔◌, ◌≢◌,
}
use plot_thread.Prelude.Fallible.{◌>>◌}
use plot_thread.Prelude.Bytes.{Bytes, bytes_eq, bytes_eq_iff, or_empty}
use plot_thread.Prelude.Utf8.{valid_utf8}
use plot_thread.Representation.{Representation, is_plotroot, plots_until_new_series}

-- MAX_NUMBER is 2 ^ 53 - 1.
abbrev pub max_number : ℤ
max_number = pos 9007199254740991

-- MAX_MEMO_LENGTH, in bytes. The struct's comment in representation.go speaks of 100 characters.
abbrev pub max_memo_length : ℕ
max_memo_length = 200

-- ed25519.PublicKeySize and ed25519.SignatureSize
abbrev pub public_key_size : ℕ
public_key_size = 32

abbrev pub signature_size : ℕ
signature_size = 64

-- What only a plotroot must satisfy, and what only the others must.
check_parties : Representation → Result (Unit {0})
unfolding is_plotroot
check_parties tx =
    if is_plotroot tx
    then (do
      refuse (ltb_ℤ (pos 0) tx.matures) Error.plotroot_maturity
      refuse (ltb_ℤ (pos 0) tx.expires) Error.plotroot_expiration
      refuse (not (length tx.signature == 0)) Error.plotroot_signature)
    else (do
      refuse (not (length (or_empty tx.by) == public_key_size)) Error.invalid_sender
      refuse (not (length tx.signature == signature_size)) Error.invalid_signature)

abbrev is_nil : Option Bytes → Bool
is_nil none = true
is_nil (some _) = false

unfoldable pub check_representation : Representation → Result (Unit {0})
unfolding check_parties
check_representation tx = do
  refuse (ltb_ℤ tx.time (pos 0) || ltb_ℤ max_number tx.time) Error.invalid_time
  refuse (ltb_ℤ tx.nonce (pos 0)) Error.negative_nonce
  check_parties tx
  refuse (is_nil tx.for) Error.missing_recipient
  refuse (not (length (or_empty tx.for) == public_key_size)) Error.invalid_recipient
  refuse (bytes_eq (or_empty tx.by) (or_empty tx.for)) Error.pays_self
  refuse (not (valid_utf8 tx.memo)) Error.memo_not_utf8
  refuse (ltb max_memo_length (length tx.memo)) Error.memo_too_long
  refuse (ltb_ℤ tx.matures (pos 0) || ltb_ℤ max_number tx.matures) Error.invalid_maturity
  refuse (ltb_ℤ tx.expires (pos 0) || ltb_ℤ max_number tx.expires) Error.invalid_expiration
  refuse (leb_ℤ tx.series (pos 0) || ltb_ℤ max_number tx.series) Error.invalid_series

unfoldable pub check_representation_series : Representation → ℤ → Bool
unfolding is_plotroot
check_representation_series tx height =
    let high = add64 (quot_ℤ height plots_until_new_series) (pos 1) in
    let low = sub64 high (pos 1) in
    let low' = if eqb_ℤ low (pos 0) then pos 1 else low in
    if is_plotroot tx then eqb_ℤ tx.series high else leb_ℤ low' tx.series && leb_ℤ tx.series high

-- A party's key, as it must be.
abbrev pub IsKey : Option Bytes → Type 0
IsKey none = ⊥
IsKey (some k) = length k ≡ public_key_size

-- What a plotroot, and what any other representation, must be.
abbrev pub HasParties : Representation → Option Bytes → Type 0
HasParties tx none = (tx.matures ≤ℤ pos 0) × (tx.expires ≤ℤ pos 0) × (length tx.signature ≡ 0)
HasParties tx (some k) = (length k ≡ public_key_size) × (length tx.signature ≡ signature_size)

abbrev pub Within : ℤ → ℤ → Type 0
Within low x = (low ≤ℤ x) × (x ≤ℤ max_number)

-- The rules for a representation by itself.
pub record IsSane (tx : Representation) : Type 0 where
  pub time : Within (pos 0) tx.time
  pub nonce : pos 0 ≤ℤ tx.nonce
  pub parties : HasParties tx tx.by
  pub recipient : IsKey tx.for
  pub not_self : or_empty tx.by ≢ or_empty tx.for
  pub memo_utf8 : valid_utf8 tx.memo ≡ true
  pub memo_short : length tx.memo ≤ max_memo_length
  pub matures : Within (pos 0) tx.matures
  pub expires : Within (pos 0) tx.expires
  pub series : Within (pos 1) tx.series

-- checkRepresentation accepts exactly the representations that meet the rules of `IsSane`, among them
-- that the memo has at most MAX_MEMO_LENGTH, 200, bytes.
pub check_representation-IsSane :
    (tx : Representation) → (check_representation tx ≡ ok tt) ↔ IsSane tx
unfolding check_representation
check_representation-IsSane tx = (
  λ h. ground (arith, bytes_eq_iff (or_empty tx.by) (or_empty tx.for)),
  λ s. ground (arith, bytes_eq_iff (or_empty tx.by) (or_empty tx.for)),
)
