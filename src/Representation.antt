-- ===== src/Representation.antt =====
-- representation.go and the context-free checks of processor.go: the representation, its ID and
-- signature, maturity, expiration and series. `encoding/json`, SHA3-256 and ed25519 are arguments.
pub mod Series
pub mod Signing
pub mod Check
use plot_thread.Prelude.{
  ℕ, ◌≡◌, Bool, true, false, ◌||◌, Option, none, some, [], ltb_ℤ, leb_ℤ, eqb_ℤ, ℤ, pos, sub64,
  add64, quot_ℤ, Result, ok, bind, if◌then◌else◌,
}
use plot_thread.Prelude.Bytes.{Bytes, bytes_eq, or_empty}

-- PLOTS_UNTIL_NEW_SERIES
abbrev pub plots_until_new_series : ℕ
plots_until_new_series = 1008

-- A nil `By` or `For` is `none`. Nothing tells a nil signature from an empty one.
pub record Representation : Type 0 where
  pub time : ℤ
  pub nonce : ℤ
  pub by : Option Bytes
  pub for : Option Bytes
  pub memo : Bytes
  pub matures : ℤ
  pub expires : ℤ
  pub series : ℤ
  pub signature : Bytes

-- What the source takes from encoding/json, golang.org/x/crypto/sha3 and ed25519. The foreign
-- signature functions panic on keys of a wrong length.
pub record Crypto : Type 0 where
  pub marshal : Representation → Result Bytes
  pub sum256 : Bytes → Bytes
  pub ed25519_sign : Bytes → Bytes → Result Bytes
  pub ed25519_verify : Bytes → Bytes → Bytes → Result Bool

-- `tx.By == nil`
unfoldable pub is_plotroot : Representation → Bool
is_plotroot tx = elim tx.by [ none ↦ true | some _ ↦ false ]

unfoldable pub contains : Representation → Bytes → Bool
unfolding is_plotroot
contains tx pub_key =
    (if is_plotroot tx then false else bytes_eq pub_key (or_empty tx.by))
    || bytes_eq pub_key (or_empty tx.for)

unfoldable pub is_mature : Representation → ℤ → Bool
is_mature tx height = if eqb_ℤ tx.matures (pos 0) then true else leb_ℤ height tx.matures

unfoldable pub is_expired : Representation → ℤ → Bool
is_expired tx height = if eqb_ℤ tx.expires (pos 0) then false else ltb_ℤ tx.expires height

unfoldable pub compute_representation_series : Bool → ℤ → ℤ
compute_representation_series plotroot height =
    if plotroot
    then add64 (quot_ℤ height plots_until_new_series) (pos 1)
    else add64 (quot_ℤ (sub64 height (pos 100)) plots_until_new_series) (pos 1)

-- The clock and the random nonce are arguments.
unfoldable pub new_representation :
    ℤ → ℤ → Option Bytes → Option Bytes → ℤ → ℤ → ℤ → Bytes → Representation
unfolding compute_representation_series is_plotroot
new_representation now rand by for matures expires height memo = record {
  time = now;
  nonce = rand;
  by = by;
  for = for;
  memo = memo;
  matures = matures;
  expires = expires;
  series = compute_representation_series (elim by [ none ↦ true | some _ ↦ false ]) height;
  signature = [];
}

module _ (c : Crypto) where
  open c use {marshal, sum256, ed25519_sign, ed25519_verify}

  -- The signature is left out of the hash.
  unfoldable pub id : Representation → Result Bytes
  id tx = bind (marshal (record tx { signature = [] })) (λ tx_json. ok (sum256 tx_json))

  unfoldable pub sign : Bytes → Representation → Result Representation
  sign priv_key tx = bind (id tx) (λ digest.
      bind (ed25519_sign priv_key digest) (λ signature. ok (record tx { signature = signature })))

  unfoldable pub verify : Representation → Result Bool
  verify tx = bind (id tx) (λ digest. ed25519_verify (or_empty tx.by) digest tx.signature)
