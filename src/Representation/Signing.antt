-- ===== src/Representation/Signing.antt =====
-- representation.go: IDs and signatures.
use plot_thread.Prelude.{◌≡◌, refl, true, some, ok, bind-eq-ok, arith}
use plot_thread.Prelude.Bytes.{Bytes}
use plot_thread.Representation.{Representation, Crypto, id, sign, verify}

-- Whatever the key makes, the public key accepts.
abbrev pub KeyPair : Crypto → Bytes → Bytes → Type 0
KeyPair c priv_key pub_key =
    (m s : Bytes) → c.ed25519_sign priv_key m ≡ ok s → c.ed25519_verify pub_key m s ≡ ok true

module _ (c : Crypto) where
  -- The ID does not depend on the signature.
  pub id-signature :
      (tx : Representation) (s : Bytes) → id c (record tx { signature = s }) ≡ id c tx
  unfolding id
  id-signature tx s = refl

  -- A representation signed with the private key of its sender verifies, keeps its ID and differs
  -- from the one that was signed in the signature alone.
  pub verify-sign :
      (priv_key pub_key : Bytes) (tx tx' : Representation)
      → KeyPair c priv_key pub_key
      → tx.by ≡ some pub_key
      → sign c priv_key tx ≡ ok tx'
      → (verify c tx' ≡ ok true)
        × (id c tx' ≡ id c tx)
        × (record tx' { signature = tx.signature } ≡ tx)
  unfolding sign verify
  verify-sign priv_key pub_key tx tx' pair by signed =
      let (digest, found, rest) = bind-eq-ok (id c tx) _ signed in
      let (s, made, same) = bind-eq-ok (c.ed25519_sign priv_key digest) _ rest in
      ground (arith, pair digest s made, id-signature tx s, found)
