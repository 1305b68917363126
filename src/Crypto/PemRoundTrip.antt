-- ===== src/Crypto/PemRoundTrip.antt =====
-- A private key that is printed reads back.
use k8s_athenz_syncer.Common.{
  ◌≡◌, refl, some, arith, Bytes, bytes_eq, codes, bytes_discrete, ℕ_discrete,
}
use k8s_athenz_syncer.Cluster.{Result, ok, err}
use k8s_athenz_syncer.Crypto.{
  KeyType, rsa, ecdsa, Signer, rsa_key, ec_key, other, Pem, from_block, ec_parsed, rsa_parsed,
  private_key_from_pem_bytes, marshalled, pem_bytes,
}

-- What the packages document: a printed block is found again, and a marshalled key is parsed.
pub record IsPem {ℓ} {RsaKey EcKey : Type ℓ} (pem : Pem RsaKey EcKey) : Type ℓ where
  pub decode-encode :
      (block_type bytes : Bytes)
      → pem.decode (pem.encode block_type bytes) ≡ some (block_type, bytes)
  pub parse-marshal_pkcs1 :
      (k : RsaKey) → pem.parse_pkcs1_private_key (pem.marshal_pkcs1_private_key k) ≡ ok k
  pub parse-marshal_ec :
      (k : EcKey) (b : Bytes)
      → pem.marshal_ec_private_key k ≡ ok b
      → pem.parse_ec_private_key b ≡ ok k

abbrev pub type_of {ℓ} : {RsaKey EcKey : Type ℓ} → Signer RsaKey EcKey → KeyType
type_of (ec_key k) = ecdsa
type_of _ = rsa

module _ {ℓ} {RsaKey EcKey : Type ℓ} (pem : Pem RsaKey EcKey) where
  marshalled-ok :
      (b : Result Bytes) (text : Bytes)
      → marshalled pem b ≡ ok text
      → (bytes : Bytes) × (b ≡ ok bytes) × (text ≡ pem.encode (codes "ECDSA PRIVATE KEY") bytes)
  unfolding marshalled
  marshalled-ok (err e) text h = absurd cc
  marshalled-ok (ok bytes) text h = (bytes, refl, ground (arith, h))

  -- The text that is printed for a key reads back as the key, with its type.
  pub private_key_from_pem_bytes-pem_bytes :
      (key : Signer RsaKey EcKey) (text : Bytes)
      → IsPem pem
      → pem_bytes pem key ≡ ok text
      → private_key_from_pem_bytes pem text ≡ ok (type_of key, key)
  unfolding private_key_from_pem_bytes pem_bytes from_block ec_parsed rsa_parsed bytes_discrete
      ℕ_discrete
  private_key_from_pem_bytes-pem_bytes (rsa_key k) text laws h =
      let same : text ≡ pem.encode (codes "RSA PRIVATE KEY") (pem.marshal_pkcs1_private_key k) =
        ground (arith, h) in
      rw (same, laws.decode-encode, laws.parse-marshal_pkcs1) refl
  private_key_from_pem_bytes-pem_bytes (ec_key k) text laws h =
      let (bytes, marshal, same) = marshalled-ok (pem.marshal_ec_private_key k) text h in
      rw (same, laws.decode-encode, laws.parse-marshal_ec k bytes marshal) refl
  private_key_from_pem_bytes-pem_bytes other text laws h = absurd cc
