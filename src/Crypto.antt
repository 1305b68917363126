-- ===== src/Crypto.antt =====
-- pkg/crypto/key.go. The files of the key directory and the libraries for PEM and X.509 are
-- parameters, as are filepath.Join and sort.Slice.
pub mod Latest
pub mod PemRoundTrip
use mathlib.Core.List.{filter_map}
use k8s_athenz_syncer.Common.{
  Bool, true, false, not, Option, none, some, List, [], ◌∷◌, ◌++◌, Bytes, bytes_eq, codes, ◌==◌,
  if◌then◌else◌, is_empty,
}
use k8s_athenz_syncer.Go.{Go, ret, panic}
use k8s_athenz_syncer.Go
use k8s_athenz_syncer.GoStrings.{has_prefix, trim_prefix}
use k8s_athenz_syncer.Strconv.{ℤ, atoi, itoa, less}
use k8s_athenz_syncer.Cluster.{GoError, message, wrapped, Result, ok, err}

pub data KeyType : Type 0 where
  rsa : KeyType
  ecdsa : KeyType

pub record VersionedFiles : Type 0 where
  pub dir : Bytes
  pub prefix : Bytes

pub record PrivateKeySource : Type 0 where
  pub secret_name : Bytes
  pub files : VersionedFiles

-- A private key, a crypto.Signer.
pub data Signer {ℓ} (RsaKey EcKey : Type ℓ) : Type ℓ where
  rsa_key : RsaKey → Signer RsaKey EcKey
  ec_key : EcKey → Signer RsaKey EcKey
  other : Signer RsaKey EcKey

pub record SigningKey {ℓ} (RsaKey EcKey : Type ℓ) : Type ℓ where
  pub uri : Bytes
  pub key_type : KeyType
  pub value : Signer RsaKey EcKey
  pub version : Bytes

-- A file, its version, and the version's text.
pub record Fv : Type 0 where
  pub file : Bytes
  pub version : ℤ
  pub version_str : Bytes

-- The directory: ioutil.ReadDir, of which the names are read, and ioutil.ReadFile; filepath.Join; and
-- sort.Slice by the test that is given.
pub record Files : Type 0 where
  pub read_dir : Bytes → Result (List Bytes)
  pub read_file : Bytes → Result Bytes
  pub join : Bytes → Bytes → Bytes
  pub sort_slice : (Fv → Fv → Bool) → List Fv → List Fv

-- Packages pem and x509: a block is its type and its bytes.
pub record Pem {ℓ} (RsaKey EcKey : Type ℓ) : Type ℓ where
  pub decode : Bytes → Option (Bytes × Bytes)
  pub encode : Bytes → Bytes → Bytes
  pub parse_ec_private_key : Bytes → Result EcKey
  pub parse_pkcs1_private_key : Bytes → Result RsaKey
  pub marshal_pkcs1_private_key : RsaKey → Bytes
  pub marshal_ec_private_key : EcKey → Result Bytes

abbrev pub new_private_key_source : Bytes → Bytes → PrivateKeySource
new_private_key_source dir secret_name = record {
  secret_name = secret_name;
  files = record { dir = dir; prefix = secret_name };
}

module _ (fs : Files) where
  versioned : VersionedFiles → Bytes → Option ℤ → Option Fv
  versioned f name none = none
  versioned f name (some version) = some (record {
    file = fs.join f.dir name;
    version = version;
    version_str = codes "v" ++ itoa version;
  })

  -- The entry of a file of the directory, if its name is one of a version.
  unfoldable pub entry : VersionedFiles → Bytes → Option Fv
  unfolding versioned
  entry f name =
      let prefix = f.prefix ++ codes ".v" in
      if not (has_prefix name prefix)
      then none
      else versioned f name (atoi (trim_prefix name prefix))

  -- The test that list sorts by: the second version is the smaller one.
  abbrev pub descending : Fv → Fv → Bool
  descending a b = less b.version a.version

  listed : VersionedFiles → Result (List Bytes) → Result (List Fv)
  listed f (err e) = err (wrapped (codes "list files") e)
  listed f (ok names) =
      let found = filter_map (entry f) names in
      if is_empty found
      then err (message (codes "no versioned files under " ++ f.dir))
      else ok (fs.sort_slice descending found)

  unfoldable pub list : VersionedFiles → Result (List Fv)
  unfolding listed
  list f = listed f (fs.read_dir f.dir)

  unfoldable pub contents_of : Fv → Result Bytes → Result (Bytes × Bytes)
  contents_of fv (err e) = err e
  contents_of fv (ok content) = ok (content, fv.version_str)

  -- The first of the list; an empty one would be read out of range.
  first_contents : Result (List Fv) → Go (Result (Bytes × Bytes))
  unfolding contents_of
  first_contents (err e) = ret (err e)
  first_contents (ok []) = panic
  first_contents (ok (fv ∷ rest)) = ret (contents_of fv (fs.read_file fv.file))

  unfoldable pub latest_version_contents : VersionedFiles → Go (Result (Bytes × Bytes))
  unfolding first_contents
  latest_version_contents f = first_contents (list f)

abbrev pub secret_uri : Bytes → Bytes → Bytes
secret_uri name version = codes "secret:" ++ name ++ codes "?Version=" ++ version

abbrev handle {ℓ} : {A : Type ℓ} → GoError → Result A
handle e = err (wrapped (codes "PrivateKeyFromPEMBytes") e)

module _ {ℓ} {RsaKey EcKey : Type ℓ} (pem : Pem RsaKey EcKey) where
  ec_parsed : Result EcKey → Result (KeyType × Signer RsaKey EcKey)
  ec_parsed (err e) = handle e
  ec_parsed (ok k) = ok (ecdsa, ec_key k)

  rsa_parsed : Result RsaKey → Result (KeyType × Signer RsaKey EcKey)
  rsa_parsed (err e) = handle e
  rsa_parsed (ok k) = ok (rsa, rsa_key k)

  from_block : Bytes → Option (Bytes × Bytes) → Result (KeyType × Signer RsaKey EcKey)
  unfolding ec_parsed rsa_parsed
  from_block text none =
      handle (message (codes "unable to load private key, invalid PEM block: " ++ text))
  from_block text (some (block_type, bytes)) =
      if block_type == codes "ECDSA PRIVATE KEY"
      then ec_parsed (pem.parse_ec_private_key bytes)
      else if block_type == codes "RSA PRIVATE KEY"
      then rsa_parsed (pem.parse_pkcs1_private_key bytes)
      else handle (message (codes "unsupported private key type: " ++ block_type))

  unfoldable pub private_key_from_pem_bytes : Bytes → Result (KeyType × Signer RsaKey EcKey)
  unfolding from_block
  private_key_from_pem_bytes text = from_block text (pem.decode text)

  marshalled : Result Bytes → Result Bytes
  marshalled (err e) = err (wrapped (codes "marshal ECDSA key") e)
  marshalled (ok b) = ok (pem.encode (codes "ECDSA PRIVATE KEY") b)

  unfoldable pub pem_bytes : Signer RsaKey EcKey → Result Bytes
  unfolding marshalled
  pem_bytes (rsa_key k) =
      ok (pem.encode (codes "RSA PRIVATE KEY") (pem.marshal_pkcs1_private_key k))
  pem_bytes (ec_key k) = marshalled (pem.marshal_ec_private_key k)
  pem_bytes other = err (message (codes "unexpected error, key was not of RSA or ECDSA type"))

  key_of :
      PrivateKeySource
      → Bytes
      → Result (KeyType × Signer RsaKey EcKey)
      → Result (SigningKey RsaKey EcKey)
  key_of pks version (err e) = err e
  key_of pks version (ok (key_type, key)) = ok (record {
    uri = secret_uri pks.secret_name version;
    key_type = key_type;
    value = key;
    version = version;
  })

  key_from : PrivateKeySource → Result (Bytes × Bytes) → Result (SigningKey RsaKey EcKey)
  unfolding key_of
  key_from pks (err e) = err e
  key_from pks (ok (contents, version)) = key_of pks version (private_key_from_pem_bytes contents)

  unfoldable pub signing_key : Files → PrivateKeySource → Go (Result (SigningKey RsaKey EcKey))
  unfolding key_from
  signing_key fs pks =
      Go.◌>>=◌ (latest_version_contents fs pks.files) λ found. ret (key_from pks found)
