-- ===== src/Client/AccountKey.antt =====
-- internal/client/acmeclient.go: the file with the key of the account.
use proxmox_license_proxy.Prelude.{
  Text, Bool, true, false, Option, Option-cases, none, some, not, ◌≡◌, refl, inl, inr, arith,
  if◌then◌else◌,
}
use proxmox_license_proxy.Result.{
  Result, ok, err, io_failed, random_failed, not_encoded, not_pem, not_pkcs8, not_ed25519,
}
use proxmox_license_proxy.Registry.Store.{Write, written, torn, write_file, write_failed}

-- What a PKCS#8 block holds.

pub data PrivateKey : Type 0 where
  ed25519 : Text → PrivateKey
  other : PrivateKey

-- encoding/pem and crypto/x509, where `none` is an error.
pub record KeyCodec : Type 0 where
  pub pem_decode : Text → Option Text
  pub pem_encode : Text → Text
  pub parse : Text → Option PrivateKey
  pub marshal : Text → Option Text

-- What the operating system answers: `drawn` is the key that ed25519.GenerateKey gives.
pub record KeyCalls : Type 0 where
  pub read : Bool
  pub drawn : Option Text
  pub mkdir : Bool
  pub write : Write Text

module _ (codec : KeyCodec) where
  abbrev pub own_key : Option PrivateKey → Result Text
  own_key none = err not_pkcs8
  own_key (some other) = err not_ed25519
  own_key (some (ed25519 key)) = ok key

  abbrev pub key_of_block : Option Text → Result Text
  key_of_block none = err not_pem
  key_of_block (some block) = own_key (codec.parse block)

  -- From `x509.MarshalPKCS8PrivateKey` to the end, over the file that there is.
  abbrev pub write_key : KeyCalls → Text → Option Text → Option Text → Result Text × Option Text
  write_key c key none file = (err not_encoded, file)
  write_key c key (some der) file =
      if not c.mkdir
      then (err io_failed, file)
      else if write_failed c.write
      then (err io_failed, write_file c.write (codec.pem_encode der))
      else (ok key, write_file c.write (codec.pem_encode der))

  abbrev pub create_key : KeyCalls → Option Text → Option Text → Result Text × Option Text
  create_key c none file = (err random_failed, file)
  create_key c (some key) file = write_key c key (codec.marshal key) file

  abbrev pub load_or_create : KeyCalls → Bool → Option Text → Result Text × Option Text
  load_or_create c read none = create_key c c.drawn none
  load_or_create c read (some content) =
      if read
      then (key_of_block (codec.pem_decode content), some content)
      else create_key c c.drawn (some content)

  -- `LoadOrCreateAccountKey` over the file, where `none` is one that does not exist.
  unfoldable pub load_or_create_account_key : KeyCalls → Option Text → Result Text × Option Text
  load_or_create_account_key c file = load_or_create c c.read file

  -- What is encoded is decoded again.
  pub record KeyRoundTrips : Type 0 where
    pub block : (der : Text) → codec.pem_decode (codec.pem_encode der) ≡ some der
    pub key : (k der : Text) → codec.marshal k ≡ some der → codec.parse der ≡ some (ed25519 k)

  -- The file has the key.
  abbrev pub Keeps : Text → Option Text → Type 0
  Keeps key file =
      (content : Text) × (file ≡ some content) × (key_of_block (codec.pem_decode content) ≡ ok key)

  module _ (trips : KeyRoundTrips) (c : KeyCalls) where
    written-Keeps :
        (key der : Text) (file file' : Option Text) {k : Text}
        → codec.marshal key ≡ some der
        → write_key c key (some der) file ≡ (ok k, file')
        → Keeps k file'
    written-Keeps key der file file' m h = (
      codec.pem_encode der,
      written_whole c.write refl,
      ground (arith, trips.block der, trips.key key der m),
    )
      where
        written_whole : (w : Write Text) → c.write ≡ w → file' ≡ some (codec.pem_encode der)
        written_whole written e = ground arith
        written_whole (torn left) e = absurd (ground arith)

    create_key-Keeps :
        (drawn file file' : Option Text) {k : Text}
        → create_key c drawn file ≡ (ok k, file')
        → Keeps k file'
    create_key-Keeps none file file' h = absurd (ground arith)
    create_key-Keeps (some key) file file' h = elim (Option-cases (codec.marshal key)) [
      | inl failed ↦ absurd (ground arith)
      | inr (der, m) ↦ written-Keeps key der file file' m (ground arith)
    ]

    load_or_create-Keeps :
        (read : Bool) (file file' : Option Text) {k : Text}
        → load_or_create c read file ≡ (ok k, file')
        → Keeps k file'
    load_or_create-Keeps read none file' h = create_key-Keeps c.drawn none file' h
    load_or_create-Keeps true (some content) file' h = (content, ground arith, ground arith)
    load_or_create-Keeps false (some content) file' h =
        create_key-Keeps c.drawn (some content) file' h

  -- The key that a call returns, created or read, is the one that every later call returns whose
  -- read succeeds, and the file stays as it is.
  pub load_or_create_account_key_again :
      (trips : KeyRoundTrips) (c later : KeyCalls) (file file' : Option Text) (k : Text)
      → load_or_create_account_key c file ≡ (ok k, file')
      → later.read ≡ true
      → load_or_create_account_key later file' ≡ (ok k, file')
  unfolding load_or_create_account_key
  load_or_create_account_key_again trips c later file file' k h read =
      let (content, found, parsed) = load_or_create-Keeps trips c c.read file file' h in
      ground (arith, found, parsed)
