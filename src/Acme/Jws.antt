-- ===== src/Acme/Jws.antt =====
-- internal/acme/jws.go: account keys, and the signing and verification of requests.
pub mod Authentic
pub mod Signing
use proxmox_license_proxy.Prelude.{
  ℕ, Text, bytes, equal, not, ◌&&◌, ◌||◌, Bool, true, false, ◌==◌, Option, none, some, [], ◌∷◌,
  ◌++◌, length, if◌then◌else◌,
}
use proxmox_license_proxy.Result
use proxmox_license_proxy.Result.{
  Error, Result, ok, err, unsupported_jwk, invalid_jwk_x, invalid_key_length, invalid_jws,
  invalid_protected, invalid_header, unsupported_alg, unknown_account, kid_and_jwk,
  invalid_signature, signature_failed, invalid_payload, header_not_encoded,
}
use proxmox_license_proxy.Exec.{Exec, pure, fail, lift, ◌>>=◌}

pub record Jwk : Type 0 where
  pub kty : Text
  pub crv : Text
  pub x : Text

pub record ProtectedHeader : Type 0 where
  pub alg : Text
  pub nonce : Text
  pub url : Text
  pub kid : Text
  pub jwk : Option Jwk

pub record Jws : Type 0 where
  pub protected : Text
  pub payload : Text
  pub signature : Text

-- `jwk` is the header's; `thumbprint` is the account id.
pub record Verified : Type 0 where
  pub header : ProtectedHeader
  pub payload : Text
  pub jwk : Option Jwk
  pub thumbprint : Text

-- What the code calls of encoding/base64 (unpadded URL encoding), encoding/json, crypto/sha256 and
-- crypto/ed25519. `none` is an error.
pub record Jose : Type 0 where
  pub encode : Text → Text
  pub decode : Text → Option Text
  pub marshal_header : ProtectedHeader → Option Text
  pub unmarshal_header : Text → Option ProtectedHeader
  pub unmarshal_jws : Text → Option Jws
  pub sha256 : Text → Text
  pub sign : Text → Text → Text
  -- The public key, the message and the signature.
  pub verify : Text → Text → Text → Bool

abbrev pub public_key_size : ℕ
public_key_size = 32

abbrev pub or_error : {A : Type 0} → Error → Option A → Result A
or_error e none = err e
or_error e (some a) = ok a

-- The bytes that are signed: `protected + "." + payload`.
abbrev pub signing_input : Text → Text → Text
signing_input protected payload = protected ++ (bytes "." ++ payload)

module _ (jose : Jose) where
  open jose use {encode, decode, marshal_header, unmarshal_header, unmarshal_jws, sha256, sign}

  unfoldable pub jwk_from_ed25519 : Text → Jwk
  jwk_from_ed25519 pub_key = record { kty = bytes "OKP"; crv = bytes "Ed25519"; x = encode pub_key }

  -- `JWK.Ed25519`
  unfoldable pub jwk_ed25519 : Jwk → Result Text
  jwk_ed25519 j =
      if not (equal j.kty (bytes "OKP")) || not (equal j.crv (bytes "Ed25519"))
      then err unsupported_jwk
      else Result.◌>>=◌ (or_error invalid_jwk_x (decode j.x))
          λ raw. if length raw == public_key_size then ok raw else err invalid_key_length

  unfoldable pub thumbprint : Jwk → Text
  thumbprint j = encode (
      sha256 (
        bytes "{\"crv\":\""
        ++ (j.crv
            ++ (bytes "\",\"kty\":\""
                ++ (j.kty ++ (bytes "\",\"x\":\"" ++ (j.x ++ bytes "\"}")))))))

  -- A nil payload gives an empty segment.
  abbrev pub payload_segment : Option Text → Text
  payload_segment none = []
  payload_segment (some payload) = encode payload

  unfoldable pub sign_request : Text → ProtectedHeader → Option Text → Result Jws
  sign_request key header payload =
      Result.◌>>=◌
        (or_error header_not_encoded (marshal_header (record header { alg = bytes "EdDSA" })))
        λ content.
          let protected = encode content in
          ok (record {
            protected = protected;
            payload = payload_segment payload;
            signature = encode (sign key (signing_input protected (payload_segment payload)));
          })

  -- The header of a request, as far as it is decoded and its algorithm checked.
  unfoldable pub read_header : Jws → Result ProtectedHeader
  read_header j = Result.◌>>=◌ (or_error invalid_protected (decode j.protected)) λ content.
      Result.◌>>=◌ (or_error invalid_header (unmarshal_header content))
        λ header. if equal header.alg (bytes "EdDSA") then ok header else err unsupported_alg

  -- From the decoding of the signature to the end.
  unfoldable pub check_signature : Jws → ProtectedHeader → Text → Text → Result Verified
  check_signature j header pub_key thumb =
      Result.◌>>=◌ (or_error invalid_signature (decode j.signature)) λ signature.
        if not (jose.verify pub_key (signing_input j.protected j.payload) signature)
        then err signature_failed
        else Result.◌>>=◌
            (if equal j.payload [] then ok [] else or_error invalid_payload (decode j.payload))
            λ payload.
              ok (record {
                header = header;
                payload = payload;
                jwk = header.jwk;
                thumbprint = thumb;
              })

  module _ {S : Type 0} (resolve_key : Text → S → Option Text × S) where
    -- The key of the account `kid`, and the account id.
    unfoldable pub resolved : Text → Exec S (Text × Text)
    resolved kid s =
        let (found, s') = resolve_key kid s in
        elim found [ none ↦ (err unknown_account, s') | some pub_key ↦ (ok (pub_key, kid), s') ]

    -- Exactly one of `jwk` and `kid` names the key.
    unfoldable pub key_of_header : Option Jwk → Text → Exec S (Text × Text)
    key_of_header (some jwk) kid s =
        if equal kid []
        then (Result.◌>>=◌ (jwk_ed25519 jwk) λ pub_key. ok (pub_key, thumbprint jwk), s)
        else (err kid_and_jwk, s)
    key_of_header none kid s = if equal kid [] then (err kid_and_jwk, s) else resolved kid s

    -- `Verify`. `resolve_key` may read the store, whose state is passed through.
    unfoldable pub verify : Text → Exec S Verified
    verify raw = do
      j ← lift (or_error invalid_jws (unmarshal_jws raw))
      header ← lift (read_header j)
      (pub_key, thumb) ← key_of_header header.jwk header.kid
      lift (check_signature j header pub_key thumb)
