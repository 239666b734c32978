-- ===== src/Acme/Jws/Signing.antt =====
-- A request that a client signs is verified by the server.
use proxmox_license_proxy.Prelude.{
  Text, bytes, equal_iff, equal_refl, Option, none, some, Option-cases, [], ◌≡◌, true, ap, ◌∙◌, inl,
  inr, arith,
}
use proxmox_license_proxy.Result.{ok, invalid_jws}
use proxmox_license_proxy.Exec.{lift, lift_eq, >>=-eq}
use proxmox_license_proxy.Acme.Jws.{
  ProtectedHeader, Jws, Verified, Jose, or_error, sign_request, signing_input, read_header,
  payload_segment, check_signature, key_of_header, verify,
}

-- The codecs read what they wrote, and `pub_key` verifies what `key` signs.
pub record KeyPair (jose : Jose) (key pub_key : Text) : Type 0 where
  pub decoded : (t : Text) → jose.decode (jose.encode t) ≡ some t
  pub empty : jose.encode [] ≡ []
  pub header_read :
      (h : ProtectedHeader) (content : Text)
      → jose.marshal_header h ≡ some content
      → jose.unmarshal_header content ≡ some h
  pub verifies : (m : Text) → jose.verify pub_key m (jose.sign key m) ≡ true

abbrev pub or_empty : Option Text → Text
or_empty none = []
or_empty (some t) = t

module _ (jose : Jose) (key pub_key : Text) (pair : KeyPair jose key pub_key) where
  record Signed (header : ProtectedHeader) (payload : Option Text) (j : Jws) : Type 0 where
    pub content : Text
    pub marshalled : jose.marshal_header (record header { alg = bytes "EdDSA" }) ≡ some content
    pub protected : j.protected ≡ jose.encode content
    pub segment : j.payload ≡ payload_segment jose payload
    pub signature : j.signature ≡ jose.encode (jose.sign key (signing_input j.protected j.payload))

  sign_request-Signed :
      (header : ProtectedHeader) (payload : Option Text) (j : Jws)
      → sign_request jose key header payload ≡ ok j
      → Signed header payload j
  unfolding sign_request
  sign_request-Signed header payload j h =
      elim (Option-cases (jose.marshal_header (record header { alg = bytes "EdDSA" }))) [
        | inl failed ↦ absurd (ground arith)
        | inr (content, marshalled) ↦ record {
          content = content;
          marshalled = marshalled;
          protected = ground arith;
          segment = ground arith;
          signature = ground arith;
        }
      ]

  -- What the server makes of the header and the payload of the client.
  abbrev pub received : ProtectedHeader → Option Text → Text → Verified
  received header payload thumb = record {
    header = record header { alg = bytes "EdDSA" };
    payload = or_empty payload;
    jwk = header.jwk;
    thumbprint = thumb;
  }

  read-Signed :
      (header : ProtectedHeader) (payload : Option Text) (j : Jws)
      → Signed header payload j
      → read_header jose j ≡ ok (record header { alg = bytes "EdDSA" })
  unfolding read_header
  read-Signed header payload j s = ground (
    arith,
    s.protected,
    pair.decoded s.content,
    pair.header_read (record header { alg = bytes "EdDSA" }) s.content s.marshalled,
    equal_refl (bytes "EdDSA"),
  )

  check-Signed :
      (header : ProtectedHeader) (payload : Option Text) (j : Jws) (thumb : Text)
      → Signed header payload j
      → check_signature jose j (record header { alg = bytes "EdDSA" }) pub_key thumb
        ≡ ok (received header payload thumb)
  unfolding check_signature
  check-Signed header none j thumb s = ground (
    arith,
    s.signature,
    s.segment,
    pair.decoded (jose.sign key (signing_input j.protected j.payload)),
    pair.verifies (signing_input j.protected j.payload),
    equal_iff j.payload [],
  )
  check-Signed header (some t) j thumb s = ground (
    arith,
    s.signature,
    s.segment,
    pair.decoded (jose.sign key (signing_input j.protected j.payload)),
    pair.verifies (signing_input j.protected j.payload),
    equal_iff j.payload [],
    pair.decoded t,
    pair.decoded [],
    pair.empty,
  )

  -- A request that `Sign` makes with the key whose public half its header names is verified: the
  -- server gets the header with the algorithm filled in, the payload, and the account of the key. A
  -- nil payload arrives as an empty one.
  pub verify-sign_request :
      {S : Type 0} (resolve_key : Text → S → Option Text × S) (header : ProtectedHeader)
      (payload : Option Text) (thumb raw : Text) (s t : S) (j : Jws)
      → sign_request jose key header payload ≡ ok j
      → jose.unmarshal_jws raw ≡ some j
      → key_of_header jose resolve_key header.jwk header.kid s ≡ (ok (pub_key, thumb), t)
      → verify jose resolve_key raw s ≡ (ok (received header payload thumb), t)
  unfolding verify
  verify-sign_request resolve_key header payload thumb raw s t j signed parsed named =
      let made = sign_request-Signed header payload j signed in
      >>=-eq (lift _) _ (lift_eq _ s (ap (or_error invalid_jws) parsed))
      ∙ >>=-eq (lift _) _ (lift_eq _ s (read-Signed header payload j made))
      ∙ >>=-eq (key_of_header jose resolve_key header.jwk header.kid) _ named
      ∙ lift_eq _ t (check-Signed header payload j thumb made)
