-- ===== src/Acme/Jws/Authentic.antt =====
-- What a request that was verified is known to be.
use proxmox_license_proxy.Prelude.{
  Text, bytes, equal_iff, Option, none, some, Option-cases, [], length, ◌≡◌, sym, ◌∙◌, ◌≢◌, ◌⊎◌,
  true, inl, inr, arith,
}
use proxmox_license_proxy.Result.{Error, ok, Result-cases}
use proxmox_license_proxy.Exec.{>>=-ok, lift-ok}
use proxmox_license_proxy.Acme.Jws.{
  Jwk, ProtectedHeader, Jws, Verified, Jose, public_key_size, signing_input, jwk_ed25519,
  thumbprint, or_error, read_header, check_signature, resolved, key_of_header, verify,
}

or_error-ok : {A : Type 0} (e : Error) (o : Option A) {a : A} → or_error e o ≡ ok a → o ≡ some a
or_error-ok e none h = cc
or_error-ok e (some b) h = ground arith

module _ (jose : Jose) {S : Type 0} (resolve_key : Text → S → Option Text × S) where
  -- The key of a new account, which the header embeds.
  pub record Embedded (header : ProtectedHeader) (pub_key thumb : Text) : Type 0 where
    pub key : Jwk
    pub embedded : header.jwk ≡ some key
    pub no_kid : header.kid ≡ []
    pub kty : key.kty ≡ bytes "OKP"
    pub crv : key.crv ≡ bytes "Ed25519"
    pub decoded : jose.decode key.x ≡ some pub_key
    pub size : length pub_key ≡ public_key_size
    pub identified : thumb ≡ thumbprint jose key

  -- The key of an account that is known.
  pub record Resolved (s t : S) (header : ProtectedHeader) (pub_key thumb : Text) : Type 0 where
    pub no_jwk : header.jwk ≡ none
    pub given : header.kid ≢ []
    pub found : resolve_key header.kid s ≡ (some pub_key, t)
    pub identified : thumb ≡ header.kid

  -- The payload that is passed on is what was signed; an empty segment is an empty payload.
  abbrev pub PayloadOf : Jws → Verified → Type 0
  PayloadOf j v = ((j.payload ≡ []) × (v.payload ≡ [])) ⊎ (jose.decode j.payload ≡ some v.payload)

  pub record Authentic (raw : Text) (s t : S) (v : Verified) : Type 0 where
    pub jws : Jws
    pub content : Text
    pub pub_key : Text
    pub signature : Text
    pub parsed : jose.unmarshal_jws raw ≡ some jws
    pub header_decoded : jose.decode jws.protected ≡ some content
    pub header_parsed : jose.unmarshal_header content ≡ some v.header
    pub algorithm : v.header.alg ≡ bytes "EdDSA"
    pub payload_decoded : PayloadOf jws v
    pub jwk_passed : v.jwk ≡ v.header.jwk
    pub signature_decoded : jose.decode jws.signature ≡ some signature
    pub signed : jose.verify pub_key (signing_input jws.protected jws.payload) signature ≡ true
    pub key :
        (Embedded v.header pub_key v.thumbprint × (t ≡ s))
        ⊎ Resolved s t v.header pub_key v.thumbprint

  record ReadHeader (j : Jws) (header : ProtectedHeader) : Type 0 where
    pub content : Text
    pub decoded : jose.decode j.protected ≡ some content
    pub parsed : jose.unmarshal_header content ≡ some header
    pub algorithm : header.alg ≡ bytes "EdDSA"

  read_header-ok :
      (j : Jws) (header : ProtectedHeader) → read_header jose j ≡ ok header → ReadHeader j header
  unfolding read_header
  read_header-ok j header h = elim (Option-cases (jose.decode j.protected)) [
    | inl failed ↦ absurd (ground arith)
    | inr (content, decoded) ↦ elim (Option-cases (jose.unmarshal_header content)) [
      | inl failed ↦ absurd (ground arith)
      | inr (hd, parsed) ↦ record {
        content = content;
        decoded = decoded;
        parsed = ground arith;
        algorithm = ground (arith, equal_iff hd.alg (bytes "EdDSA"));
      }
    ]
  ]

  record Checked (j : Jws) (header : ProtectedHeader) (pub_key thumb : Text) (v : Verified)
      : Type 0 where
    pub signature : Text
    pub decoded : jose.decode j.signature ≡ some signature
    pub signed : jose.verify pub_key (signing_input j.protected j.payload) signature ≡ true
    pub payload : PayloadOf j v
    pub same_header : v.header ≡ header
    pub same_jwk : v.jwk ≡ header.jwk
    pub same_thumb : v.thumbprint ≡ thumb

  check_signature-ok :
      (j : Jws) (header : ProtectedHeader) (pub_key thumb : Text) (v : Verified)
      → check_signature jose j header pub_key thumb ≡ ok v
      → Checked j header pub_key thumb v
  unfolding check_signature
  check_signature-ok j header pub_key thumb v h = elim (Option-cases (jose.decode j.signature)) [
    | inl failed ↦ absurd (ground arith)
    | inr (signature, decoded) ↦ record {
      signature = signature;
      decoded = decoded;
      signed = ground arith;
      payload = ground (arith, equal_iff j.payload [], Option-cases (jose.decode j.payload));
      same_header = ground arith;
      same_jwk = ground arith;
      same_thumb = ground arith;
    }
  ]

  jwk-ok :
      (header : ProtectedHeader) (jwk : Jwk) (pub_key thumb : Text)
      → header.jwk ≡ some jwk
      → header.kid ≡ []
      → jwk_ed25519 jose jwk ≡ ok pub_key
      → thumb ≡ thumbprint jose jwk
      → Embedded header pub_key thumb
  unfolding jwk_ed25519
  jwk-ok header jwk pub_key thumb e k h id = elim (Option-cases (jose.decode jwk.x)) [
    | inl failed ↦ absurd (ground arith)
    | inr (raw, decoded) ↦ record {
      key = jwk;
      embedded = e;
      no_kid = k;
      kty = ground (arith, equal_iff jwk.kty (bytes "OKP"));
      crv = ground (arith, equal_iff jwk.crv (bytes "Ed25519"));
      decoded = ground arith;
      size = ground arith;
      identified = id;
    }
  ]

  abbrev KeyOf : ProtectedHeader → S → S → Text → Text → Type 0
  KeyOf header s t pub_key thumb =
      (Embedded header pub_key thumb × (t ≡ s)) ⊎ Resolved s t header pub_key thumb

  embedded-ok :
      (header : ProtectedHeader) (jwk : Jwk) (s t : S) (pub_key thumb : Text)
      → header.jwk ≡ some jwk
      → key_of_header jose resolve_key (some jwk) header.kid s ≡ (ok (pub_key, thumb), t)
      → Embedded header pub_key thumb × (t ≡ s)
  unfolding key_of_header
  embedded-ok header jwk s t pub_key thumb e h = elim (Result-cases (jwk_ed25519 jose jwk)) [
    | inl (x, failed) ↦ absurd (ground (arith))
    | inr (raw, decoded) ↦ (
      jwk-ok header jwk pub_key thumb e (ground (arith, equal_iff header.kid [])) (ground arith)
          (ground arith),
      ground arith,
    )
  ]

  resolved-ok :
      (header : ProtectedHeader) (s t : S) (pub_key thumb : Text)
      → header.jwk ≡ none
      → key_of_header jose resolve_key none header.kid s ≡ (ok (pub_key, thumb), t)
      → Resolved s t header pub_key thumb
  unfolding key_of_header resolved
  resolved-ok header s t pub_key thumb e h = record {
    no_jwk = e;
    given = ground (arith, equal_iff header.kid []);
    found = ground arith;
    identified = ground arith;
  }

  key_of_header-ok :
      (header : ProtectedHeader) (s t : S) (pub_key thumb : Text)
      → key_of_header jose resolve_key header.jwk header.kid s ≡ (ok (pub_key, thumb), t)
      → KeyOf header s t pub_key thumb
  key_of_header-ok header s t pub_key thumb h = elim (Option-cases header.jwk) [
    | inl e ↦ inr (resolved-ok header s t pub_key thumb e (rw (sym e) h))
    | inr (jwk, e) ↦ inl (embedded-ok header jwk s t pub_key thumb e (rw (sym e) h))
  ]

  KeyOf-along :
      {header header' : ProtectedHeader} {s s' t t' : S} {pub_key thumb thumb' : Text}
      → header ≡ header'
      → s ≡ s'
      → t ≡ t'
      → thumb ≡ thumb'
      → KeyOf header s t pub_key thumb
      → KeyOf header' s' t' pub_key thumb'
  KeyOf-along {pub_key} h p q e k = coe 0 1 (i. KeyOf (h i) (p i) (q i) pub_key (e i)) k

  -- A request that `Verify` accepts has a signature over its header and its payload by the key that
  -- the header names: an Ed25519 key that it embeds, whose thumbprint is then the account id, or the
  -- key that was resolved for its kid, which is then the account id. It names just one of the two.
  pub verify-Authentic :
      (raw : Text) (s t : S) (v : Verified)
      → verify jose resolve_key raw s ≡ (ok v, t)
      → Authentic raw s t v
  unfolding verify
  verify-Authentic raw s t v h =
      let parse = >>=-ok _ _ s h in
      let parsed = lift-ok _ s parse.first in
      let read = >>=-ok _ _ parse.middle parse.second in
      let header_read = lift-ok _ parse.middle read.first in
      let header = read_header-ok parse.value read.value header_read.0 in
      let key = >>=-ok _ _ read.middle read.second in
      let key_known =
        key_of_header-ok read.value read.middle key.middle key.value.0 key.value.1 key.first in
      let check = lift-ok _ key.middle key.second in
      let checked = check_signature-ok parse.value read.value key.value.0 key.value.1 v check.0 in
      record {
        jws = parse.value;
        content = header.content;
        pub_key = key.value.0;
        signature = checked.signature;
        parsed = or_error-ok _ _ parsed.0;
        header_decoded = header.decoded;
        header_parsed = rw checked.same_header header.parsed;
        algorithm = rw checked.same_header header.algorithm;
        payload_decoded = checked.payload;
        jwk_passed = rw checked.same_header checked.same_jwk;
        signature_decoded = checked.decoded;
        signed = checked.signed;
        key =
            KeyOf-along (sym checked.same_header) (header_read.1 ∙ parsed.1) (sym check.1)
              (sym checked.same_thumb) key_known;
      }
