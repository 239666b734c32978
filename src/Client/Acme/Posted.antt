-- ===== src/Client/Acme/Posted.antt =====
-- What a call of the proxy sends, and what it leaves of the client.
use proxmox_license_proxy.Prelude.{
  ◌<◌, Text, bytes, equal, equal_iff, leb, Bool, Bool-cases, Option, none, some, [], ◌≡◌, ◌≢◌, sym,
  subst, ap, inl, inr, arith,
}
use proxmox_license_proxy.Result.{Result, ok, replied, no_nonce}
use proxmox_license_proxy.Exec.{pure, fail, lift, ◌>>=◌, >>=-ok, lift-ok, guard-ok}
use proxmox_license_proxy.Acme.Jws.{Jose}
use proxmox_license_proxy.Client.Acme.{
  AcmeClient, Session, endpoint, body_of, signed_request, replied_get, get, send, refresh_nonce,
  ensure_nonce, decoded, exchange, post_signed, post,
}
use proxmox_license_proxy.Client.Messages.{Response, Transport, ClientJson, Field}
use mathlib.Core.List.{List}

module _ (jose : Jose) (json : ClientJson) {S : Type 0} (transport : Transport S) where
  -- What is done before a request is signed: nothing where there is a nonce, and otherwise one GET of
  -- a nonce, which is all that changes of the client.
  pub data Prepared (s : Session S) : AcmeClient → S → Type 0 where
    has_nonce : s.client.nonce ≢ [] → Prepared s s.client s.net
    fetched :
        (r : Response) (net : S)
        → s.client.nonce ≡ []
        → transport.get (endpoint s.client (bytes "newNonce")) s.net ≡ (some r, net)
        → r.nonce ≢ []
        → Prepared s (record s.client { nonce = r.nonce }) net

  replied_get-ok :
      (o : Option Response) (s : Session S) {t : Session S} {r : Response}
      → replied_get jose json transport o s ≡ (ok r, t)
      → (o ≡ some r) × (t ≡ s)
  replied_get-ok none s h = absurd (ground arith)
  replied_get-ok (some a) s h = (ground arith, ground arith)

  refresh_nonce-Prepared :
      (s u : Session S)
      → s.client.nonce ≡ []
      → refresh_nonce jose json transport s ≡ (ok tt, u)
      → Prepared s u.client u.net
  unfolding refresh_nonce ◌>>=◌ pure fail
  refresh_nonce-Prepared s u missing h =
      let url = endpoint s.client (bytes "newNonce") in
      let asked = >>=-ok (get jose json transport url) _ s h in
      let (answer, left) = replied_get-ok _ _ asked.first in
      let (given, kept) = guard-ok (equal asked.value.nonce []) no_nonce (pure tt) _ asked.second in
      let client : u.client ≡ record s.client { nonce = asked.value.nonce } =
        ground (arith, kept, left) in
      let net : u.net ≡ asked.middle.net = ground (arith, kept) in
      subst (λ c. Prepared s c u.net) (sym client)
        (fetched asked.value u.net missing (ground (arith, answer, left, net))
          (ground (arith, given, equal_iff asked.value.nonce [])))

  ensure_nonce-Prepared :
      (s u : Session S)
      → ensure_nonce jose json transport s ≡ (ok tt, u)
      → Prepared s u.client u.net
  unfolding ◌>>=◌ pure
  ensure_nonce-Prepared s u h = elim (Bool-cases (equal s.client.nonce [])) [
    | inl empty ↦ refresh_nonce-Prepared s u ((equal_iff s.client.nonce []).0 empty) (rw empty at h)
    | inr given ↦
        let same : s ≡ u = ap (λ (x : Result (Unit {0}) × Session S). x.1) (rw given at h) in
        subst (λ v. Prepared s v.client v.net) same
          (has_nonce (ground (arith, given, equal_iff s.client.nonce [])))
  ]

  -- The client was prepared, and then one request was sent and answered.
  pub record Posted {A : Type 0} (name : Text) (payload : Option (List (Text × Field)))
      (use_jwk : Bool) (zero : A) (out : Option (Text → Option A)) (s t : Session S) (a : A)
      : Type 0 where
    pub sender : AcmeClient
    pub before : S
    pub prepared : Prepared s sender before
    pub body : Option Text
    pub marshalled : body_of jose json payload ≡ ok body
    pub raw : Text
    pub signed : signed_request jose json name body use_jwk sender ≡ ok raw
    pub response : Response
    pub exchanged : transport.post (endpoint sender name) raw before ≡ (some response, t.net)
    pub accepted : response.code < 400
    pub read : decoded jose json transport zero out response.body ≡ ok a
    pub left : t.client ≡ record sender { nonce = response.nonce }

  -- The part of that behind the signature.
  record Exchanged {A : Type 0} (url raw : Text) (zero : A) (out : Option (Text → Option A))
      (s t : Session S) (a : A) : Type 0 where
    pub response : Response
    pub exchanged : transport.post url raw s.net ≡ (some response, t.net)
    pub accepted : response.code < 400
    pub read : decoded jose json transport zero out response.body ≡ ok a
    pub left : t.client ≡ record s.client { nonce = response.nonce }

  exchange-Exchanged :
      {A : Type 0} (url raw : Text) (zero : A) (out : Option (Text → Option A)) (s t : Session S)
      (a : A)
      → exchange jose json transport url raw zero out s ≡ (ok a, t)
      → Exchanged url raw zero out s t a
  unfolding exchange ◌>>=◌
  exchange-Exchanged url raw zero out s t a h =
      let sent = >>=-ok (send jose json transport url raw) _ s h in
      let (answer, after) = replied_get-ok _ _ sent.first in
      let r = sent.value in
      let (fine, judged) =
        guard-ok (leb 400 r.code) (replied r.code)
          (lift (decoded jose json transport zero out r.body))
          (record sent.middle { client = record sent.middle.client { nonce = r.nonce } })
          sent.second in
      let (result, end) = lift-ok (decoded jose json transport zero out r.body) _ judged in
      record {
        response = r;
        exchanged = ground (arith, answer, after, end);
        accepted = ground (arith, fine);
        read = result;
        left = ground (arith, end, after);
      }

  -- A call that succeeds has made one GET of a nonce where the client had none, and nothing before
  -- that; then it has sent one request, which the client signed with a nonce that is not empty, and
  -- nothing else. The answer is no error, what is returned is read from it, and of the client only the
  -- nonce has changed, to that of the answer.
  pub post-Posted :
      {A : Type 0} (name : Text) (payload : Option (List (Text × Field))) (use_jwk : Bool)
      (zero : A) (out : Option (Text → Option A)) (s t : Session S) (a : A)
      → post jose json transport name payload use_jwk zero out s ≡ (ok a, t)
      → Posted name payload use_jwk zero out s t a
  unfolding post post_signed ◌>>=◌
  post-Posted name payload use_jwk zero out s t a h =
      let ensured = >>=-ok (ensure_nonce jose json transport) _ s h in
      let u = ensured.middle in
      let encoded = >>=-ok (lift (body_of jose json payload)) _ u ensured.second in
      let (b, same_b) = lift-ok (body_of jose json payload) u encoded.first in
      let signing = signed_request jose json name encoded.value use_jwk u.client in
      let sealed = >>=-ok (lift signing) _ encoded.middle encoded.second in
      let (q, same_q) = lift-ok signing encoded.middle sealed.first in
      let x =
        exchange-Exchanged (endpoint u.client name) sealed.value zero out sealed.middle t a
          sealed.second in
      record {
        sender = u.client;
        before = u.net;
        prepared = ensure_nonce-Prepared s u ensured.first;
        body = encoded.value;
        marshalled = b;
        raw = sealed.value;
        signed = q;
        response = x.response;
        exchanged = ground (arith, x.exchanged, same_b, same_q);
        accepted = x.accepted;
        read = x.read;
        left = ground (arith, x.left, same_b, same_q);
      }
