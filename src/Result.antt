-- ===== src/Result.antt =====
-- The errors that the program returns, and results that may be one. An error carries what its
-- message quotes; the wording of a message is not modelled.
use proxmox_license_proxy.Prelude.{
  ℕ, Bool, true, false, arith, if◌then◌else◌, Text, ◌≡◌, refl, ◌⊎◌, inl, inr,
}

pub data Error : Type 0 where
  -- internal/subscription
  unknown_product unknown_level unknown_sockets invalid_status : Text → Error
  random_failed : Error
  -- internal/app
  key_required account_incomplete account_not_approved subscription_revoked : Error
  invalid_key not_lab_key bad_reg_date bad_due_date : Text → Error
  -- internal/acme: the step of the verification that failed
  unsupported_jwk invalid_jwk_x invalid_key_length : Error
  invalid_jws invalid_protected invalid_header unsupported_alg unknown_account : Error
  kid_and_jwk invalid_signature signature_failed invalid_payload : Error
  header_not_encoded : Error
  -- internal/config
  no_listen no_registry_file files_missing no_networks : Error
  invalid_cidr invalid_tls_mode invalid_ip unknown_log_level : Text → Error
  -- internal/hosts
  no_ip no_hostnames : Error
  -- internal/client
  no_set_command : Text → Error
  no_nonce not_encoded not_decoded not_pem not_pkcs8 not_ed25519 : Error
  -- The status that the proxy answered with.
  replied : ℕ → Error
  -- internal/cli
  aborted nothing_given prompt_failed no_server no_products : Error
  not_found bad_due invalid_server : Text → Error
  -- internal/registry: a call of the operating system failed, or the file holds no registry
  io_failed invalid_registry : Error

pub data Result {ℓ} (A : Type ℓ) : Type ℓ where
  ok : A → Result A
  err : Error → Result A

module _ {A B : Type 0} where
  infixl 5 ◌>>=◌
  abbrev pub ◌>>=◌ : Result A → (A → Result B) → Result B
  err e >>= next = err e
  ok a >>= next = next a

pub Result-cases {ℓ} :
    {A : Type ℓ} (r : Result A) → ((e : Error) × (r ≡ err e)) ⊎ ((a : A) × (r ≡ ok a))
Result-cases (ok a) = inr (a, refl)
Result-cases (err e) = inl (e, refl)

-- What a sequence that succeeds went through.
pub >>=-returned :
    {A B : Type 0} (m : Result A) (next : A → Result B) {b : B}
    → (m >>= next) ≡ ok b
    → (a : A) × (m ≡ ok a) × (next a ≡ ok b)
>>=-returned (err e) next h = cc
>>=-returned (ok a) next h = (a, refl, h)

pub guard-returned :
    {A : Type 0} (b : Bool) (e : Error) (m : Result A) {a : A}
    → (if b then err e else m) ≡ ok a
    → (b ≡ false) × (m ≡ ok a)
guard-returned true e m h = absurd (ground arith)
guard-returned false e m h = (refl, h)
