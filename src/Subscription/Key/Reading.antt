-- ===== src/Subscription/Key/Reading.antt =====
-- How the functions of key.go read a generated key.
use proxmox_license_proxy.Prelude.{
  ℕ, ◌+◌, Text, bytes, equal, true, [], ◌∷◌, ◌++◌, All, ◌≡◌, ◌≢◌, refl, sym, subst, ◌∙◌, inl, inr,
  arith, has_prefix, index_byte, trim_space,
}
use proxmox_license_proxy.Result.{ok}
use proxmox_license_proxy.Subscription.Key.{
  pve, pbs, pmg, product_name, level_name, lab_signature, default_sockets, or_default, Draw,
  generate_key, is_hex, valid_key, key_sockets, is_lab_key, Description, describe,
}
use proxmox_license_proxy.Subscription.Key.Format.{
  IsLevel, IsSocketDigit, IsHex, is_hex-to, KeyPrefix, of_pve, of_pbs, of_pmg, valid_key_iff,
}
use proxmox_license_proxy.Subscription.Key.Generated.{
  Seven, Minted, for_pve, for_pbs, for_pmg, generate_key-Minted,
}

level_cases {ℓ} : (P : ℕ → Type ℓ) → P b'c' → P b'b' → P b's' → P b'p' → (l : ℕ) → IsLevel l → P l
level_cases P c b s p l (inl e) = subst P (sym e) c
level_cases P c b s p l (inr (inl e)) = subst P (sym e) b
level_cases P c b s p l (inr (inr (inl e))) = subst P (sym e) s
level_cases P c b s p l (inr (inr (inr (inl e)))) = subst P (sym e) p
level_cases P c b s p l (inr (inr (inr (inr e)))) = absurd e

digit_cases {ℓ} :
    (P : ℕ → Type ℓ) → P b'1' → P b'2' → P b'4' → P b'8' → (d : ℕ) → IsSocketDigit d → P d
digit_cases P w x y z d (inl e) = subst P (sym e) w
digit_cases P w x y z d (inr (inl e)) = subst P (sym e) x
digit_cases P w x y z d (inr (inr (inl e))) = subst P (sym e) y
digit_cases P w x y z d (inr (inr (inr (inl e)))) = subst P (sym e) z
digit_cases P w x y z d (inr (inr (inr (inr e)))) = absurd e

-- What `describe` says of a key of this product and level.
abbrev pub description : Text → ℕ → Description
description product l = record {
  product = product;
  product_name = product_name product ++ (bytes " " ++ (level_name l ++ bytes " Subscription"));
  level = level_name l;
}

-- The lab signature and the description that are read off a key.
abbrev Reads : Text → ℕ → Text → Type 0
Reads product l key = (is_lab_key key ≡ true) × (describe key ≡ description product l)

abbrev ReadsSockets : Text → ℕ → ℕ → Type 0
ReadsSockets hex l d = Reads pve l (pve ++ d ∷ l ∷ b'-' ∷ (lab_signature ++ hex))

abbrev ReadsPlain : Text → Text → ℕ → Type 0
ReadsPlain hex product l = Reads product l (product ++ l ∷ b'-' ∷ (lab_signature ++ hex))

module _ (hex : Text) where
  pve_row_c : (d : ℕ) → IsSocketDigit d → ReadsSockets hex b'c' d
  unfolding is_lab_key describe index_byte has_prefix product_name level_name equal trim_space
  pve_row_c =
      digit_cases (ReadsSockets hex b'c') (refl, refl) (refl, refl) (refl, refl) (refl, refl)

  pve_row_b : (d : ℕ) → IsSocketDigit d → ReadsSockets hex b'b' d
  unfolding is_lab_key describe index_byte has_prefix product_name level_name equal trim_space
  pve_row_b =
      digit_cases (ReadsSockets hex b'b') (refl, refl) (refl, refl) (refl, refl) (refl, refl)

  pve_row_s : (d : ℕ) → IsSocketDigit d → ReadsSockets hex b's' d
  unfolding is_lab_key describe index_byte has_prefix product_name level_name equal trim_space
  pve_row_s =
      digit_cases (ReadsSockets hex b's') (refl, refl) (refl, refl) (refl, refl) (refl, refl)

  pve_row_p : (d : ℕ) → IsSocketDigit d → ReadsSockets hex b'p' d
  unfolding is_lab_key describe index_byte has_prefix product_name level_name equal trim_space
  pve_row_p =
      digit_cases (ReadsSockets hex b'p') (refl, refl) (refl, refl) (refl, refl) (refl, refl)

  reads_pve : (l : ℕ) → IsLevel l → (d : ℕ) → IsSocketDigit d → ReadsSockets hex l d
  reads_pve =
      level_cases (λ l. (d : ℕ) → IsSocketDigit d → ReadsSockets hex l d) pve_row_c pve_row_b
        pve_row_s pve_row_p

  reads_pbs : (l : ℕ) → IsLevel l → ReadsPlain hex pbs l
  unfolding is_lab_key describe index_byte has_prefix product_name level_name equal trim_space
  reads_pbs = level_cases (ReadsPlain hex pbs) (refl, refl) (refl, refl) (refl, refl) (refl, refl)

  reads_pmg : (l : ℕ) → IsLevel l → ReadsPlain hex pmg l
  unfolding is_lab_key describe index_byte has_prefix product_name level_name equal trim_space
  reads_pmg = level_cases (ReadsPlain hex pmg) (refl, refl) (refl, refl) (refl, refl) (refl, refl)

sockets-pve :
    (d : ℕ) (rest : Text) → IsSocketDigit d → d ∷ [] ≡ (b'0' + key_sockets (pve ++ d ∷ rest)) ∷ []
unfolding key_sockets has_prefix
sockets-pve d rest h = ground arith

-- What is said of a key that `generate_key` returns.
pub record IsGenerated (product level sockets key : Text) : Type 0 where
  pub valid : valid_key key ≡ true
  pub lab : is_lab_key key ≡ true
  pub letter : ℕ
  pub levelled : or_default level (bytes "c") ≡ letter ∷ []
  pub described : describe key ≡ description product letter
  pub socketed : product ≡ pve → or_default sockets default_sockets ≡ (b'0' + key_sockets key) ∷ []
  pub socketless : product ≢ pve → key_sockets key ≡ 0

lab-IsHex : (hex : Text) → All IsHex hex → All IsHex (lab_signature ++ hex)
unfolding is_hex
lab-IsHex hex h = (is_hex-to b'1' refl, (is_hex-to b'a' refl, (is_hex-to b'b' refl, h)))

-- A key of these parts matches the key pattern.
shaped :
    (prefix hex : Text)
    → KeyPrefix prefix
    → Seven hex
    → valid_key (prefix ++ (b'-' ∷ (lab_signature ++ hex))) ≡ true
shaped prefix hex s (size, digits) =
    (valid_key_iff (prefix ++ (b'-' ∷ (lab_signature ++ hex)))).1 (record {
      prefix = prefix;
      hex = lab_signature ++ hex;
      splits = refl;
      prefixed = s;
      ten = omega (arith, size);
      digits = lab-IsHex hex digits;
    })

socketless-pbs : (rest : Text) → key_sockets (pbs ++ rest) ≡ 0
unfolding key_sockets has_prefix
socketless-pbs rest = refl

socketless-pmg : (rest : Text) → key_sockets (pmg ++ rest) ≡ 0
unfolding key_sockets has_prefix
socketless-pmg rest = refl

pbs-ne-pve : pbs ≢ pve
pbs-ne-pve e = grind (arith, e)

pmg-ne-pve : pmg ≢ pve
pmg-ne-pve e = grind (arith, e)

Minted-IsGenerated :
    {product level sockets key : Text}
    → Minted product level sockets key
    → IsGenerated product level sockets key
Minted-IsGenerated (for_pve d l hex p nok n lok e seven k) =
    let (lab, described) = reads_pve hex l lok d nok in
    record {
      valid = rw k (shaped (bytes "pve" ++ d ∷ l ∷ []) hex (of_pve d l nok lok refl) seven);
      lab = rw k lab;
      letter = l;
      levelled = e;
      described = rw (k, p) described;
      socketed = λ _. rw (n, k) (sockets-pve d _ nok);
      socketless = λ ne. absurd (ne p);
    }
Minted-IsGenerated (for_pbs l hex p lok e seven k) =
    let (lab, described) = reads_pbs hex l lok in
    record {
      valid = rw k (shaped (bytes "pbs" ++ l ∷ []) hex (of_pbs l lok refl) seven);
      lab = rw k lab;
      letter = l;
      levelled = e;
      described = rw (k, p) described;
      socketed = λ q. absurd (pbs-ne-pve (sym p ∙ q));
      socketless = λ _. rw k (socketless-pbs _);
    }
Minted-IsGenerated (for_pmg l hex p lok e seven k) =
    let (lab, described) = reads_pmg hex l lok in
    record {
      valid = rw k (shaped (bytes "pmg" ++ l ∷ []) hex (of_pmg l lok refl) seven);
      lab = rw k lab;
      letter = l;
      levelled = e;
      described = rw (k, p) described;
      socketed = λ q. absurd (pmg-ne-pve (sym p ∙ q));
      socketless = λ _. rw k (socketless-pmg _);
    }

-- A key that GenerateKey returns is valid, carries the lab signature, and is described by the
-- product and the level that were asked for (level c if none was); a PVE key says the number of
-- sockets that was asked for (1 if none was), and a key of another product says none.
pub generate_key-IsGenerated :
    (product level sockets : Text) (draw : Draw) {key : Text}
    → generate_key product level sockets draw ≡ ok key
    → IsGenerated product level sockets key
generate_key-IsGenerated product level sockets draw h =
    Minted-IsGenerated (generate_key-Minted product level sockets draw h)
