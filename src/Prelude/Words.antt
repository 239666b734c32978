-- ===== src/Prelude/Words.antt =====
-- Words of printable ASCII, as strings.TrimSpace and strings.Fields see them.
use Prim.Native.Nat.{ℕ, zero, suc, ◌<◌}
use mathlib.Core.Path.{◌≡◌, refl, sym, ap, ◌∙◌}
use mathlib.Core.Logic.{◌≢◌}
use mathlib.Core.List.{
  List, [], ◌∷◌, ◌++◌, reverse, append-nil, reverse-append, reverse-reverse, append_assoc,
}
use native.Mathlib.Omega.{arith}
use proxmox_license_proxy.Prelude.Lists.{All, length}
use proxmox_license_proxy.Prelude.Strings.{Text, leading_space, trailing_space, trim_by, trim_space}
use proxmox_license_proxy.Prelude.Lines.{fields, fields_from, end_field}

abbrev pub IsPrintable : ℕ → Type 0
IsPrintable b = (32 < b) × (b < 127)

-- A text that is not empty, of printable bytes other than the space.
abbrev pub IsWord : Text → Type 0
IsWord s = (s ≢ []) × All IsPrintable s

leading_space-IsPrintable : (a : ℕ) (s : Text) → IsPrintable a → leading_space (a ∷ s) ≡ 0
unfolding leading_space
leading_space-IsPrintable a [] h = ground arith
leading_space-IsPrintable a (b ∷ []) h = ground arith
leading_space-IsPrintable a (b ∷ c ∷ s) h = ground arith

trailing_space-IsPrintable : (a : ℕ) (s : Text) → IsPrintable a → trailing_space (a ∷ s) ≡ 0
unfolding trailing_space
trailing_space-IsPrintable a [] h = ground arith
trailing_space-IsPrintable a (b ∷ []) h = ground arith
trailing_space-IsPrintable a (b ∷ c ∷ s) h = ground arith

trim_by_none : (width : Text → ℕ) (n : ℕ) (s : Text) → width s ≡ 0 → trim_by width n s ≡ s
unfolding trim_by
trim_by_none width zero s h = refl
trim_by_none width (suc n) s h = ground arith

trim_space-eq : (s : Text) → leading_space s ≡ 0 → trailing_space (reverse s) ≡ 0 → trim_space s ≡ s
unfolding trim_space
trim_space-eq s l t =
    ap (λ left. reverse (trim_by trailing_space (length left) (reverse left)))
      (trim_by_none leading_space (length s) s l)
    ∙ ap reverse (trim_by_none trailing_space (length s) (reverse s) t)
    ∙ reverse-reverse s

reverse-ne-nil : (s : Text) → s ≢ [] → reverse s ≢ []
reverse-ne-nil s h e = h (sym (reverse-reverse s) ∙ ap reverse e)

All-append : (xs ys : Text) → All IsPrintable xs → All IsPrintable ys → All IsPrintable (xs ++ ys)
All-append [] ys h k = k
All-append (x ∷ xs) ys (p, h) k = (p, All-append xs ys h k)

reverse-All : (s : Text) → All IsPrintable s → All IsPrintable (reverse s)
reverse-All [] h = tt
reverse-All (a ∷ s) (p, h) =
    rw (reverse-append (a ∷ []) s) (All-append (reverse s) (a ∷ []) (reverse-All s h) (p, tt))

trailing_space-append :
    (xs ys : Text) → xs ≢ [] → All IsPrintable xs → trailing_space (xs ++ ys) ≡ 0
trailing_space-append [] ys h k = absurd (h refl)
trailing_space-append (x ∷ xs) ys h (p, k) = trailing_space-IsPrintable x (xs ++ ys) p

leading_space-append : (xs ys : Text) → xs ≢ [] → All IsPrintable xs → leading_space (xs ++ ys) ≡ 0
leading_space-append [] ys h k = absurd (h refl)
leading_space-append (x ∷ xs) ys h (p, k) = leading_space-IsPrintable x (xs ++ ys) p

-- Two words with a space between them have none to trim.
pub trim_space-pair :
    (s t : Text) → IsWord s → IsWord t → trim_space (s ++ b' ' ∷ t) ≡ s ++ b' ' ∷ t
trim_space-pair s t (n, h) (m, k) =
    trim_space-eq (s ++ b' ' ∷ t) (leading_space-append s (b' ' ∷ t) n h) (
      ap trailing_space (
        reverse-append s (b' ' ∷ t)
        ∙ ap (λ x. x ++ reverse s) (reverse-append (b' ' ∷ []) t)
        ∙ append_assoc (reverse t) (b' ' ∷ []) (reverse s))
      ∙ trailing_space-append (reverse t) (b' ' ∷ reverse s) (reverse-ne-nil t m) (reverse-All t k))

fields_from-word :
    (field s t : Text)
    → All IsPrintable s
    → fields_from 0 field (s ++ t) ≡ fields_from 0 (reverse s ++ field) t
unfolding fields_from
fields_from-word field [] t h = refl
fields_from-word field (a ∷ s) t (h, hs) =
    rw (leading_space-IsPrintable a (s ++ t) h, fields_from)
      (fields_from-word (a ∷ field) s t hs
        ∙ ap (λ f. fields_from 0 f t)
            (sym (
              ap (λ x. x ++ field) (reverse-append (a ∷ []) s)
              ∙ append_assoc (reverse s) (a ∷ []) field)))

end_field-ne-nil : (xs : Text) (fs : List Text) → xs ≢ [] → end_field xs fs ≡ reverse xs ∷ fs
end_field-ne-nil [] fs h = absurd (h refl)
end_field-ne-nil (x ∷ xs) fs h = refl

end_field-word : (s : Text) (fs : List Text) → s ≢ [] → end_field (reverse s ++ []) fs ≡ s ∷ fs
end_field-word s fs h =
    ap (λ x. end_field x fs) (append-nil (reverse s))
    ∙ end_field-ne-nil (reverse s) fs (reverse-ne-nil s h)
    ∙ ap (λ x. x ∷ fs) (reverse-reverse s)

leading_space-space : (t : Text) → leading_space (b' ' ∷ t) ≡ 1
unfolding leading_space
leading_space-space [] = refl
leading_space-space (a ∷ []) = refl
leading_space-space (a ∷ b ∷ t) = refl

fields_from-end : (t : Text) → IsWord t → fields_from 0 [] t ≡ t ∷ []
unfolding fields_from
fields_from-end t (m, k) =
    ap (fields_from 0 []) (sym (append-nil t)) ∙ fields_from-word [] t [] k ∙ end_field-word t [] m

fields_from-space :
    (field t : Text) → fields_from 0 field (b' ' ∷ t) ≡ end_field field (fields_from 0 [] t)
unfolding fields_from
fields_from-space field t = rw (leading_space-space t, fields_from) refl

pub fields-word : (s t : Text) → IsWord s → fields (s ++ b' ' ∷ t) ≡ s ∷ fields t
unfolding fields
fields-word s t (n, h) =
    fields_from-word [] s (b' ' ∷ t) h
    ∙ fields_from-space (reverse s ++ []) t
    ∙ end_field-word s (fields_from 0 [] t) n

pub fields-pair : (s t : Text) → IsWord s → IsWord t → fields (s ++ b' ' ∷ t) ≡ s ∷ t ∷ []
unfolding fields
fields-pair s t h k = fields-word s t h ∙ ap (λ fs. s ∷ fs) (fields_from-end t k)
