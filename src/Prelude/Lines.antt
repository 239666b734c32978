-- ===== src/Prelude/Lines.antt =====
-- strings.Split and strings.Join at line breaks, strings.TrimRight and strings.Fields.
use Prim.Native.Nat.{ℕ, zero, suc}
use mathlib.Core.Path.{◌≡◌, refl, sym, ap, ◌∙◌}
use mathlib.Core.Logic.{◌≢◌, ◌⊎◌, inl, inr}
use mathlib.Core.Bool.{Bool, true, false, ◌&&◌}
use mathlib.Core.List.{List, [], ◌∷◌, ◌++◌, reverse, append_assoc}
use native.Mathlib.Omega.{arith}
use proxmox_license_proxy.Prelude.Tests.{◌==◌, if◌then◌else◌, Bool-cases}
use proxmox_license_proxy.Prelude.Lists.{All}
use proxmox_license_proxy.Prelude.Strings.{Text, leading_space, split, join, cons_first}

abbrev pub newline : ℕ
newline = b'\n'

abbrev is_empty : Text → Bool
is_empty [] = true
is_empty (a ∷ s) = false

-- strings.TrimRight(s, "\n")
unfoldable pub trim_newlines : Text → Text
trim_newlines [] = []
trim_newlines (a ∷ s) =
    let rest = trim_newlines s in if a == newline && is_empty rest then [] else a ∷ rest

-- strings.Fields(s). `skip` is what is left of a space of several bytes, and `field` the bytes of
-- the field so far, the last one first.
abbrev pub end_field : Text → List Text → List Text
end_field [] fs = fs
end_field (a ∷ s) fs = reverse (a ∷ s) ∷ fs

unfoldable pub fields_from : ℕ → Text → Text → List Text
fields_from skip field [] = end_field field []
fields_from (suc skip) field (a ∷ s) = fields_from skip field s
fields_from zero field (a ∷ s) = elim (leading_space (a ∷ s)) [
  | zero ↦ fields_from zero (a ∷ field) s
  | suc width ↦ end_field field (fields_from width [] s)
]

unfoldable pub fields : Text → List Text
unfolding fields_from
fields s = fields_from 0 [] s

-- A text on one line.
abbrev pub OneLine : Text → Type 0
OneLine = All (λ b. b ≢ newline)

cons_first-ne-nil : (a : ℕ) (ls : List Text) → cons_first a ls ≢ []
cons_first-ne-nil a [] = ground arith
cons_first-ne-nil a (l ∷ ls) = ground arith

pub split-ne-nil : (s : Text) (sep : ℕ) → split s sep ≢ []
unfolding split
split-ne-nil [] sep = ground arith
split-ne-nil (a ∷ s) sep = elim (Bool-cases (a == sep)) [
  | inl at_end ↦ rw at_end (ground arith)
  | inr inside ↦ rw inside (cons_first-ne-nil a (split s sep))
]

cons_first-OneLine :
    (a : ℕ) (ls : List Text) → a ≢ newline → All OneLine ls → All OneLine (cons_first a ls)
cons_first-OneLine a [] h k = ((h, tt), tt)
cons_first-OneLine a (l ∷ ls) h k = ((h, k.0), k.1)

pub split-OneLine : (s : Text) → All OneLine (split s newline)
unfolding split
split-OneLine [] = (tt, tt)
split-OneLine (a ∷ s) = elim (Bool-cases (a == newline)) [
  | inl at_end ↦ rw at_end (tt, split-OneLine s)
  | inr inside ↦ rw inside (cons_first-OneLine a (split s newline) (ground arith) (split-OneLine s))
]

cons_first-append :
    (a : ℕ) (ls ms : List Text) → ls ≢ [] → cons_first a (ls ++ ms) ≡ cons_first a ls ++ ms
cons_first-append a [] ms h = absurd (h refl)
cons_first-append a (l ∷ ls) ms h = refl

pub split-append :
    (s t : Text) → split (s ++ newline ∷ t) newline ≡ split s newline ++ split t newline
unfolding split
split-append [] t = refl
split-append (a ∷ s) t = elim (Bool-cases (a == newline)) [
  | inl at_end ↦ rw at_end (ap (λ ls. [] ∷ ls) (split-append s t))
  | inr inside ↦ rw inside (
      ap (cons_first a) (split-append s t)
      ∙ cons_first-append a (split s newline) (split t newline) (split-ne-nil s newline))
]

join-cons_first :
    (a : ℕ) (ls : List Text) (sep : Text) → join (cons_first a ls) sep ≡ a ∷ join ls sep
unfolding join
join-cons_first a [] sep = refl
join-cons_first a (l ∷ []) sep = refl
join-cons_first a (l ∷ m ∷ ls) sep = refl

join-nil : (ls : List Text) (sep : Text) → ls ≢ [] → join ([] ∷ ls) sep ≡ sep ++ join ls sep
unfolding join
join-nil [] sep h = absurd (h refl)
join-nil (l ∷ ls) sep h = refl

pub join-cons :
    (l : Text) (ls : List Text) (sep : Text)
    → ls ≢ []
    → join (l ∷ ls) sep ≡ l ++ (sep ++ join ls sep)
unfolding join
join-cons l [] sep h = absurd (h refl)
join-cons l (m ∷ ls) sep h = refl

pub join-split : (s : Text) → join (split s newline) (newline ∷ []) ≡ s
unfolding split join
join-split [] = refl
join-split (a ∷ s) = elim (Bool-cases (a == newline)) [
  | inl at_end ↦ rw at_end (
      join-nil (split s newline) (newline ∷ []) (split-ne-nil s newline)
      ∙ ap (λ t. newline ∷ t) (join-split s)
      ∙ ap (λ b. b ∷ s) (ground arith))
  | inr inside ↦
      rw inside
        (join-cons_first a (split s newline) (newline ∷ []) ∙ ap (λ t. a ∷ t) (join-split s))
]

split-one : (l : Text) → OneLine l → split l newline ≡ l ∷ []
unfolding split
split-one [] h = refl
split-one (a ∷ l) (h, hs) = ground (arith, split-one l hs)

-- Lines are what a text of them splits into.
pub split-join :
    (l : Text) (ls : List Text)
    → All OneLine (l ∷ ls)
    → split (join (l ∷ ls) (newline ∷ [])) newline ≡ l ∷ ls
unfolding join
split-join l [] (h, _) = split-one l h
split-join l (m ∷ ls) (h, hs) =
    split-append l (join (m ∷ ls) (newline ∷ []))
    ∙ ap (λ xs. xs ++ split (join (m ∷ ls) (newline ∷ [])) newline) (split-one l h)
    ∙ ap (λ xs. l ∷ xs) (split-join m ls hs)

-- A line break at the end is one more line, which is empty.
pub join-append_nil :
    (ls : List Text)
    → ls ≢ []
    → join (ls ++ [] ∷ []) (newline ∷ []) ≡ join ls (newline ∷ []) ++ newline ∷ []
unfolding join
join-append_nil [] h = absurd (h refl)
join-append_nil (l ∷ []) h = refl
join-append_nil (l ∷ m ∷ ls) h =
    ap (λ t. l ++ newline ∷ t) (join-append_nil (m ∷ ls) (ground arith))
    ∙ sym (append_assoc l (newline ∷ join (m ∷ ls) (newline ∷ [])) (newline ∷ []))

-- What is trimmed off begins with a line break.
pub trim_newlines_parts :
    (s : Text) → (s ≡ trim_newlines s) ⊎ ((rest : Text) × (s ≡ trim_newlines s ++ newline ∷ rest))
unfolding trim_newlines
trim_newlines_parts [] = inl refl
trim_newlines_parts (a ∷ s) = elim (Bool-cases (a == newline && is_empty (trim_newlines s))) [
  | inl gone ↦ inr (s, rw gone (ground arith))
  | inr kept ↦ elim (trim_newlines_parts s) [
    | inl same ↦ inl (rw kept (ap (λ t. a ∷ t) same))
    | inr (rest, cut) ↦ inr (rest, rw kept (ap (λ t. a ∷ t) cut))
  ]
]

pub trim_newlines-append : (s : Text) → trim_newlines (s ++ newline ∷ []) ≡ trim_newlines s
unfolding trim_newlines
trim_newlines-append [] = refl
trim_newlines-append (a ∷ s) = rw (trim_newlines-append s) refl

pub trim_newlines_idem : (s : Text) → trim_newlines (trim_newlines s) ≡ trim_newlines s
unfolding trim_newlines
trim_newlines_idem [] = refl
trim_newlines_idem (a ∷ s) = ground (arith, trim_newlines_idem s)
