-- ===== src/Hosts/Block.antt =====
-- The managed block can be put in, replaced and taken out, and the rest of the file stays.
use proxmox_license_proxy.Prelude.{
  Text, equal, trim_space, trim_newlines, newline, split, join, All, Bool, Bool-cases, true, false,
  List, [], ◌∷◌, ◌++◌, map, OneLine, split-ne-nil, split-OneLine, split-append, join-cons,
  join-split, split-join, join-append_nil, trim_newlines_parts, trim_newlines-append,
  trim_newlines_idem, ◌≡◌, ◌≢◌, refl, sym, ap, subst, ◌∙◌, inl, inr, arith, if◌then◌else◌,
}
use mathlib.Core.List.{append_assoc}
use proxmox_license_proxy.Hosts.{
  begin_marker, end_marker, is_begin, is_end, entry, entry_lines, managed_block, strip_lines,
  strip_block, disabled, enabled,
}

-- The line is no marker.

abbrev pub Unmarked : Text → Type 0
Unmarked l = (is_begin l ≡ false) × (is_end l ≡ false)

-- A line that may be hidden.
All-if :
    (P : Text → Type 0) (b : Bool) (l : Text) (ls : List Text)
    → P l
    → All P ls
    → All P (if b then ls else l ∷ ls)
All-if P true l ls p h = h
All-if P false l ls p h = (p, h)

strip_lines-Unmarked : (b : Bool) (ls : List Text) → All Unmarked (strip_lines b ls)
unfolding strip_lines
strip_lines-Unmarked b [] = tt
strip_lines-Unmarked b (l ∷ ls) = elim (Bool-cases (is_begin l)) [
  | inl begins ↦ rw begins (strip_lines-Unmarked true ls)
  | inr other ↦ elim (Bool-cases (is_end l)) [
    | inl ends ↦ rw (other, ends) (strip_lines-Unmarked false ls)
    | inr plain ↦
        rw (other, plain)
          (All-if Unmarked b l (strip_lines b ls) (other, plain) (strip_lines-Unmarked b ls))
  ]
]

strip_lines-OneLine : (b : Bool) (ls : List Text) → All OneLine ls → All OneLine (strip_lines b ls)
unfolding strip_lines
strip_lines-OneLine b [] h = tt
strip_lines-OneLine b (l ∷ ls) (h, hs) = elim (Bool-cases (is_begin l)) [
  | inl begins ↦ rw begins (strip_lines-OneLine true ls hs)
  | inr other ↦ elim (Bool-cases (is_end l)) [
    | inl ends ↦ rw (other, ends) (strip_lines-OneLine false ls hs)
    | inr plain ↦
        rw (other, plain) (All-if OneLine b l (strip_lines b ls) h (strip_lines-OneLine b ls hs))
  ]
]

pub strip_lines-append :
    (xs ys : List Text)
    → All Unmarked xs
    → strip_lines false (xs ++ ys) ≡ xs ++ strip_lines false ys
unfolding strip_lines
strip_lines-append [] ys h = refl
strip_lines-append (x ∷ xs) ys ((b, e), h) =
    rw (b, e) (ap (λ zs. x ∷ zs) (strip_lines-append xs ys h))

-- Lines that the block hides.
strip_lines-hidden :
    (xs ys : List Text) → All Unmarked xs → strip_lines true (xs ++ ys) ≡ strip_lines true ys
unfolding strip_lines
strip_lines-hidden [] ys h = refl
strip_lines-hidden (x ∷ xs) ys ((b, e), h) = rw (b, e) (strip_lines-hidden xs ys h)

-- The lines that are outside of a block, as they are left.
All-append-left : (P : Text → Type 0) (xs ys : List Text) → All P (xs ++ ys) → All P xs
All-append-left P [] ys h = tt
All-append-left P (x ∷ xs) ys (p, h) = (p, All-append-left P xs ys h)

empty_text : split (join [] (newline ∷ [])) newline ≡ [] ∷ []
unfolding split join
empty_text = refl

empty_plain : Unmarked []
unfolding equal trim_space
empty_plain = (refl, refl)

split-join-Unmarked :
    (ls : List Text)
    → All OneLine ls
    → All Unmarked ls
    → All Unmarked (split (join ls (newline ∷ [])) newline)
split-join-Unmarked [] o u =
    subst (All Unmarked) (sym empty_text) ((empty_plain.0, empty_plain.1), tt)
split-join-Unmarked (l ∷ ls) o u = rw (split-join l ls o) u

strip_block-Unmarked : (raw : Text) → All Unmarked (split (strip_block raw) newline)
unfolding strip_block
strip_block-Unmarked raw =
    let ls = split raw newline in
    split-join-Unmarked (strip_lines false ls) (strip_lines-OneLine false ls (split-OneLine raw))
      (strip_lines-Unmarked false ls)

-- The lines of the file that neither the block nor its markers hold.
abbrev pub foreign : Text → Text
foreign raw = trim_newlines (strip_block raw)

pub foreign-Unmarked : (raw : Text) → All Unmarked (split (foreign raw) newline)
foreign-Unmarked raw = elim (trim_newlines_parts (strip_block raw)) [
  | inl same ↦ rw (← same) (strip_block-Unmarked raw)
  | inr (rest, cut) ↦ All-append-left Unmarked (split (foreign raw) newline) (split rest newline) (
      subst (All Unmarked) (ap (λ t. split t newline) cut ∙ split-append (foreign raw) rest)
        (strip_block-Unmarked raw))
]

-- The lines of a block with these names.
abbrev pub block_lines : Text → List Text → List Text
block_lines ip names = begin_marker ∷ (map (entry ip) names ++ end_marker ∷ [] ∷ [])

-- An address and names that stand on one line each, none of which reads as a marker.
pub record CanManage (ip : Text) (names : List Text) : Type 0 where
  pub entries_lines : All OneLine (map (entry ip) names)
  pub entries_plain : All Unmarked (map (entry ip) names)

pub begin_reads : (is_begin begin_marker ≡ true) × OneLine begin_marker
unfolding equal trim_space
begin_reads = (refl, omega arith)

pub end_reads : (is_begin end_marker ≡ false) × (is_end end_marker ≡ true) × OneLine end_marker
unfolding equal trim_space
end_reads = (refl, refl, omega arith)

rest_ne_nil : (xs : List Text) (y : Text) → xs ++ y ∷ [] ∷ [] ≢ []
rest_ne_nil [] y = ground arith
rest_ne_nil (x ∷ xs) y = ground arith

join-entries :
    (ip : Text) (names : List Text)
    → join (map (entry ip) names ++ end_marker ∷ [] ∷ []) (newline ∷ [])
      ≡ entry_lines ip names ++ (end_marker ++ newline ∷ [])
unfolding join
join-entries ip [] = refl
join-entries ip (n ∷ ns) =
    join-cons (entry ip n) (map (entry ip) ns ++ end_marker ∷ [] ∷ []) (newline ∷ [])
      (rest_ne_nil (map (entry ip) ns) end_marker)
    ∙ ap (λ t. entry ip n ++ newline ∷ t) (join-entries ip ns)
    ∙ sym (append_assoc (entry ip n) (newline ∷ entry_lines ip ns) (end_marker ++ newline ∷ []))

managed_block-join :
    (ip : Text) (names : List Text)
    → managed_block ip names ≡ join (block_lines ip names) (newline ∷ [])
unfolding managed_block
managed_block-join ip names = sym (
    join-cons begin_marker (map (entry ip) names ++ end_marker ∷ [] ∷ []) (newline ∷ [])
      (rest_ne_nil (map (entry ip) names) end_marker)
    ∙ ap (λ t. begin_marker ++ newline ∷ t) (join-entries ip names))

pub All-append : (P : Text → Type 0) (xs ys : List Text) → All P xs → All P ys → All P (xs ++ ys)
All-append P [] ys h k = k
All-append P (x ∷ xs) ys (p, h) k = (p, All-append P xs ys h k)

module _ (ip : Text) (names : List Text) (can : CanManage ip names) where
  pub split-managed_block : split (managed_block ip names) newline ≡ block_lines ip names
  split-managed_block =
      ap (λ t. split t newline) (managed_block-join ip names)
      ∙ split-join begin_marker (map (entry ip) names ++ end_marker ∷ [] ∷ []) (
        begin_reads.1,
        All-append OneLine (map (entry ip) names) (end_marker ∷ [] ∷ []) can.entries_lines
            (end_reads.2, (tt, tt)),
      )

  strip-block_lines : strip_lines false (block_lines ip names) ≡ [] ∷ []
  unfolding strip_lines
  strip-block_lines = rw begin_reads.0 (
      strip_lines-hidden (map (entry ip) names) (end_marker ∷ [] ∷ []) can.entries_plain
      ∙ rw (end_reads.0, end_reads.1, empty_plain.0, empty_plain.1) refl)

  pub split-enabled :
      (raw : Text)
      → split (enabled ip names raw) newline ≡ split (foreign raw) newline ++ block_lines ip names
  unfolding enabled
  split-enabled raw =
      ap (λ t. split t newline) (append_assoc (foreign raw) (newline ∷ []) (managed_block ip names))
      ∙ split-append (foreign raw) (managed_block ip names)
      ∙ ap (λ ls. split (foreign raw) newline ++ ls) split-managed_block

  strip_block-enabled :
      (raw : Text) → strip_block (enabled ip names raw) ≡ foreign raw ++ newline ∷ []
  unfolding strip_block
  strip_block-enabled raw =
      ap (λ ls. join (strip_lines false ls) (newline ∷ [])) (split-enabled raw)
      ∙ ap (λ ls. join ls (newline ∷ []))
          (strip_lines-append (split (foreign raw) newline) (block_lines ip names)
              (foreign-Unmarked raw)
            ∙ ap (λ ls. split (foreign raw) newline ++ ls) strip-block_lines)
      ∙ join-append_nil (split (foreign raw) newline) (split-ne-nil (foreign raw) newline)
      ∙ ap (λ t. t ++ newline ∷ []) (join-split (foreign raw))

  -- Taking the block out again leaves the file that taking it out at once would have left: the
  -- lines of others, in their order, with one line break at the end.
  pub disabled-enabled : (raw : Text) → disabled (enabled ip names raw) ≡ disabled raw
  unfolding disabled
  disabled-enabled raw =
      ap (λ t. trim_newlines t ++ newline ∷ []) (strip_block-enabled raw)
      ∙ ap (λ t. t ++ newline ∷ [])
          (trim_newlines-append (foreign raw) ∙ trim_newlines_idem (strip_block raw))
