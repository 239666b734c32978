-- ===== src/Hosts/Redirect.antt =====
-- The address of the proxy is read back from the managed block.
use proxmox_license_proxy.Prelude.{
  Text, bytes, equal, has_prefix, fields, newline, split, join, All, true, false, none, some, List,
  [], ◌∷◌, ◌++◌, map, OneLine, split-join, ◌≡◌, ◌≢◌, refl, subst, ap, ◌∙◌, arith, if◌then◌else◌,
}
use mathlib.Core.List.{append-nil}
use proxmox_license_proxy.Hosts.{
  begin_marker, end_marker, entry, extract_lines, extract_block, enabled, first_address, address_of,
  or_next, redirect_ip,
}
use proxmox_license_proxy.Hosts.Block.{
  CanManage, Unmarked, block_lines, foreign, foreign-Unmarked, split-enabled, begin_reads,
  end_reads, All-append,
}
use proxmox_license_proxy.Prelude.Words.{
  IsWord, IsPrintable, trim_space-pair, fields-word, fields-pair,
}

extract_lines-append :
    (xs ys : List Text) → All Unmarked xs → extract_lines false (xs ++ ys) ≡ extract_lines false ys
unfolding extract_lines
extract_lines-append [] ys h = refl
extract_lines-append (x ∷ xs) ys ((b, e), h) = rw (b, e) (extract_lines-append xs ys h)

extract_lines-inside :
    (xs ys : List Text)
    → All Unmarked xs
    → extract_lines true (xs ++ ys) ≡ xs ++ extract_lines true ys
unfolding extract_lines
extract_lines-inside [] ys h = refl
extract_lines-inside (x ∷ xs) ys ((b, e), h) =
    rw (b, e) (ap (λ zs. x ∷ zs) (extract_lines-inside xs ys h))

-- An address as `Enable` is given one: a word that is no comment.
pub record IsAddress (ip : Text) : Type 0 where
  pub word : IsWord ip
  pub no_comment : has_prefix ip (bytes "#") ≡ false

printable-OneLine : (s t : Text) → All IsPrintable s → OneLine t → OneLine (s ++ t)
printable-OneLine [] t h k = k
printable-OneLine (a ∷ s) t (h, hs) k = (omega arith, printable-OneLine s t hs k)

entry-OneLine : (ip n : Text) → IsWord ip → IsWord n → OneLine (entry ip n)
entry-OneLine ip n i w =
    printable-OneLine ip (b' ' ∷ n) i.1
      (omega arith, subst OneLine (append-nil n) (printable-OneLine n [] w.1 tt))

not_comment :
    (s t m : Text) → s ≢ [] → has_prefix s (bytes "#") ≡ false → equal (s ++ t) (b'#' ∷ m) ≡ false
unfolding has_prefix equal
not_comment [] t m n h = absurd (n refl)
not_comment (a ∷ s) t m n h = ground arith

entry-Unmarked : (ip n : Text) → IsAddress ip → IsWord n → Unmarked (entry ip n)
entry-Unmarked ip n i w = (
  ap (λ t. equal t begin_marker) (trim_space-pair ip n i.word w)
      ∙ not_comment ip (b' ' ∷ n) (bytes " >>> pmox-proxy (managed) >>>") i.word.0 i.no_comment,
  ap (λ t. equal t end_marker) (trim_space-pair ip n i.word w)
      ∙ not_comment ip (b' ' ∷ n) (bytes " <<< pmox-proxy (managed) <<<") i.word.0 i.no_comment,
)

pub words-CanManage :
    (ip : Text) (names : List Text) → IsAddress ip → All IsWord names → CanManage ip names
words-CanManage ip names i w = record {
  entries_lines = lines names w;
  entries_plain = plain names w;
}
  where
    lines : (ns : List Text) → All IsWord ns → All OneLine (map (entry ip) ns)
    lines [] h = tt
    lines (n ∷ ns) (h, hs) = (entry-OneLine ip n i.word h, lines ns hs)

    plain : (ns : List Text) → All IsWord ns → All Unmarked (map (entry ip) ns)
    plain [] h = tt
    plain (n ∷ ns) (h, hs) = (entry-Unmarked ip n i h, plain ns hs)

comment_address : (fs : List Text) → address_of (bytes "#" ∷ fs) ≡ none
unfolding has_prefix
comment_address [] = refl
comment_address (f ∷ fs) = refl

begin_address : address_of (fields begin_marker) ≡ none
begin_address =
    ap address_of
      (fields-word (bytes "#") (bytes ">>> pmox-proxy (managed) >>>") (ground arith, omega arith))
    ∙ comment_address (fields (bytes ">>> pmox-proxy (managed) >>>"))

module _ (ip name : Text) (names : List Text) (i : IsAddress ip)
    (w : All IsWord (name ∷ names)) where
  can : CanManage ip (name ∷ names)
  can = words-CanManage ip (name ∷ names) i w

  -- The lines from the begin marker to the end marker.
  abbrev between : List Text
  between = begin_marker ∷ (map (entry ip) (name ∷ names) ++ end_marker ∷ [])

  extract-block_lines : extract_lines false (block_lines ip (name ∷ names)) ≡ between
  unfolding extract_lines
  extract-block_lines = rw begin_reads.0 (
      ap (λ ls. begin_marker ∷ ls)
        (extract_lines-inside (map (entry ip) (name ∷ names)) (end_marker ∷ [] ∷ [])
            can.entries_plain
          ∙ rw (end_reads.0, end_reads.1) refl))

  extract_block-enabled :
      (raw : Text) → extract_block (enabled ip (name ∷ names) raw) ≡ join between (newline ∷ [])
  unfolding extract_block
  extract_block-enabled raw =
      ap (λ ls. join (extract_lines false ls) (newline ∷ []))
        (split-enabled ip (name ∷ names) can raw)
      ∙ ap (λ ls. join ls (newline ∷ []))
          (extract_lines-append (split (foreign raw) newline) (block_lines ip (name ∷ names))
              (foreign-Unmarked raw)
            ∙ extract-block_lines)

  first_address-between : first_address between ≡ some ip
  unfolding first_address
  first_address-between = rw (begin_address) (
      ap (λ fs. or_next (address_of fs) (first_address (map (entry ip) names ++ end_marker ∷ [])))
        (fields-pair ip name i.word w.0)
      ∙ rw i.no_comment refl)

  -- The lines of the block come back one by one.
  split-between : split (join between (newline ∷ [])) newline ≡ between
  split-between = split-join begin_marker (map (entry ip) (name ∷ names) ++ end_marker ∷ []) (
    begin_reads.1,
    All-append OneLine (map (entry ip) (name ∷ names)) (end_marker ∷ []) can.entries_lines
        (end_reads.2, tt),
  )

  between-given : equal (join between (newline ∷ [])) [] ≡ false
  unfolding join equal
  between-given = refl

  -- What `Enable` writes of an address and at least one name is what `RedirectIP` reads back.
  pub redirect_ip-enabled : (raw : Text) → redirect_ip (enabled ip (name ∷ names) raw) ≡ some ip
  unfolding redirect_ip
  redirect_ip-enabled raw =
      ap (λ block. if equal block [] then none else first_address (split block newline))
        (extract_block-enabled raw)
      ∙ rw (between-given, split-between) first_address-between
