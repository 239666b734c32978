-- ===== src/Hosts.antt =====
-- internal/hosts/hosts.go: the managed block of /etc/hosts.
pub mod Block
pub mod Redirect
pub mod File
use proxmox_license_proxy.Prelude.{
  ℕ, ltb, Text, bytes, equal, has_prefix, trim_space, trim_newlines, newline, fields, split, join,
  length, not, ◌&&◌, Bool, true, false, Option, none, some, List, [], ◌∷◌, ◌++◌, map, if◌then◌else◌,
}

abbrev pub begin_marker : Text
begin_marker = bytes "# >>> pmox-proxy (managed) >>>"

abbrev pub end_marker : Text
end_marker = bytes "# <<< pmox-proxy (managed) <<<"

abbrev pub is_begin : Text → Bool
is_begin line = equal (trim_space line) begin_marker

abbrev pub is_end : Text → Bool
is_end line = equal (trim_space line) end_marker

-- A line of the block for one name.
abbrev pub entry : Text → Text → Text
entry ip name = ip ++ (bytes " " ++ name)

abbrev pub entry_lines : Text → List Text → Text
entry_lines ip [] = []
entry_lines ip (n ∷ ns) = entry ip n ++ newline ∷ entry_lines ip ns

unfoldable pub managed_block : Text → List Text → Text
managed_block ip names =
    begin_marker ++ newline ∷ (entry_lines ip names ++ (end_marker ++ newline ∷ []))

-- The loop of `stripBlock`: `in_block` is whether a begin marker was met after the last end marker.
unfoldable pub strip_lines : Bool → List Text → List Text
strip_lines in_block [] = []
strip_lines in_block (l ∷ ls) =
    let opened = strip_lines true ls in
    let closed = strip_lines false ls in
    let kept = if in_block then strip_lines in_block ls else l ∷ strip_lines in_block ls in
    if is_begin l then opened else if is_end l then closed else kept

unfoldable pub strip_block : Text → Text
strip_block content = join (strip_lines false (split content newline)) (newline ∷ [])

-- The loop of `extractBlock`, which ends at the first end marker, also outside a block.
unfoldable pub extract_lines : Bool → List Text → List Text
extract_lines in_block [] = []
extract_lines in_block (l ∷ ls) =
    let opened = l ∷ extract_lines true ls in
    let rest = if in_block then l ∷ extract_lines in_block ls else extract_lines in_block ls in
    if is_begin l then opened else if is_end l then l ∷ [] else rest

unfoldable pub extract_block : Text → Text
extract_block content = join (extract_lines false (split content newline)) (newline ∷ [])

-- The content that `Disable` and `Enable` write.
unfoldable pub disabled : Text → Text
disabled raw = trim_newlines (strip_block raw) ++ newline ∷ []

unfoldable pub enabled : Text → List Text → Text → Text
unfolding disabled managed_block
enabled ip names raw = disabled raw ++ managed_block ip names

-- The address of a line "<ip> <name>" that is no comment.
abbrev pub address_of : List Text → Option Text
address_of [] = none
address_of (f ∷ []) = none
address_of (f ∷ g ∷ fs) = if has_prefix f (bytes "#") then none else some f

abbrev pub or_next : Option Text → Option Text → Option Text
or_next none next = next
or_next (some a) next = some a

unfoldable pub first_address : List Text → Option Text
first_address [] = none
first_address (l ∷ ls) = or_next (address_of (fields l)) (first_address ls)

-- `RedirectIP` of a content, where `none` is the empty address.
unfoldable pub redirect_ip : Text → Option Text
unfolding extract_block first_address
redirect_ip content =
    let block = extract_block content in
    if equal block [] then none else first_address (split block newline)
