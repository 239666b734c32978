-- ===== src/Subscription/Response/Escape.antt =====
-- What a client reads back from the document.
use mathlib.Core.List.{append_assoc}
use proxmox_license_proxy.Prelude.{
  ℕ, Text, bytes, ◌&&◌, [], ◌∷◌, ◌++◌, ◌≡◌, ◌≢◌, refl, ap, ◌∙◌, arith, ◌==◌, if◌then◌else◌, All,
  length, drop, drop-append,
}
use proxmox_license_proxy.Subscription.Response.{
  replace_ampersands, replace_angles, escape, write_tag,
}

-- The value of an XML text: the entities &lt; and &amp; become the bytes that they stand for.

pub unescape : Text → Text
unescape (a ∷ b ∷ c ∷ d ∷ e ∷ s) =
    let angle = b'<' ∷ unescape (e ∷ s) in
    let ampersand = b'&' ∷ unescape s in
    let plain = a ∷ unescape (b ∷ c ∷ d ∷ e ∷ s) in
    if a == b'&' && b == b'l' && c == b't' && d == b';'
    then angle
    else if a == b'&' && b == b'a' && c == b'm' && d == b'p' && e == b';'
    then ampersand
    else plain
unescape (a ∷ b ∷ c ∷ d ∷ []) =
    if a == b'&' && b == b'l' && c == b't' && d == b';' then b'<' ∷ [] else a ∷ b ∷ c ∷ d ∷ []
unescape s = s

-- The bytes before the next '<', which ends the text of a tag.
pub until_angle : Text → Text
until_angle [] = []
until_angle (c ∷ s) = let rest = until_angle s in if c == b'<' then [] else c ∷ rest

-- What `escape` puts in front of the escaped rest for one byte.
abbrev escape_byte : ℕ → Text → Text
escape_byte c rest =
    if c == b'&'
    then bytes "&amp;" ++ rest
    else if c == b'<'
    then bytes "&lt;" ++ rest
    else c ∷ rest

escape-cons : (c : ℕ) (s : Text) → escape (c ∷ s) ≡ escape_byte c (escape s)
unfolding escape replace_ampersands replace_angles
escape-cons c s = ground arith

unescape_plain : (c : ℕ) (s : Text) → c ≢ b'&' → unescape (c ∷ s) ≡ c ∷ unescape s
unfolding unescape
unescape_plain c [] h = refl
unescape_plain c (x ∷ []) h = refl
unescape_plain c (x ∷ y ∷ []) h = refl
unescape_plain c (x ∷ y ∷ z ∷ []) h = ground arith
unescape_plain c (x ∷ y ∷ z ∷ w ∷ s) h = ground arith

unescape_angle : (s : Text) → unescape (bytes "&lt;" ++ s) ≡ b'<' ∷ unescape s
unfolding unescape
unescape_angle [] = refl
unescape_angle (c ∷ s) = refl

unescape_ampersand : (s : Text) → unescape (bytes "&amp;" ++ s) ≡ b'&' ∷ unescape s
unfolding unescape
unescape_ampersand s = refl

unescape-escape_byte : (c : ℕ) (s : Text) → unescape (escape_byte c s) ≡ c ∷ unescape s
unescape-escape_byte c s =
    ground (arith, unescape_ampersand s, unescape_angle s, unescape_plain c s)

unescape-escape : (value : Text) → unescape (escape value) ≡ value
unescape-escape [] = unfold escape replace_ampersands replace_angles unescape in refl
unescape-escape (c ∷ s) =
    rw escape-cons (unescape-escape_byte c (escape s) ∙ ap (◌∷◌ c) (unescape-escape s))

abbrev NoAngle : Text → Type 0
NoAngle = All (λ c. c ≢ b'<')

NoAngle-escape_byte : (c : ℕ) (s : Text) → NoAngle s → NoAngle (escape_byte c s)
NoAngle-escape_byte c s h = ground arith

NoAngle-escape : (value : Text) → NoAngle (escape value)
NoAngle-escape [] = unfold escape replace_ampersands replace_angles in tt
NoAngle-escape (c ∷ s) = rw escape-cons (NoAngle-escape_byte c (escape s) (NoAngle-escape s))

until_angle-append : (s rest : Text) → NoAngle s → until_angle (s ++ b'<' ∷ rest) ≡ s
unfolding until_angle
until_angle-append [] rest h = refl
until_angle-append (c ∷ s) rest (p, h) = ground (arith, until_angle-append s rest h)

abbrev opening : Text → Text
opening tag = bytes "<" ++ (tag ++ bytes ">")

-- The text of the tag that a document begins with, as a client finds it: behind `<tag>`, up to the
-- next '<', with the entities decoded.
abbrev pub tag_value : Text → Text → Text
tag_value tag document = unescape (until_angle (drop (length (opening tag)) document))

write_tag-split :
    (tag value rest : Text)
    → write_tag tag value ++ rest
      ≡ opening tag ++ (escape value ++ b'<' ∷ (bytes "/" ++ (tag ++ (bytes ">\n" ++ rest))))
unfolding write_tag
write_tag-split tag value rest = simp append_assoc

-- Whatever bytes a value holds, a client that looks for the end of a tag at the next '<' reads the
-- value back from what writeTag writes, and what follows the tag does not matter.
pub tag_value-write_tag :
    (tag value rest : Text) → tag_value tag (write_tag tag value ++ rest) ≡ value
tag_value-write_tag tag value rest =
    ap (tag_value tag) (write_tag-split tag value rest)
    ∙ ap (λ s. unescape (until_angle s)) (drop-append (opening tag) _)
    ∙ ap unescape (until_angle-append (escape value) _ (NoAngle-escape value))
    ∙ unescape-escape value
