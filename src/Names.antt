-- ===== src/Names.antt =====
-- zone/payload.go: the absolute names of records, and the names of the Kubernetes objects of a zone.
pub mod Absolute
pub mod Objects
use cert_manager_webhook_mij.Prelude.{
  ℕ, ◌+◌, Bool, true, ◌&&◌, ◌||◌, [], ◌∷◌, ◌++◌, map, Text, codes, text_eq, has_suffix, trim_suffix,
  leb, ◌==◌, if◌then◌else◌,
}

-- `AbsoluteName`
unfoldable pub absolute_name : Text → Text → Text
absolute_name name zone =
    let n = trim_suffix name b'.' in
    let z = trim_suffix zone b'.' in
    if text_eq n [] || text_eq n (codes "@")
    then z ++ codes "."
    else if text_eq n z || has_suffix n (codes "." ++ z)
    then n ++ codes "."
    else n ++ (codes "." ++ (z ++ codes "."))

-- `strings.ToLower` on one code point. U+0130 and U+212A are the two beyond ASCII that lower to
-- an ASCII letter; every other one lowers to a code point beyond ASCII, and `label_rune` makes the
-- same dash of all of those, so they are left as they are.
unfoldable pub lower_rune : ℕ → ℕ
lower_rune c =
    if leb b'A' c && leb c b'Z'
    then c + 32
    else if c == 0x130
    then b'i'
    else if c == 0x212a
    then b'k'
    else c

unfoldable pub is_label_rune : ℕ → Bool
is_label_rune c = (leb b'a' c && leb c b'z') || (leb b'0' c && leb c b'9')

-- The body of the loop of `ObjectName`.
unfoldable pub label_rune : ℕ → ℕ
unfolding is_label_rune
label_rune c = if is_label_rune c then c else b'-'

-- `strings.Trim` with a cutset of one character.
unfoldable pub trim_left : ℕ → Text → Text
trim_left d [] = []
trim_left d (c ∷ s) = let rest = trim_left d s in if c == d then rest else c ∷ s

unfoldable pub trim_right : ℕ → Text → Text
trim_right d [] = []
trim_right d (c ∷ s) =
    let rest = trim_right d s in if text_eq rest [] && c == d then [] else c ∷ rest

abbrev pub object_prefix : Text
object_prefix = codes "mijn-host-zone-"

-- The zone as the labels and the object names spell it.
unfoldable pub sanitized : Text → Text
sanitized zone =
    trim_right b'-' (trim_left b'-' (map label_rune (map lower_rune (trim_suffix zone b'.'))))

-- `ObjectName`
unfoldable pub object_name : Text → Text
unfolding sanitized
object_name zone = object_prefix ++ sanitized zone

abbrev pub placeholder_label : Text
placeholder_label = codes "_placeholder"
