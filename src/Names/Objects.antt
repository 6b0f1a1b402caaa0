-- ===== src/Names/Objects.antt =====
-- `ObjectName` of zone/payload.go: the characters of its results, and zones that share one.
use mathlib.Core.List.{map-append}
use cert_manager_webhook_mij.Prelude.{
  ℕ, ◌≡◌, refl, ap, ◌≢◌, Bool, true, false, ◌&&◌, ◌||◌, arith, [], ◌∷◌, ◌++◌, map, Text, text_eq,
  trim_suffix, All, ◌==◌, Bool-cases, inl, inr, ◌⊎◌, ◌∙◌, text_eq_iff, has_prefix, if◌then◌else◌,
}
use cert_manager_webhook_mij.Names.{
  lower_rune, is_label_rune, label_rune, trim_left, trim_right, object_prefix, sanitized,
  object_name,
}

abbrev pub is_object_rune : ℕ → Bool
is_object_rune c = is_label_rune c || c == b'-'

-- The last character, `d` if there is none.
abbrev pub last_or : ℕ → Text → ℕ
last_or d [] = d
last_or d (c ∷ s) = last_or c s

abbrev pub OfRunes : Text → Type 0
OfRunes = All (λ c. is_object_rune c ≡ true)

All-append : (s t : Text) → OfRunes s → OfRunes t → OfRunes (s ++ t)
All-append [] t hs ht = ht
All-append (c ∷ s) t (hc, hs) ht = (hc, All-append s t hs ht)

map-label_rune-OfRunes : (s : Text) → OfRunes (map label_rune s)
unfolding label_rune
map-label_rune-OfRunes [] = tt
map-label_rune-OfRunes (c ∷ s) = (ground arith, map-label_rune-OfRunes s)

trim_left-OfRunes : (d : ℕ) (s : Text) → OfRunes s → OfRunes (trim_left d s)
unfolding trim_left
trim_left-OfRunes d [] h = tt
trim_left-OfRunes d (c ∷ s) (hc, hs) = elim (Bool-cases (c == d)) [
  | inl e ↦ rw e (trim_left-OfRunes d s hs)
  | inr e ↦ rw e (hc, hs)
]

trim_right-OfRunes : (d : ℕ) (s : Text) → OfRunes s → OfRunes (trim_right d s)
unfolding trim_right
trim_right-OfRunes d [] h = tt
trim_right-OfRunes d (c ∷ s) (hc, hs) = elim (Bool-cases (text_eq (trim_right d s) [] && c == d)) [
  | inl e ↦ rw e tt
  | inr e ↦ rw e (hc, trim_right-OfRunes d s hs)
]

sanitized-OfRunes : (zone : Text) → OfRunes (sanitized zone)
unfolding sanitized
sanitized-OfRunes zone =
    let s = map lower_rune (trim_suffix zone b'.') in
    trim_right-OfRunes b'-' _ (trim_left-OfRunes b'-' _ (map-label_rune-OfRunes s))

-- One step of `trim_right`, over the rest that is trimmed.
abbrev trimmed : ℕ → ℕ → Text → Text
trimmed d c rest = if text_eq rest [] && c == d then [] else c ∷ rest

last_or-trimmed :
    (d a c : ℕ) (rest : Text)
    → (rest ≢ [] → last_or c rest ≢ d)
    → trimmed d c rest ≢ []
    → last_or a (trimmed d c rest) ≢ d
unfolding text_eq
last_or-trimmed d a c [] ih h = ground arith
last_or-trimmed d a c (b ∷ rest) ih h = ih cc

-- What is left after trimming on the right does not end in the trimmed character.
last_or-trim_right : (d a : ℕ) (s : Text) → trim_right d s ≢ [] → last_or a (trim_right d s) ≢ d
unfolding trim_right
last_or-trim_right d a [] h = absurd (h refl)
last_or-trim_right d a (c ∷ s) h =
    last_or-trimmed d a c (trim_right d s) (last_or-trim_right d c s) h

last_or-append : (a c : ℕ) (s t : Text) → last_or a (s ++ c ∷ t) ≡ last_or c t
last_or-append a c [] t = refl
last_or-append a c (b ∷ s) t = last_or-append b c s t

OfRunes-last_or :
    (a : ℕ) (s : Text) → is_object_rune a ≡ true → OfRunes s → is_object_rune (last_or a s) ≡ true
OfRunes-last_or a [] h hs = h
OfRunes-last_or a (c ∷ s) h (hc, hs) = OfRunes-last_or c s hc hs

-- The end of a name whose sanitized zone is not empty is a letter or a digit.
last_or-sanitized :
    (a : ℕ) (zone : Text)
    → is_object_rune a ≡ true
    → sanitized zone ≢ []
    → is_label_rune (last_or a (sanitized zone)) ≡ true
last_or-sanitized a zone h some_left =
    let dashed : Text = map label_rune (map lower_rune (trim_suffix zone b'.')) in
    let no_dash : last_or a (sanitized zone) ≢ b'-' =
      unfold sanitized in last_or-trim_right b'-' a (trim_left b'-' dashed) some_left in
    ground (arith, OfRunes-last_or a (sanitized zone) h (sanitized-OfRunes zone), no_dash)

-- Nothing but dashes.
abbrev OfDashes : Text → Type 0
OfDashes = All (λ c. c ≡ b'-')

OfDashes-of_trim_right : (s : Text) → trim_right b'-' s ≡ [] → OfDashes s
unfolding trim_right
OfDashes-of_trim_right [] h = tt
OfDashes-of_trim_right (c ∷ s) h = elim (Bool-cases (text_eq (trim_right b'-' s) [] && c == b'-')) [
  | inl e ↦ (ground arith, OfDashes-of_trim_right s ((text_eq_iff _ _).0 (ground arith)))
  | inr e ↦ cc (rw e at h)
]

OfDashes-of_trim_left : (s : Text) → OfDashes (trim_left b'-' s) → OfDashes s
unfolding trim_left
OfDashes-of_trim_left [] h = tt
OfDashes-of_trim_left (c ∷ s) h = elim (Bool-cases (c == b'-')) [
  | inl e ↦ (ground arith, OfDashes-of_trim_left s (rw e at h))
  | inr e ↦ rw e at h
]

-- No letter and no digit.
abbrev pub IsPunctuation : Text → Type 0
IsPunctuation = All (λ c. is_label_rune (lower_rune c) ≡ false)

IsPunctuation-OfDashes : (s : Text) → OfDashes (map label_rune (map lower_rune s)) → IsPunctuation s
unfolding label_rune
IsPunctuation-OfDashes [] h = tt
IsPunctuation-OfDashes (c ∷ s) (hc, hs) = (ground arith, IsPunctuation-OfDashes s hs)

IsPunctuation-of_sanitized :
    (zone : Text) → sanitized zone ≡ [] → IsPunctuation (trim_suffix zone b'.')
unfolding sanitized
IsPunctuation-of_sanitized zone h =
    IsPunctuation-OfDashes (trim_suffix zone b'.')
      (OfDashes-of_trim_left _ (OfDashes-of_trim_right _ h))

last_or-object_name :
    (zone : Text) → sanitized zone ≢ [] → is_label_rune (last_or 0 (object_name zone)) ≡ true
unfolding object_name
last_or-object_name zone h = last_or-sanitized b'-' zone (unfold is_label_rune in refl) h

-- An object name holds only lower-case letters, digits and dashes, begins with the program's
-- prefix, and ends in a letter or a digit unless the zone holds no letter and no digit.
pub object_name-IsValid :
    (zone : Text)
    → OfRunes (object_name zone)
      × (has_prefix (object_name zone) object_prefix ≡ true)
      × ((is_label_rune (last_or 0 (object_name zone)) ≡ true)
          ⊎ IsPunctuation (trim_suffix zone b'.'))
object_name-IsValid zone = (
  unfold object_name is_label_rune in
      All-append object_prefix (sanitized zone) (ground arith) (sanitized-OfRunes zone),
  unfold object_name has_prefix in refl,
  elim (Bool-cases (text_eq (sanitized zone) [])) [
    | inl e ↦ inr (IsPunctuation-of_sanitized zone ((text_eq_iff _ _).0 e))
    | inr e ↦ inl (last_or-object_name zone (λ p. ground (arith, text_eq_iff (sanitized zone) [])))
  ],
)

trim_suffix-cons : (c d : ℕ) (s : Text) → s ≢ [] → trim_suffix (c ∷ s) d ≡ c ∷ trim_suffix s d
unfolding trim_suffix
trim_suffix-cons c d [] h = absurd (h refl)
trim_suffix-cons c d (b ∷ s) h = refl

trim_suffix_inside :
    (s t : Text) (c d : ℕ) → t ≢ [] → trim_suffix (s ++ c ∷ t) d ≡ s ++ c ∷ trim_suffix t d
trim_suffix_inside [] t c d h = trim_suffix-cons c d t h
trim_suffix_inside (b ∷ []) t c d h =
    rw (trim_suffix-cons b d (c ∷ t) cc) (ap (λ u. b ∷ u) (trim_suffix-cons c d t h))
trim_suffix_inside (b ∷ a ∷ s) t c d h =
    trim_suffix-cons b d (a ∷ s ++ c ∷ t) (cc)
    ∙ ap (λ u. b ∷ u) (trim_suffix_inside (a ∷ s) t c d h)

-- Zones that differ in one separator have one object name: a dot, a dash, or whatever else
-- `ObjectName` makes a dash of.
pub object_name_collision :
    (s t : Text) (c d : ℕ)
    → t ≢ []
    → is_label_rune (lower_rune c) ≡ false
    → is_label_rune (lower_rune d) ≡ false
    → object_name (s ++ c ∷ t) ≡ object_name (s ++ d ∷ t)
unfolding object_name label_rune
object_name_collision s t c d h hc hd = rw (
  trim_suffix_inside s t c b'.' h,
  trim_suffix_inside s t d b'.' h,
  map-append,
  map-append,
  map-append,
  map-append,
  hc,
  hd,
)
