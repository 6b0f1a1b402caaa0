-- ===== src/Names/Absolute.antt =====
-- `AbsoluteName` of zone/payload.go: every result ends in one dot, lies in the zone, and is a
-- fixed point.
use mathlib.Core.List.{append_assoc}
use cert_manager_webhook_mij.Prelude.{
  ◌≡◌, refl, inl, inr, true, false, ◌||◌, arith, [], ◌∷◌, ◌++◌, Text, codes, text_eq, text_eq_refl,
  has_suffix, has_prefix, has_prefix-append, has_suffix-append, trim_suffix, trim_suffix-append,
  Bool-cases, if◌then◌else◌, Bool,
}
use cert_manager_webhook_mij.Names.{absolute_name}

-- The result without its last dot, for a name and a zone without theirs.
stem : Text → Text → Text
stem n z =
    if text_eq n [] || text_eq n (codes "@")
    then z
    else if text_eq n z || has_suffix n (codes "." ++ z)
    then n
    else n ++ (codes "." ++ z)

absolute_name-eq-stem :
    (name zone : Text)
    → absolute_name name zone ≡ stem (trim_suffix name b'.') (trim_suffix zone b'.') ++ codes "."
unfolding absolute_name stem
absolute_name-eq-stem name zone =
    ground
      (arith, append_assoc (trim_suffix name b'.') (codes "." ++ trim_suffix zone b'.') (codes "."))

joined_not_at :
    (n z : Text) → text_eq n [] ≡ false → text_eq (n ++ (codes "." ++ z)) (codes "@") ≡ false
unfolding text_eq
joined_not_at [] z h = cc
joined_not_at (c ∷ []) z h = ground arith
joined_not_at (c ∷ d ∷ n) z h = ground arith

joined_not_nil : (n z : Text) → text_eq (n ++ (codes "." ++ z)) [] ≡ false
unfolding text_eq
joined_not_nil [] z = refl
joined_not_nil (c ∷ n) z = refl

stem_zone : (z : Text) → stem z z ≡ z
unfolding stem
stem_zone z = ground (arith, text_eq_refl z)

stem_joined :
    (n z : Text) → text_eq n [] ≡ false → stem (n ++ (codes "." ++ z)) z ≡ n ++ (codes "." ++ z)
unfolding stem
stem_joined n z h =
    ground (arith, joined_not_nil n z, joined_not_at n z h, has_suffix-append n (codes "." ++ z))

abbrev pub names_zone : Text → Bool
names_zone n = text_eq n [] || text_eq n (codes "@")

abbrev pub in_zone : Text → Text → Bool
in_zone n z = text_eq n z || has_suffix n (codes "." ++ z)

stem_of_zone : (n z : Text) → names_zone n ≡ true → stem n z ≡ z
unfolding stem
stem_of_zone n z h = rw h

stem_of_in_zone : (n z : Text) → names_zone n ≡ false → in_zone n z ≡ true → stem n z ≡ n
unfolding stem
stem_of_in_zone n z h k = rw (h, k)

stem_of_relative :
    (n z : Text) → names_zone n ≡ false → in_zone n z ≡ false → stem n z ≡ n ++ (codes "." ++ z)
unfolding stem
stem_of_relative n z h k = rw (h, k)

stem-InZone : (n z : Text) → in_zone (stem n z) z ≡ true
unfolding stem
stem-InZone n z = elim (Bool-cases (names_zone n)) [
  | inl top ↦ rw top (ground (arith, text_eq_refl z))
  | inr low ↦ elim (Bool-cases (in_zone n z)) [
    | inl inside ↦ rw (low, inside) inside
    | inr outside ↦ rw (low, outside) (ground (arith, has_suffix-append n (codes "." ++ z)))
  ]
]

stem_idem : (n z : Text) → stem (stem n z) z ≡ stem n z
stem_idem n z = elim (Bool-cases (names_zone n)) [
  | inl top ↦ rw (stem_of_zone n z top) (stem_zone z)
  | inr low ↦ elim (Bool-cases (in_zone n z)) [
    | inl inside ↦ rw (stem_of_in_zone n z low inside) (stem_of_in_zone n z low inside)
    | inr outside ↦ rw (stem_of_relative n z low outside) (stem_joined n z (ground arith))
  ]
]

-- Every name that comes out is one dot behind the zone itself or a name below it.
pub absolute_name-InZone :
    (name zone : Text)
    → (absolute_name name zone ≡ trim_suffix (absolute_name name zone) b'.' ++ codes ".")
      × (in_zone (trim_suffix (absolute_name name zone) b'.') (trim_suffix zone b'.') ≡ true)
absolute_name-InZone name zone =
    rw (absolute_name-eq-stem, trim_suffix-append)
      (refl, stem-InZone (trim_suffix name b'.') (trim_suffix zone b'.'))

-- Making an absolute name absolute again, in the same zone, changes nothing.
pub absolute_name_idem :
    (name zone : Text) → absolute_name (absolute_name name zone) zone ≡ absolute_name name zone
absolute_name_idem name zone = rw (
  absolute_name-eq-stem (absolute_name name zone),
  absolute_name-eq-stem name zone,
  trim_suffix-append,
  stem_idem,
)

-- A name with a label in front keeps it.
pub absolute_name-has_prefix :
    (name zone p : Text)
    → has_prefix (trim_suffix name b'.') p ≡ true
    → names_zone (trim_suffix name b'.') ≡ false
    → has_prefix (absolute_name name zone) p ≡ true
unfolding absolute_name
absolute_name-has_prefix name zone p h k =
    let n = trim_suffix name b'.' in
    let z = trim_suffix zone b'.' in
    ground (
      arith,
      has_prefix-append n (codes ".") p,
      has_prefix-append n (codes "." ++ z ++ codes ".") p,
    )
