-- ===== src/Prelude/Strings.antt =====
-- Text as its code points, with the functions of Go's package strings that the program calls.
use Prim.Native.Nat.{ℕ}
use Prim.Native.Char.{code}
use Prim.Native.String.{String}
use mathlib.Core.Path.{◌≡◌, refl, ap}
use mathlib.Core.Logic.{◌↔◌, inl, inr}
use mathlib.Core.Bool.{Bool, true, false, ◌&&◌}
use mathlib.Core.Option.{Option, none, some}
use mathlib.Core.List.{List, [], ◌∷◌, ◌++◌}
use native.Mathlib.Omega.{arith}
use cert_manager_webhook_mij.Prelude.Tests.{◌==◌, if◌then◌else◌, Bool-cases}

abbrev pub Text : Type 0
Text = List ℕ

-- The code points of a literal.
abbrev pub codes : String → Text
codes String.[] = []
codes (String.◌∷◌ c s) = code c ∷ codes s

unfoldable pub text_eq : Text → Text → Bool
text_eq [] [] = true
text_eq (a ∷ s) (b ∷ t) = a == b && text_eq s t
text_eq _ _ = false

pub text_eq_refl : (s : Text) → text_eq s s ≡ true
unfolding text_eq
text_eq_refl [] = refl
text_eq_refl (a ∷ s) = ground (arith, text_eq_refl s)

eq_of_text_eq : (s t : Text) → text_eq s t ≡ true → s ≡ t
unfolding text_eq
eq_of_text_eq [] [] h = refl
eq_of_text_eq [] (b ∷ t) h = cc
eq_of_text_eq (a ∷ s) [] h = cc
eq_of_text_eq (a ∷ s) (b ∷ t) h = ground (arith, eq_of_text_eq s t)

pub text_eq_iff : (s t : Text) → (text_eq s t ≡ true) ↔ (s ≡ t)
text_eq_iff s t = (eq_of_text_eq s t, λ e. cc (text_eq_refl s, e))

-- strings.HasPrefix
unfoldable pub has_prefix : Text → Text → Bool
has_prefix s [] = true
has_prefix [] (p ∷ ps) = false
has_prefix (c ∷ s) (p ∷ ps) = c == p && has_prefix s ps

-- The text behind a prefix.
unfoldable pub strip_prefix : Text → Text → Option Text
strip_prefix s [] = some s
strip_prefix [] (p ∷ ps) = none
strip_prefix (c ∷ s) (p ∷ ps) = let rest = strip_prefix s ps in if c == p then rest else none

-- strings.TrimPrefix
unfoldable pub trim_prefix : Text → Text → Text
unfolding strip_prefix
trim_prefix s p = elim (strip_prefix s p) [ none ↦ s | some rest ↦ rest ]

-- strings.HasSuffix: some tail of the text is the suffix.
unfoldable pub has_suffix : Text → Text → Bool
unfolding text_eq
has_suffix [] t = text_eq [] t
has_suffix (c ∷ s) t = let rest = has_suffix s t in if text_eq (c ∷ s) t then true else rest

-- strings.TrimSuffix with a suffix of one character: a last `c` is dropped, once.
unfoldable pub trim_suffix : Text → ℕ → Text
trim_suffix [] c = []
trim_suffix (a ∷ []) c = if a == c then [] else a ∷ []
trim_suffix (a ∷ b ∷ s) c = a ∷ trim_suffix (b ∷ s) c

pub trim_suffix-append : (s : Text) (c : ℕ) → trim_suffix (s ++ c ∷ []) c ≡ s
unfolding trim_suffix
trim_suffix-append [] c = ground arith
trim_suffix-append (a ∷ []) c = ap (λ t. a ∷ t) (trim_suffix-append [] c)
trim_suffix-append (a ∷ b ∷ s) c = ap (λ t. a ∷ t) (trim_suffix-append (b ∷ s) c)

pub has_suffix-append : (s t : Text) → has_suffix (s ++ t) t ≡ true
unfolding has_suffix
has_suffix-append [] [] = refl
has_suffix-append [] (c ∷ t) = ground (arith, text_eq_refl t)
has_suffix-append (a ∷ s) t = ground (arith, has_suffix-append s t)

-- A suffix is what is left behind some head.
pub has_suffix_split : (s t : Text) → has_suffix s t ≡ true → (head : Text) × (s ≡ head ++ t)
unfolding has_suffix
has_suffix_split [] t h = ([], eq_of_text_eq [] t h)
has_suffix_split (c ∷ s) t h = elim (Bool-cases (text_eq (c ∷ s) t)) [
  | inl whole ↦ ([], eq_of_text_eq (c ∷ s) t whole)
  | inr part ↦ let (head, e) = has_suffix_split s t (rw part at h) in (c ∷ head, ap (λ u. c ∷ u) e)
]

pub has_prefix-append : (s t p : Text) → has_prefix s p ≡ true → has_prefix (s ++ t) p ≡ true
unfolding has_prefix
has_prefix-append [] t [] h = ground arith
has_prefix-append [] t (a ∷ p) h = cc
has_prefix-append (c ∷ s) t [] h = refl
has_prefix-append (c ∷ s) t (a ∷ p) h = ground (arith, has_prefix-append s t p)
