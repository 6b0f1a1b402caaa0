-- ===== src/Lock/Tokens.antt =====
-- zone/lock.go: the token of a call of `Acquire`, and who can have it. A byte is a number below 256.
use mathlib.Core.Path.{subst}
use cert_manager_webhook_mij.Prelude.{
  Bool-cases, inl, inr, All-middle, ℕ, zero, suc, ◌+◌, ◌-◌, ◌*◌, ◌/◌, ◌%◌, ◌<◌, ◌≤◌, length, ◌^◌,
  List, [], ◌∷◌, ◌++◌, All, Text, ltb, if◌then◌else◌, ◌≡◌, ◌≢◌, refl, sym, ap, ◌∙◌, arith,
}
use cert_manager_webhook_mij.Failure.{Result, ok, err}
use cert_manager_webhook_mij.Lock.{holder_of}

-- A digit of `hex.EncodeToString`.
unfoldable hex_digit : ℕ → ℕ
hex_digit n = if ltb n 10 then 48 + n else 87 + n

-- `hex.EncodeToString`
unfoldable hex : List ℕ → Text
unfolding hex_digit
hex [] = []
hex (b ∷ bs) = hex_digit (b / 16) ∷ hex_digit (b % 16) ∷ hex bs

-- `%d` of a number, with a bound on its digits.
unfoldable decimal_within : ℕ → ℕ → Text
decimal_within zero n = []
decimal_within (suc fuel) n =
    let front = decimal_within fuel (n / 10) in
    (if ltb n 10 then [] else front) ++ (48 + n % 10) ∷ []

unfoldable decimal : ℕ → Text
unfolding decimal_within
decimal n = decimal_within (suc n) n

-- `randomToken`, of the answer of `rand.Read` and the time.
unfoldable pub random_token : Result (List ℕ) → ℕ → Text
unfolding hex decimal
random_token (ok bytes) now = hex bytes
random_token (err e) now = decimal now

unfoldable pub IsByte : ℕ → Type 0
IsByte b = b < 256

hex_digit_injective : (m n : ℕ) → m < 16 → n < 16 → hex_digit m ≡ hex_digit n → m ≡ n
unfolding hex_digit
hex_digit_injective m n h k e = ground (arith, h, k, e)

hex_injective : (bs cs : List ℕ) → All IsByte bs → All IsByte cs → hex bs ≡ hex cs → bs ≡ cs
unfolding hex IsByte
hex_injective [] [] h k e = refl
hex_injective [] (c ∷ cs) h k e = ground (arith, e)
hex_injective (b ∷ bs) [] h k e = ground (arith, e)
hex_injective (b ∷ bs) (c ∷ cs) h k e =
    let high =
      hex_digit_injective (b / 16) (c / 16) (omega (arith, h.0)) (omega (arith, k.0)) (cc e) in
    let low = hex_digit_injective (b % 16) (c % 16) (omega arith) (omega arith) (cc e) in
    let same : b ≡ c = omega (arith, high, low) in cc (same, hex_injective bs cs h.1 k.1 (cc e))

-- The number that digits stand for.
abbrev read_from : ℕ → Text → ℕ
read_from n [] = n
read_from n (c ∷ t) = read_from (n * 10 + (c - 48)) t

read_from-append :
    (n : ℕ) (s : Text) (c : ℕ) → read_from n (s ++ c ∷ []) ≡ read_from n s * 10 + (c - 48)
read_from-append n [] c = refl
read_from-append n (d ∷ s) c = read_from-append (n * 10 + (d - 48)) s c

-- As many digits as the number is large are enough.
read_from-decimal_within : (fuel n : ℕ) → n < fuel → read_from 0 (decimal_within fuel n) ≡ n
unfolding decimal_within
read_from-decimal_within zero n h = omega (arith, h)
read_from-decimal_within (suc fuel) n h = elim (Bool-cases (ltb n 10)) [
  | inl small ↦ rw small (ground (arith, small))
  | inr large ↦
      let front : read_from 0 (decimal_within fuel (n / 10)) ≡ n / 10 =
        read_from-decimal_within fuel (n / 10) (ground (arith, h, large)) in
      rw (large, read_from-append 0 (decimal_within fuel (n / 10)) (48 + n % 10), front)
        (omega arith)
]

read_from-decimal : (n : ℕ) → read_from 0 (decimal n) ≡ n
unfolding decimal
read_from-decimal n = read_from-decimal_within (suc n) n (omega arith)

-- Tokens have no separator.
IsDigits : Text → Type 0
IsDigits t = All (λ c. 48 ≤ c) t

All-append_one : (s : Text) (c : ℕ) → IsDigits s → 48 ≤ c → IsDigits (s ++ c ∷ [])
unfolding IsDigits
All-append_one [] c h k = (k, tt)
All-append_one (d ∷ s) c h k = (h.0, All-append_one s c h.1 k)

hex-IsDigits : (bs : List ℕ) → IsDigits (hex bs)
unfolding hex hex_digit IsDigits
hex-IsDigits [] = tt
hex-IsDigits (b ∷ bs) = (ground arith, (ground arith, hex-IsDigits bs))

decimal_within-IsDigits : (fuel n : ℕ) → IsDigits (decimal_within fuel n)
unfolding decimal_within IsDigits
decimal_within-IsDigits zero n = tt
decimal_within-IsDigits (suc fuel) n =
    All-append_one (if ltb n 10 then [] else decimal_within fuel (n / 10)) (48 + n % 10)
      (elim (Bool-cases (ltb n 10)) [
        | inl small ↦ rw small tt
        | inr large ↦ rw large (decimal_within-IsDigits fuel (n / 10))
      ])
      (omega arith)

-- A separator is no digit.
no_separator : (s t u : Text) → IsDigits u → u ≢ s ++ (47 ∷ t)
unfolding IsDigits
no_separator s t u h e =
    let both : IsDigits (s ++ (47 ∷ t)) = subst IsDigits e h in
    omega (arith, (All-middle (λ c. 48 ≤ c) s 47 t both).0)

-- The text before the last separator, and the digits behind it.
split_holder :
    (s t s' t' : Text)
    → IsDigits t
    → IsDigits t'
    → holder_of s t ≡ holder_of s' t'
    → (s ≡ s') × (t ≡ t')
unfolding IsDigits
split_holder [] t [] t' h h' e = (refl, cc e)
split_holder [] t (c ∷ s') t' h h' e = absurd (no_separator s' t' t h (cc e))
split_holder (c ∷ s) t [] t' h h' e = absurd (no_separator s t t' h' (cc e))
split_holder (c ∷ s) t (d ∷ s') t' h h' e =
    let (same, tokens) = split_holder s t s' t' h h' (cc e) in
    let first : c ≡ d = cc e in (cc (first, same), tokens)

-- Digits that are decimal.
AreDecimal : Text → Type 0
AreDecimal t = All (λ c. (48 ≤ c) × (c ≤ 57)) t

AreDecimal-append_one :
    (s : Text) (c : ℕ) → AreDecimal s → 48 ≤ c → c ≤ 57 → AreDecimal (s ++ c ∷ [])
unfolding AreDecimal
AreDecimal-append_one [] c h low high = ((low, high), tt)
AreDecimal-append_one (d ∷ s) c h low high = (h.0, AreDecimal-append_one s c h.1 low high)

decimal_within-AreDecimal : (fuel n : ℕ) → AreDecimal (decimal_within fuel n)
unfolding decimal_within AreDecimal
decimal_within-AreDecimal zero n = tt
decimal_within-AreDecimal (suc fuel) n =
    AreDecimal-append_one (if ltb n 10 then [] else decimal_within fuel (n / 10)) (48 + n % 10)
      (elim (Bool-cases (ltb n 10)) [
        | inl small ↦ rw small tt
        | inr large ↦ rw large (decimal_within-AreDecimal fuel (n / 10))
      ])
      (omega arith) (omega arith)

-- The largest number of that many digits behind `n`.
abbrev largest : ℕ → ℕ → ℕ
largest zero n = n
largest (suc k) n = largest k (n * 10 + 9)

largest_mono : (k m n : ℕ) → m ≤ n → largest k m ≤ largest k n
largest_mono zero m n h = h
largest_mono (suc k) m n h = largest_mono k (m * 10 + 9) (n * 10 + 9) (omega (arith, h))

read_from-le : (n : ℕ) (t : Text) → AreDecimal t → read_from n t ≤ largest (length t) n
unfolding AreDecimal
read_from-le n [] h = omega arith
read_from-le n (c ∷ t) h = omega (
  arith,
  read_from-le (n * 10 + (c - 48)) t h.1,
  largest_mono (length t) (n * 10 + (c - 48)) (n * 10 + 9) (omega (arith, h.0)),
)

length-hex : (bs : List ℕ) → length (hex bs) ≡ 2 * length bs
unfolding hex
length-hex [] = refl
length-hex (b ∷ bs) = omega (arith, length-hex bs)

-- The nanoseconds of a time behind the first 17 minutes of 1970 have more digits than a token of six bytes.
decimal-ne-hex : (now : ℕ) (bs : List ℕ) → length bs ≡ 6 → 10 ^ 12 ≤ now → decimal now ≢ hex bs
unfolding decimal
decimal-ne-hex now bs six late same =
    let digits : length (decimal now) ≡ 12 = omega (arith, ap length same, length-hex bs, six) in
    let few : read_from 0 (decimal now) ≤ largest 12 0 =
      rw digits at (read_from-le 0 (decimal now) (decimal_within-AreDecimal (suc now) now)) in
    omega (arith, few, read_from-decimal now, late)

random_token-IsDigits : (r : Result (List ℕ)) (now : ℕ) → IsDigits (random_token r now)
unfolding random_token decimal
random_token-IsDigits (ok bytes) now = hex-IsDigits bytes
random_token-IsDigits (err e) now = decimal_within-IsDigits (suc now) now

-- What two tokens were made of: the same random bytes, or the same time where there were none.
abbrev pub Same : (r r' : Result (List ℕ)) → (now now' : ℕ) → Type 0
Same (ok bytes) (ok bytes') now now' = bytes ≡ bytes'
Same (err e) (err f) now now' = now ≡ now'
Same r r' now now' = ⊥

-- What `rand.Read` fills in: six bytes.
abbrev pub AreBytes : Result (List ℕ) → Type 0
AreBytes (ok bytes) = All IsByte bytes × (length bytes ≡ 6)
AreBytes (err e) = Unit

random_token_injective :
    (r r' : Result (List ℕ)) (now now' : ℕ)
    → AreBytes r
    → AreBytes r'
    → 10 ^ 12 ≤ now
    → 10 ^ 12 ≤ now'
    → random_token r now ≡ random_token r' now'
    → Same r r' now now'
unfolding random_token
random_token_injective (ok bs) (ok cs) now now' h h' late late' e = hex_injective bs cs h.0 h'.0 e
random_token_injective (err e) (err f) now now' h h' late late' same =
    sym (read_from-decimal now) ∙ (ap (read_from 0) same ∙ read_from-decimal now')
random_token_injective (ok bs) (err f) now now' h h' late late' e =
    absurd (decimal-ne-hex now' bs h.1 late' (sym e))
random_token_injective (err e) (ok cs) now now' h h' late late' same =
    absurd (decimal-ne-hex now cs h'.1 late same)

-- Two calls of `Acquire` have one holder only if their pods have one name, and their tokens were made
-- of the same bytes, or of the same time where neither had random bytes. Random bytes are six, and
-- the clock shows 10^12 nanoseconds or more, which are the first 17 minutes of 1970.
pub holder_of_injective :
    (identity identity' : Text) (r r' : Result (List ℕ)) (now now' : ℕ)
    → AreBytes r
    → AreBytes r'
    → 10 ^ 12 ≤ now
    → 10 ^ 12 ≤ now'
    → holder_of identity (random_token r now) ≡ holder_of identity' (random_token r' now')
    → (identity ≡ identity') × Same r r' now now'
holder_of_injective identity identity' r r' now now' h h' late late' e =
    let (pods, tokens) =
      split_holder identity (random_token r now) identity' (random_token r' now')
        (random_token-IsDigits r now) (random_token-IsDigits r' now') e in
    (pods, random_token_injective r r' now now' h h' late late' tokens)
