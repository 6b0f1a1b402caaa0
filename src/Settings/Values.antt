-- ===== src/Settings/Values.antt =====
-- settings.go: what one variable says.
use cert_manager_webhook_mij.Prelude.{
  true, [], ◌∷◌, Text, text_eq_iff, Bool-cases, ◌≡◌, ◌≢◌, ◌↔◌, ◌⊎◌, inl, inr, refl, arith,
}
use cert_manager_webhook_mij.Failure.{Result, ok, ok_injective}
use cert_manager_webhook_mij.Settings.{
  serial_check_best_effort, serial_check_required, serial_check_off, one_of, env_value,
  parse_serial_check,
}

-- The value that a variable stands for: the default where it is empty, and else what it says.
pub data Gives {ℓ} {A : Type ℓ} (parse : Text → Result A) (def : A) (raw : Text) (v : A)
    : Type ℓ where
  default : raw ≡ [] → v ≡ def → Gives parse def raw v
  written : raw ≢ [] → parse raw ≡ ok v → Gives parse def raw v

-- The checks of the serial that the program knows.
pub data IsSerialCheck (v : Text) : Type 0 where
  best_effort : v ≡ serial_check_best_effort → IsSerialCheck v
  required : v ≡ serial_check_required → IsSerialCheck v
  off : v ≡ serial_check_off → IsSerialCheck v

pub env_value-Gives {ℓ} :
    {A : Type ℓ} (parse : Text → Result A) (def : A) (raw : Text) (v : A)
    → env_value parse def raw ≡ ok v
    → Gives parse def raw v
unfolding env_value
env_value-Gives parse def [] v h = default refl (ground (arith, h))
env_value-Gives parse def (c ∷ raw) v h = written (λ e. ground (arith, e)) h

pub Gives-env_value {ℓ} :
    {A : Type ℓ} (parse : Text → Result A) (def : A) (raw : Text) (v : A)
    → Gives parse def raw v
    → env_value parse def raw ≡ ok v
unfolding env_value
Gives-env_value parse def [] v (default e e') = rw e' refl
Gives-env_value parse def [] v (written some_raw h) = absurd (some_raw refl)
Gives-env_value parse def (c ∷ raw) v (default e e') = ground (arith, e)
Gives-env_value parse def (c ∷ raw) v (written some_raw h) = h

one_of_cases : (v a b c : Text) → one_of v (a ∷ b ∷ c ∷ []) ≡ true → (v ≡ a) ⊎ ((v ≡ b) ⊎ (v ≡ c))
one_of_cases v a b c h =
    ground (arith, (text_eq_iff v a).0, (text_eq_iff v b).0, (text_eq_iff v c).0)

known_check :
    (v : Text)
    → one_of v (serial_check_best_effort ∷ serial_check_required ∷ serial_check_off ∷ []) ≡ true
    → IsSerialCheck v
known_check v h = elim (one_of_cases v _ _ _ h) [
  | inl e ↦ best_effort e
  | inr other ↦ elim other [ inl e ↦ required e | inr e ↦ off e ]
]

known_raw : (raw v : Text) → parse_serial_check raw ≡ ok v → (raw ≡ v) × IsSerialCheck v
unfolding parse_serial_check
known_raw raw v h =
    elim (Bool-cases
      (one_of raw (serial_check_best_effort ∷ serial_check_required ∷ serial_check_off ∷ []))) [
        | inl known ↦
            let same : raw ≡ v = ok_injective raw v (rw known at h) in
            (same, rw (← same) (known_check raw known))
        | inr unknown ↦ ground (arith, h)
      ]

pub known_not_empty : (v : Text) → IsSerialCheck v → v ≢ []
known_not_empty v (best_effort e) h = ground (arith, e, h)
known_not_empty v (required e) h = ground (arith, e, h)
known_not_empty v (off e) h = ground (arith, e, h)

pub check_lem : (raw v : Text) → parse_serial_check raw ≡ ok v ↔ (raw ≡ v) × IsSerialCheck v
unfolding parse_serial_check
check_lem raw v = (
  known_raw raw v,
  (λ (same, known). elim known [
    | best_effort e ↦ rw (same, e) refl
    | required e ↦ rw (same, e) refl
    | off e ↦ rw (same, e) refl
  ]),
)
