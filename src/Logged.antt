-- ===== src/Logged.antt =====
-- Code that makes calls: a log of the calls so far, with the newest first, and an error or a value.
-- An answer may depend in any way on all that was called before.
use cert_manager_webhook_mij.Prelude.{List, ◌∷◌}
use cert_manager_webhook_mij.Failure.{Failure, Result, ok, err}

abbrev pub Logged {ℓ κ} : Type κ → Type ℓ → Type (ℓ ⊔ κ)
Logged Event A = List Event → Result A × List Event

module _ {ℓ κ} {Event : Type κ} {A : Type ℓ} where
  pub pure : A → Logged Event A
  pure a l = (ok a, l)

  pub raise : Failure → Logged Event A
  raise e l = (err e, l)

  -- A call with its answer, which goes into the log.
  pub call : (List Event → Result A) → (Result A → Event) → Logged Event A
  call answer event l = let r = answer l in (r, event r ∷ l)

  -- A call that cannot fail.
  pub tell : (List Event → A) → (A → Event) → Logged Event A
  tell answer event l = let a = answer l in (ok a, event a ∷ l)

  -- The error as a value, for code that goes on after it.
  pub try : Logged Event A → Logged Event (Result A)
  try m l = let (r, l') = m l in (ok r, l')

  -- `defer f()`: the call is made whatever became of the body.
  pub defer : Event → Logged Event A → Logged Event A
  defer e m l = let (r, l') = m l in (r, e ∷ l')

module _ {ℓ κ ι} {Event : Type ι} {A : Type ℓ} {B : Type κ} where
  abbrev pub continue : Result A → (A → Logged Event B) → Logged Event B
  continue (ok a) f l = f a l
  continue (err e) f l = (err e, l)

  infixl 10 ◌>>=◌
  -- Opening this opens the other actions too.
  unfoldable pub ◌>>=◌ : Logged Event A → (A → Logged Event B) → Logged Event B
  unfolding pure raise call tell try defer
  ◌>>=◌ m f l = let (r, l') = m l in continue r f l'

infixl 10 ◌>>◌
abbrev pub ◌>>◌ {ℓ ι} :
    {Event : Type ι} {B : Type ℓ} → Logged Event (Unit {0}) → Logged Event B → Logged Event B
m >> k = m >>= λ _. k
