-- ===== src/World/Triples.antt =====
-- Triples for actions: from logs with `P` the action ends with `Q` of its value and the log, or
-- with `E` of the log if it fails.
use mathlib.Core.Path.{subst}
use cert_manager_webhook_mij.Prelude.{Bool, true, false, ◌≡◌, refl, sym, if◌then◌else◌, ◌∷◌, arith}
use cert_manager_webhook_mij.Failure.{Failure, Result, ok, err, ok_injective}
use cert_manager_webhook_mij.World.{
  Event, Log, Action, pure, raise, call, tell, try, defer, continue, ◌>>=◌,
}

abbrev pub Ends {ℓ} : {A : Type ℓ} → (A → Log → Type 0) → (Log → Type 0) → Result A × Log → Type 0
Ends Q E (ok a, l) = Q a l
Ends Q E (err e, l) = E l

-- An ending that is known to be without an error.
pub Ends-ok {ℓ} :
    {A : Type ℓ} (G : A → Type 0) (S E : Log → Type 0) (out : Result A × Log) (a : A)
    → out.0 ≡ ok a
    → G a
    → S out.1
    → Ends (λ b l. G b × S l) E out
Ends-ok G S E (ok b, l) a e good h = (subst G (sym (ok_injective b a e)) good, h)
Ends-ok G S E (err f, l) a e good h = ground (arith, e)

pub record Triple {ℓ} {A : Type ℓ} (P : Log → Type 0) (m : Action A) (Q : A → Log → Type 0)
    (E : Log → Type 0) : Type ℓ where
  pub at : (l : Log) → P l → Ends Q E (m l)

module _ {ℓ} {A : Type ℓ} {P : Log → Type 0} {Q : A → Log → Type 0} {E : Log → Type 0} where
  pub Triple-pure : (a : A) → ((l : Log) → P l → Q a l) → Triple P (pure a) Q E
  unfolding ◌>>=◌
  Triple-pure a h = record { at = h }

  pub Triple-raise : (e : Failure) → ((l : Log) → P l → E l) → Triple P (raise e) Q E
  unfolding ◌>>=◌
  Triple-raise e h = record { at = h }

  pub Triple-call :
      (answer : Log → Result A) (event : Result A → Event)
      → ((l : Log) (a : A) → P l → Q a (event (ok a) ∷ l))
      → ((l : Log) (e : Failure) → P l → E (event (err e) ∷ l))
      → Triple P (call answer event) Q E
  unfolding ◌>>=◌
  Triple-call answer event f g = record { at = λ l h. cases l h (answer l) }
    where
      cases : (l : Log) → P l → (r : Result A) → Ends Q E (r, event r ∷ l)
      cases l h (ok a) = f l a h
      cases l h (err e) = g l e h

  -- With what the answer is.
  pub Triple-call_eq :
      (answer : Log → Result A) (event : Result A → Event)
      → ((l : Log) (a : A) → P l → answer l ≡ ok a → Q a (event (ok a) ∷ l))
      → ((l : Log) (e : Failure) → P l → answer l ≡ err e → E (event (err e) ∷ l))
      → Triple P (call answer event) Q E
  unfolding ◌>>=◌
  Triple-call_eq answer event f g = record { at = λ l h. cases l h (answer l) refl }
    where
      cases : (l : Log) → P l → (r : Result A) → answer l ≡ r → Ends Q E (r, event r ∷ l)
      cases l h (ok a) e = f l a h e
      cases l h (err x) e = g l x h e

  pub Triple-tell :
      (answer : Log → A) (event : A → Event)
      → ((l : Log) (a : A) → P l → Q a (event a ∷ l))
      → Triple P (tell answer event) Q E
  unfolding ◌>>=◌
  Triple-tell answer event f = record { at = λ l h. f l (answer l) h }

  pub Triple-if :
      (b : Bool) (m n : Action A)
      → (b ≡ true → Triple P m Q E)
      → (b ≡ false → Triple P n Q E)
      → Triple P (if b then m else n) Q E
  Triple-if true m n f g = f refl
  Triple-if false m n f g = g refl

  -- A stronger precondition, and weaker postconditions.
  pub Triple-map :
      {P' : Log → Type 0} {Q' : A → Log → Type 0} {E' : Log → Type 0} (m : Action A)
      → Triple P m Q E
      → ((l : Log) → P' l → P l)
      → ((a : A) (l : Log) → Q a l → Q' a l)
      → ((l : Log) → E l → E' l)
      → Triple P' m Q' E'
  Triple-map {P'} {Q'} {E'} m t f g h = record { at = λ l p. cases (m l) (t.at l (f l p)) }
    where
      cases : (out : Result A × Log) → Ends Q E out → Ends Q' E' out
      cases (ok a, l) q = g a l q
      cases (err e, l) q = h l q

  -- Two triples of one action.
  pub Triple-and :
      {P' : Log → Type 0} {Q' : A → Log → Type 0} {E' : Log → Type 0} (m : Action A)
      → Triple P m Q E
      → Triple P' m Q' E'
      → Triple (λ l. P l × P' l) m (λ a l. Q a l × Q' a l) (λ l. E l × E' l)
  Triple-and {P'} {Q'} {E'} m t u = record { at = λ l h. cases (m l) (t.at l h.0) (u.at l h.1) }
    where
      cases :
          (out : Result A × Log)
          → Ends Q E out
          → Ends Q' E' out
          → Ends (λ a l. Q a l × Q' a l) (λ l. E l × E' l) out
      cases (ok a, l) q q' = (q, q')
      cases (err e, l) q q' = (q, q')

  -- What both endings share holds in the final log.
  pub Triple_log :
      (F : Log → Type 0) (m : Action A)
      → Triple P m Q E
      → ((a : A) (l : Log) → Q a l → F l)
      → ((l : Log) → E l → F l)
      → (l : Log) → P l
      → F (m l).1
  Triple_log F m t f g l p = cases (m l) (t.at l p)
    where
      cases : (out : Result A × Log) → Ends Q E out → F out.1
      cases (ok a, l') q = f a l' q
      cases (err e, l') q = g l' q

module _ {ℓ κ} {A : Type ℓ} {B : Type κ} {P : Log → Type 0} {E : Log → Type 0} where
  pub Triple-bind :
      (Q : A → Log → Type 0) {R : B → Log → Type 0} (m : Action A) (f : A → Action B)
      → Triple P m Q E
      → ((a : A) → Triple (Q a) (f a) R E)
      → Triple P (m >>= f) R E
  unfolding ◌>>=◌
  Triple-bind Q {R} m f t k = record { at = λ l p. cases (m l) (t.at l p) }
    where
      cases : (out : Result A × Log) → Ends Q E out → Ends R E (continue out.0 f out.1)
      cases (ok a, l) q = (k a).at l q
      cases (err e, l) q = q

module _ {ℓ} {A : Type ℓ} {P : Log → Type 0} {E : Log → Type 0} where
  pub Triple-defer :
      {Q : A → Log → Type 0} {R : A → Log → Type 0} {F : Log → Type 0} (e : Event) (m : Action A)
      → Triple P m Q E
      → ((a : A) (l : Log) → Q a l → R a (e ∷ l))
      → ((l : Log) → E l → F (e ∷ l))
      → Triple P (defer e m) R F
  unfolding ◌>>=◌
  Triple-defer {Q} {R} {F} e m t f g = record { at = λ l p. cases (m l) (t.at l p) }
    where
      cases : (out : Result A × Log) → Ends Q E out → Ends R F (out.0, e ∷ out.1)
      cases (ok a, l) q = f a l q
      cases (err x, l) q = g l q

  pub Triple-try :
      {F : Log → Type 0} {R : Result A → Log → Type 0} {Q : A → Log → Type 0} (m : Action A)
      → Triple P m Q E
      → ((a : A) (l : Log) → Q a l → R (ok a) l)
      → ((e : Failure) (l : Log) → E l → R (err e) l)
      → Triple P (try m) R F
  unfolding ◌>>=◌
  Triple-try {F} {R} {Q} m t f g = record { at = λ l p. cases (m l) (t.at l p) }
    where
      cases : (out : Result A × Log) → Ends Q E out → R out.0 out.1
      cases (ok a, l) q = f a l q
      cases (err e, l) q = g e l q

module _ {ℓ} {A : Type ℓ} {P : Log → Type 0} {Q : A → Log → Type 0} {E : Log → Type 0} where
  -- A precondition that is not about the log, and one that is.
  pub Triple-given :
      {Fact : Type 0} (m : Action A) → (Fact → Triple P m Q E) → Triple (λ l. Fact × P l) m Q E
  Triple-given m f = record { at = λ l (fact, p). (f fact).at l p }
