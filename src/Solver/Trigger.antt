-- ===== src/Solver/Trigger.antt =====
-- solver.go: `triggerContext`, which says in the log what caused a request.
use cert_manager_webhook_mij.Prelude.{
  Bool, true, false, not, ◌||◌, List, [], ◌∷◌, ◌++◌, Text, codes, text_eq, text_eq_iff, is_empty,
  if◌then◌else◌, All, Option, none, some, Any, first, later, Bool-cases, ◌≡◌, ◌⊎◌, refl, inl, inr,
  arith,
}
use cert_manager_webhook_mij.Failure.{Result, ok, err}
use cert_manager_webhook_mij.Kubernetes.{Dict, lookup}
use cert_manager_webhook_mij.Solver.{ChallengeRequest}

-- `metav1.OwnerReference`, `cmacme.Challenge` and `cmacme.Order`, as far as they are read.
pub record Owner : Type 0 where
  pub kind : Text
  pub name : Text

pub record Challenge : Type 0 where
  pub name : Text
  pub dns_name : Text
  pub key : Text
  pub wildcard : Bool
  pub issuer : Text
  pub owners : List Owner

pub record Order : Type 0 where
  pub annotations : Dict
  pub owners : List Owner

-- A key of the log with its value.
pub data Field : Type 0 where
  challenge issuer order certificate_request certificate : Text → Field
  wildcard : Bool → Field

-- The loop over the owners of a Challenge: the last Order.
unfoldable pub order_of : Text → List Owner → Text
unfolding text_eq
order_of name [] = name
order_of name (o ∷ owners) =
    order_of (if text_eq o.kind (codes "Order") then o.name else name) owners

-- The loop over the Challenges, up to the first one that fits.
unfoldable pub find_challenge : ChallengeRequest → List Challenge → Option Challenge
unfolding text_eq
find_challenge ch [] = none
find_challenge ch (c ∷ rest) =
    let later = find_challenge ch rest in
    if not (text_eq c.dns_name ch.dns_name) || not (text_eq c.key ch.key) then later else some c

-- The loop over the owners of an Order.
unfoldable pub certificate_requests : List Owner → List Field
unfolding text_eq
certificate_requests [] = []
certificate_requests (o ∷ owners) =
    let rest = certificate_requests owners in
    if text_eq o.kind (codes "CertificateRequest") then certificate_request o.name ∷ rest else rest

-- The fields that an Order gives.
unfoldable pub order_fields : ChallengeRequest → Result Order → List Field
unfolding certificate_requests lookup
order_fields ch (err e) = []
order_fields ch (ok found) =
    let cert = lookup (codes "cert-manager.io/certificate-name") found.annotations in
    certificate_requests found.owners
    ++ (if is_empty cert
        then []
        else certificate (ch.resource_namespace ++ (codes "/" ++ cert)) ∷ [])

-- The fields that a Challenge gives, with those of its Order.
unfoldable pub challenge_fields :
    ChallengeRequest → (Text → Text → Result Order) → Option Challenge → List Field
unfolding order_of order_fields
challenge_fields ch get_order none = []
challenge_fields ch get_order (some c) =
    let name = order_of [] c.owners in
    (challenge c.name ∷ wildcard c.wildcard ∷ issuer c.issuer ∷ [])
    ++ (if is_empty name
        then []
        else order name ∷ order_fields ch (get_order ch.resource_namespace name))

-- `triggerContext`: where there is no client, or the Challenges are not listed, there are no fields.
unfoldable pub trigger_context :
    Bool
    → (Text → Result (List Challenge))
    → (Text → Text → Result Order)
    → ChallengeRequest
    → List Field
unfolding find_challenge challenge_fields
trigger_context false list get_order ch = []
trigger_context true list get_order ch = elim (list ch.resource_namespace) [
  | err e ↦ []
  | ok challenges ↦ challenge_fields ch get_order (find_challenge ch challenges)
]

-- The Challenge behind a request.
pub record Causes (ch : ChallengeRequest) (c : Challenge) : Type 0 where
  pub same_name : c.dns_name ≡ ch.dns_name
  pub same_key : c.key ≡ ch.key

-- What is found among the Challenges.
abbrev Finding : ChallengeRequest → List Challenge → Option Challenge → Type 0
Finding ch challenges none = All (λ c. ¬ Causes ch c) challenges
Finding ch challenges (some c) = Causes ch c × Any (λ d. d ≡ c) challenges

Finding-later :
    (ch : ChallengeRequest) (c : Challenge) (rest : List Challenge) (o : Option Challenge)
    → ¬ Causes ch c
    → Finding ch rest o
    → Finding ch (c ∷ rest) o
Finding-later ch c rest none no_cause h = (no_cause, h)
Finding-later ch c rest (some d) no_cause h = (h.0, later h.1)

Finding-find_challenge :
    (ch : ChallengeRequest) (challenges : List Challenge)
    → Finding ch challenges (find_challenge ch challenges)
unfolding find_challenge
Finding-find_challenge ch [] = tt
Finding-find_challenge ch (c ∷ rest) = elim (Bool-cases (text_eq c.dns_name ch.dns_name)) [
  | inr other ↦ rw other (
      Finding-later ch c rest (find_challenge ch rest)
        (λ h. ground (arith, other, (text_eq_iff c.dns_name ch.dns_name).1 h.same_name))
        (Finding-find_challenge ch rest))
  | inl named ↦ elim (Bool-cases (text_eq c.key ch.key)) [
    | inr other ↦
        rw (named, other)
          (Finding-later ch c rest (find_challenge ch rest)
            (λ h. ground (arith, other, (text_eq_iff c.key ch.key).1 h.same_key))
            (Finding-find_challenge ch rest))
    | inl keyed ↦
        rw (named, keyed)
          (
            record {
              same_name = (text_eq_iff c.dns_name ch.dns_name).0 named;
              same_key = (text_eq_iff c.key ch.key).0 keyed;
            },
            first refl,
          )
  ]
]

-- The fields in the log are those of a Challenge in the request's namespace that has its DNS name and
-- its key, with the fields of its Order as far as it can be read; where no Challenge has both there are
-- none. The Challenges can be listed.
pub trigger_context-Causes :
    (list : Text → Result (List Challenge)) (get_order : Text → Text → Result Order)
    (ch : ChallengeRequest) (challenges : List Challenge)
    → list ch.resource_namespace ≡ ok challenges
    → ((trigger_context true list get_order ch ≡ []) × All (λ c. ¬ Causes ch c) challenges)
      ⊎ ((c : Challenge) × Causes ch c
          × Any (λ d. d ≡ c) challenges
          × (trigger_context true list get_order ch ≡ challenge_fields ch get_order (some c)))
unfolding trigger_context
trigger_context-Causes list get_order ch challenges listed =
    causes (find_challenge ch challenges) (Finding-find_challenge ch challenges) refl
  where
    causes :
        (o : Option Challenge)
        → Finding ch challenges o
        → find_challenge ch challenges ≡ o
        → ((trigger_context true list get_order ch ≡ []) × All (λ c. ¬ Causes ch c) challenges)
          ⊎ ((c : Challenge) × Causes ch c
              × Any (λ d. d ≡ c) challenges
              × (trigger_context true list get_order ch ≡ challenge_fields ch get_order (some c)))
    causes none h e = inl ((rw (trigger_context, listed, e) refl), h)
    causes (some c) h e = inr (c, h.0, h.1, (rw (trigger_context, listed, e) refl))
