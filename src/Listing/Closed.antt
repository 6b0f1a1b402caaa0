-- ===== src/Listing/Closed.antt =====
-- listable_rest.go: the definitions refer to definitions that there are.
use mathlib.Core.Path.{subst}
use cert_manager_webhook_mij.Prelude.{
  List, [], ◌∷◌, All, Any, first, later, All-map, Option, none, some, Text, text_eq, text_eq_iff,
  Bool-cases, ◌≡◌, ◌⊎◌, inl, inr, ◌≢◌, refl, sym, ◌∙◌, arith,
}
use cert_manager_webhook_mij.Listing.Schemas.{
  Schema, schema, Properties, end, property, Items, no_items, each, Definition, Definitions,
  list_meta_name, payload_name, list_definition, get_openapi_definitions,
}

abbrev names {ℓ} : {Ref : Type ℓ} → Properties Ref → List Text
names end = []
names (property name s ps) = name ∷ names ps

-- A reference is to one of the names that are given.
abbrev RefersTo {ℓ} : {Ref : Type ℓ} → (Text → Ref) → List Text → Option Ref → Type ℓ
RefersTo ref deps none = Unit
RefersTo ref deps (some r) = Any (λ d. ref d ≡ r) deps

-- Each reference in a schema is to one of the names, and each required property is there.
abbrev mutual
  pub IsSchema {ℓ} : {Ref : Type ℓ} → (Text → Ref) → List Text → Schema Ref → Type ℓ
  IsSchema ref deps (schema description types has_default r ps is required) =
      RefersTo ref deps r
      × AreProperties ref deps ps
      × AreItems ref deps is
      × All (λ q. Any (λ name. q ≡ name) (names ps)) required

  AreProperties {ℓ} : {Ref : Type ℓ} → (Text → Ref) → List Text → Properties Ref → Type ℓ
  AreProperties ref deps end = Unit
  AreProperties ref deps (property name s ps) = IsSchema ref deps s × AreProperties ref deps ps

  AreItems {ℓ} : {Ref : Type ℓ} → (Text → Ref) → List Text → Items Ref → Type ℓ
  AreItems ref deps no_items = Unit
  AreItems ref deps (each s) = IsSchema ref deps s

-- Of a family of definitions: each is a schema, refers to what it depends on only, and depends on
-- definitions that there are.
pub record IsClosed {ℓ} {Ref : Type ℓ} (ref : Text → Ref) (defs : Definitions Ref) : Type ℓ where
  pub schemas :
      (name : Text) (def : Definition Ref)
      → defs name ≡ some def
      → IsSchema ref def.dependencies def.schema_of
  pub known :
      (name : Text) (def : Definition Ref)
      → defs name ≡ some def
      → All (λ d. (f : Definition Ref) × (defs d ≡ some f)) def.dependencies

module _ {ℓ} {Ref : Type ℓ} (ref : Text → Ref) where
  list_definition-IsSchema :
      IsSchema ref (list_definition ref).dependencies (list_definition ref).schema_of
  unfolding list_definition
  list_definition-IsSchema = (
    tt,
    (
      (tt, tt, tt, tt),
      (
        (tt, tt, tt, tt),
        ((later (first refl), tt, tt, tt), ((tt, tt, (first refl, tt, tt, tt), tt), tt)),
      ),
    ),
    tt,
    (later (later (later (first refl))), tt),
  )

  module _ (generated : (Text → Ref) → Definitions Ref) (type_name : Text) where
    -- A name has a definition of before, or that of the list.
    definition_cases :
        (name : Text)
        → ((name ≡ type_name)
            × (get_openapi_definitions ref generated type_name name ≡ some (list_definition ref)))
          ⊎ ((name ≢ type_name)
              × (get_openapi_definitions ref generated type_name name ≡ generated ref name))
    unfolding get_openapi_definitions
    definition_cases name = elim (Bool-cases (text_eq name type_name)) [
      | inl e ↦ inl ((text_eq_iff name type_name).0 e, rw e refl)
      | inr e ↦ inr (λ same. ground (arith, (text_eq_iff name type_name).1 same, e), rw e refl)
    ]

    Known : Definitions Ref → Text → Type ℓ
    Known defs d = (f : Definition Ref) × (defs d ≡ some f)

    get_openapi_definitions-Known :
        (d : Text)
        → Known (generated ref) d
        → Known (get_openapi_definitions ref generated type_name) d
    unfolding Known
    get_openapi_definitions-Known d (f, e) = elim (definition_cases d) [
      | inl (same, got) ↦ (list_definition ref, got)
      | inr (other, got) ↦ (f, got ∙ e)
    ]

    list_definition-Known :
        (defs : Definitions Ref)
        → Known defs payload_name
        → Known defs list_meta_name
        → All (Known defs) (list_definition ref).dependencies
    unfolding list_definition
    list_definition-Known defs p m = (p, (m, tt))

    -- A property of the definition of the list, at a name that has it.
    at_list {κ} :
        (P : Definition Ref → Type κ) (o : Option (Definition Ref)) (def : Definition Ref)
        → o ≡ some (list_definition ref)
        → o ≡ some def
        → P (list_definition ref)
        → P def
    at_list P o def got e h = let same : list_definition ref ≡ def = cc (got, e) in subst P same h

    -- What `getOpenAPIDefinitions` gives is closed where what cert-manager generates is, with
    -- definitions of the payload and of the metadata of lists: every reference and every required
    -- property of a schema is there. Under the name of the list it has the definition of the list,
    -- and under any other name what it had.
    pub definitions-IsClosed :
        (payload meta : Definition Ref)
        → IsClosed ref (generated ref)
        → generated ref payload_name ≡ some payload
        → generated ref list_meta_name ≡ some meta
        → IsClosed ref (get_openapi_definitions ref generated type_name)
          × (get_openapi_definitions ref generated type_name type_name ≡ some (list_definition ref))
          × ((name : Text)
              → name ≢ type_name
              → get_openapi_definitions ref generated type_name name ≡ generated ref name)
    unfolding Known
    definitions-IsClosed payload meta closed has_payload has_meta = (
      record {
        schemas = λ name def e. elim (definition_cases name) [
          | inl (same, got) ↦
              at_list (λ f. IsSchema ref f.dependencies f.schema_of)
                (get_openapi_definitions ref generated type_name name) def got e
                list_definition-IsSchema
          | inr (other, got) ↦ closed.schemas name def (sym got ∙ e)
        ];
        known = λ name def e. elim (definition_cases name) [
          | inl (same, got) ↦
              at_list
                (λ f. All (Known (get_openapi_definitions ref generated type_name)) f.dependencies)
                (get_openapi_definitions ref generated type_name name) def got e
                (list_definition-Known _
                  (get_openapi_definitions-Known payload_name (payload, has_payload))
                  (get_openapi_definitions-Known list_meta_name (meta, has_meta)))
          | inr (other, got) ↦
              All-map def.dependencies get_openapi_definitions-Known
                (closed.known name def (sym got ∙ e))
        ];
      },
      elim (definition_cases type_name) [
        | inl (same, got) ↦ got
        | inr (other, got) ↦ absurd (other refl)
      ],
      (λ name other. elim (definition_cases name) [
        | inl (same, got) ↦ absurd (other same)
        | inr (_, got) ↦ got
      ]),
    )
