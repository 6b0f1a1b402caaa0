-- ===== src/Listing/Schemas.antt =====
-- listable_rest.go: the OpenAPI definition of the list, added to those that cert-manager generates.
-- `Ref` is `spec.Ref`, made by the callback of the builder. A map is a function from keys to options.
use cert_manager_webhook_mij.Prelude.{
  Bool, true, false, List, [], ◌∷◌, ◌++◌, Option, none, some, if◌then◌else◌, Text, codes, text_eq,
}

mutual
  -- `spec.Schema`, as far as the program fills it in.
  pub data Schema {ℓ} (Ref : Type ℓ) : Type ℓ where
    schema :
        (description : Text)
        → (types : List Text) → (has_default : Bool) → Option Ref
        → Properties Ref
        → Items Ref
        → (required : List Text) → Schema Ref

  -- `Properties`, by their names.
  pub data Properties {ℓ} (Ref : Type ℓ) : Type ℓ where
    end : Properties Ref
    property : Text → Schema Ref → Properties Ref → Properties Ref

  -- `*spec.SchemaOrArray`
  pub data Items {ℓ} (Ref : Type ℓ) : Type ℓ where
    no_items : Items Ref
    each : Schema Ref → Items Ref

-- `common.OpenAPIDefinition`
pub record Definition {ℓ} (Ref : Type ℓ) : Type ℓ where
  pub schema_of : Schema Ref
  pub dependencies : List Text

abbrev pub Definitions {ℓ} : Type ℓ → Type ℓ
Definitions Ref = Text → Option (Definition Ref)

abbrev pub list_meta_name : Text
list_meta_name = codes "k8s.io/apimachinery/pkg/apis/meta/v1.ListMeta"

abbrev pub payload_name : Text
payload_name =
    codes
      "github.com/cert-manager/cert-manager/pkg/acme/webhook/apis/acme/v1alpha1.ChallengePayload"

-- `challengePayloadListTypeName`, of what `reflect` says of the type.
abbrev pub challenge_payload_list_type_name : (pkg_path name : Text) → Text
challenge_payload_list_type_name pkg_path name = pkg_path ++ codes "." ++ name

module _ {ℓ} {Ref : Type ℓ} (ref : Text → Ref) where
  -- A property that says its type, and one that refers to a definition.
  abbrev pub text_property : Text → Schema Ref
  text_property description = schema description (codes "string" ∷ []) false none end no_items []

  abbrev pub reference : Text → Schema Ref
  reference name = schema [] [] true (some (ref name)) end no_items []

  abbrev pub list_properties : Properties Ref
  list_properties =
      property (codes "kind")
        (text_property
          (codes "Kind is a string value representing the REST resource this object represents."))
        (property (codes "apiVersion")
          (text_property
            (codes "APIVersion defines the versioned schema of this representation of an object."))
          (property (codes "metadata") (reference list_meta_name) (
            property (codes "items")
              (schema [] (codes "array" ∷ []) false none end (each (reference payload_name)) [])
              end)))

  -- What is added for `ChallengePayloadList`.
  unfoldable pub list_definition : Definition Ref
  list_definition = record {
    schema_of =
        schema
          (codes
            "ChallengePayloadList is a list of ChallengePayload objects. The webhook never stores any, so the list is always empty; it exists only so the aggregated API advertises LIST.")
          (codes "object" ∷ []) false none list_properties no_items (codes "items" ∷ []);
    dependencies = payload_name ∷ list_meta_name ∷ [];
  }

  -- `getOpenAPIDefinitions`, on what cert-manager's function of that name gives.
  unfoldable pub get_openapi_definitions : ((Text → Ref) → Definitions Ref) → Text → Definitions Ref
  unfolding list_definition text_eq
  get_openapi_definitions generated type_name name =
      if text_eq name type_name then some list_definition else generated ref name
