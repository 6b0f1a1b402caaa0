-- ===== src/Tests/Encoding.antt =====
-- An encoding of states that round-trips, in place of package encoding/json.
use cert_manager_webhook_mij.Prelude.{
  zero, suc, List, [], ◌∷◌, Text, ℤ, pos, negsuc, ◌≡◌, ◌≢◌, refl, sym, ap, ◌∙◌, arith,
}
use cert_manager_webhook_mij.Failure.{bad_json, Result, ok, err}
use cert_manager_webhook_mij.Store.{Record, State}
use cert_manager_webhook_mij.Store.ConfigMaps.{Json}
use cert_manager_webhook_mij.Store.Saving.{RoundTrips}

-- A text with a zero behind it, and the rest.
write_text : Text → Text → Text
write_text [] rest = 0 ∷ rest
write_text (c ∷ t) rest = suc c ∷ write_text t rest

read_texts : Text → List Text
read_texts [] = []
read_texts (zero ∷ s) = [] ∷ read_texts s
read_texts (suc c ∷ s) = elim (read_texts s) [ [] ↦ [] | t ∷ ts ↦ (c ∷ t) ∷ ts ]

read_texts-write_text : (t rest : Text) → read_texts (write_text t rest) ≡ t ∷ read_texts rest
unfolding read_texts write_text
read_texts-write_text [] rest = refl
read_texts-write_text (c ∷ t) rest = rw (read_texts-write_text t rest) refl

write_texts : List Text → Text
unfolding write_text
write_texts [] = []
write_texts (t ∷ ts) = write_text t (write_texts ts)

read_texts-write_texts : (ts : List Text) → read_texts (write_texts ts) ≡ ts
unfolding read_texts write_texts
read_texts-write_texts [] = refl
read_texts-write_texts (t ∷ ts) =
    read_texts-write_text t (write_texts ts) ∙ ap (λ rest. t ∷ rest) (read_texts-write_texts ts)

write_int : ℤ → Text
write_int (pos n) = 0 ∷ n ∷ []
write_int (negsuc n) = 1 ∷ n ∷ []

read_int : Text → ℤ
read_int (zero ∷ n ∷ _) = pos n
read_int (suc _ ∷ n ∷ _) = negsuc n
read_int _ = pos 0

read_int-write_int : (i : ℤ) → read_int (write_int i) ≡ i
unfolding read_int write_int
read_int-write_int (pos n) = refl
read_int-write_int (negsuc n) = refl

record_texts : List Record → List Text
unfolding write_int
record_texts [] = []
record_texts (r ∷ rs) =
    r.name
    ∷ r.value
    ∷ write_int r.ttl
    ∷ (r.added_at ∷ [])
    ∷ r.challenge_uid
    ∷ r.dns_name
    ∷ record_texts rs

read_records : List Text → List Record
unfolding read_int
read_records (name ∷ value ∷ ttl ∷ (added_at ∷ _) ∷ uid ∷ dns_name ∷ ts) =
    let rest = read_records ts in
    record {
      name = name;
      value = value;
      ttl = read_int ttl;
      added_at = added_at;
      challenge_uid = uid;
      dns_name = dns_name;
    }
    ∷ rest
read_records _ = []

read_records-record_texts : (rs : List Record) → read_records (record_texts rs) ≡ rs
unfolding read_records record_texts
read_records-record_texts [] = refl
read_records-record_texts (r ∷ rs) =
    rw (read_int-write_int r.ttl, read_records-record_texts rs) refl

state_texts : State → List Text
unfolding record_texts
state_texts st =
    let ref = st.api_key_secret_ref in
    st.zone ∷ ref.namespace ∷ ref.name ∷ ref.key ∷ record_texts st.records

read_state : List Text → Result State
unfolding read_records
read_state (zone ∷ namespace ∷ name ∷ key ∷ ts) = ok (record {
  zone = zone;
  api_key_secret_ref = record { namespace = namespace; name = name; key = key };
  records = read_records ts;
})
read_state _ = err bad_json

unfoldable pub encoding : Json
unfolding write_texts read_texts state_texts read_state
encoding = record {
  marshal = λ st. ok (write_texts (state_texts st));
  unmarshal = λ raw st. read_state (read_texts raw);
}

never_empty : (t rest : Text) → write_text t rest ≢ []
unfolding write_text
never_empty [] rest h = ground (arith, h)
never_empty (c ∷ t) rest h = ground (arith, h)

decoded : (st : State) → read_state (read_texts (write_texts (state_texts st))) ≡ ok st
unfolding state_texts read_state
decoded st = rw (read_texts-write_texts (state_texts st), read_records-record_texts st.records) refl

pub encoding-RoundTrips : RoundTrips encoding
unfolding encoding write_texts state_texts read_state
encoding-RoundTrips st raw h =
    let ref = st.api_key_secret_ref in
    let e : write_texts (state_texts st) ≡ raw = ground (arith, h) in
    (
      λ blank.
          never_empty st.zone
            (write_texts (ref.namespace ∷ ref.name ∷ ref.key ∷ record_texts st.records))
            (e ∙ blank),
      ap (λ t. read_state (read_texts t)) (sym e) ∙ decoded st,
    )
