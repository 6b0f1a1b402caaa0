-- ===== src/Records/Desired.antt =====
-- The desired list, record by record: what `Present`, `CleanUp` and expiry make of it.
use mathlib.Core.List.{append-nil}
use cert_manager_webhook_mij.Prelude.{
  ℕ, ◌+◌, ◌-◌, leb, ◌||◌, ◌≡◌, refl, Bool, true, ◌&&◌, arith, List, [], ◌∷◌, ◌++◌, Text, text_eq,
  text_eq_iff, text_eq_refl, ◌==◌, if◌then◌else◌, ℤ, Option, none, some, keep,
}
use cert_manager_webhook_mij.Payload.View.{is_some, or_else}
use cert_manager_webhook_mij.Store.{Record}
use cert_manager_webhook_mij.Records.{is_expired, split_expired, is_record, retime, without}

-- The first record of a name and a value.
abbrev pub find_record : Text → Text → List Record → Option Record
find_record name value [] = none
find_record name value (rec ∷ recs) =
    if is_record name value rec then some rec else find_record name value recs

-- No two records share a name and a value.
abbrev pub UniqueRecords : List Record → Type 0
UniqueRecords [] = Unit
UniqueRecords (rec ∷ recs) = (find_record rec.name rec.value recs ≡ none) × UniqueRecords recs

-- The record that `Present` appends.
abbrev pub presented : List Record → Record → List Record
presented recs rec =
    let (retimed, found) = retime rec.name rec.value rec.ttl recs in
    if found then retimed else recs ++ rec ∷ []

same_record :
    (name value : Text) (rec : Record)
    → is_record name value rec ≡ true
    → (rec.name ≡ name) × (rec.value ≡ value)
same_record name value rec h =
    ground (arith, text_eq_iff rec.name name, text_eq_iff rec.value value)

retime_found :
    (name value : Text) (ttl : ℤ) (recs : List Record)
    → (retime name value ttl recs).1 ≡ is_some (find_record name value recs)
unfolding retime
retime_found name value ttl [] = refl
retime_found name value ttl (rec ∷ recs) = ground (arith, retime_found name value ttl recs)

find_record-append :
    (name value : Text) (recs : List Record) (rec : Record)
    → find_record name value (recs ++ rec ∷ [])
      ≡ or_else (find_record name value recs) (if is_record name value rec then some rec else none)
find_record-append name value [] rec = refl
find_record-append name value (x ∷ recs) rec =
    ground (arith, find_record-append name value recs rec)

-- Updates of the first matching record, seen through another key.
abbrev retimed_record : Bool → ℤ → Option Record → Option Record
retimed_record hit ttl none = none
retimed_record hit ttl (some rec) = some (if hit then record rec { ttl = ttl } else rec)

find_record-retime :
    (name value n v : Text) (ttl : ℤ) (recs : List Record)
    → find_record n v (retime name value ttl recs).0
      ≡ retimed_record (text_eq name n && text_eq value v) ttl (find_record n v recs)
unfolding retime
find_record-retime name value n v ttl [] = refl
find_record-retime name value n v ttl (rec ∷ recs) = ground (
  arith,
  find_record-retime name value n v ttl recs,
  text_eq_iff rec.name name,
  text_eq_iff rec.value value,
  text_eq_iff rec.name n,
  text_eq_iff rec.value v,
  text_eq_iff name n,
  text_eq_iff value v,
)

-- The record that the state holds behind a `Present`: the old one with the new TTL, or the new one.
abbrev pub renewed : Option Record → Record → Record
renewed none rec = rec
renewed (some old) rec = record old { ttl = rec.ttl }

pub find_record-presented :
    (recs : List Record) (rec : Record) (n v : Text)
    → find_record n v (presented recs rec) ≡ (
        if text_eq rec.name n && text_eq rec.value v
        then some (renewed (find_record n v recs) rec)
        else find_record n v recs)
find_record-presented recs rec n v = ground (
  arith,
  retime_found rec.name rec.value rec.ttl recs,
  find_record-retime rec.name rec.value n v rec.ttl recs,
  find_record-append n v recs rec,
  text_eq_iff rec.name n,
  text_eq_iff rec.value v,
)

UniqueRecords-append :
    (recs : List Record) (rec : Record)
    → UniqueRecords recs
    → find_record rec.name rec.value recs ≡ none
    → UniqueRecords (recs ++ rec ∷ [])
UniqueRecords-append [] rec u h = (refl, tt)
UniqueRecords-append (x ∷ recs) rec (ux, u) h = (
  ground (
    arith,
    ux,
    h,
    find_record-append x.name x.value recs rec,
    text_eq_iff rec.name x.name,
    text_eq_iff rec.value x.value,
    text_eq_iff x.name rec.name,
    text_eq_iff x.value rec.value,
  ),
  UniqueRecords-append recs rec u (ground arith),
)

retime-UniqueRecords :
    (name value : Text) (ttl : ℤ) (recs : List Record)
    → UniqueRecords recs
    → UniqueRecords (retime name value ttl recs).0
unfolding retime
retime-UniqueRecords name value ttl [] u = tt
retime-UniqueRecords name value ttl (x ∷ recs) (ux, u) = ground (
  arith,
  retime-UniqueRecords name value ttl recs u,
  find_record-retime name value x.name x.value ttl recs,
)

pub presented-UniqueRecords :
    (recs : List Record) (rec : Record) → UniqueRecords recs → UniqueRecords (presented recs rec)
presented-UniqueRecords recs rec u = ground (
  arith,
  retime-UniqueRecords rec.name rec.value rec.ttl recs u,
  UniqueRecords-append recs rec u,
  retime_found rec.name rec.value rec.ttl recs,
)

pub find_record-without :
    (name value n v : Text) (recs : List Record)
    → find_record n v (without name value recs)
      ≡ (if text_eq name n && text_eq value v then none else find_record n v recs)
unfolding without
find_record-without name value n v [] = ground arith
find_record-without name value n v (rec ∷ recs) = ground (
  arith,
  find_record-without name value n v recs,
  text_eq_iff rec.name name,
  text_eq_iff rec.value value,
  text_eq_iff rec.name n,
  text_eq_iff rec.value v,
  text_eq_iff name n,
  text_eq_iff value v,
)

pub without-UniqueRecords :
    (name value : Text) (recs : List Record)
    → UniqueRecords recs
    → UniqueRecords (without name value recs)
unfolding without
without-UniqueRecords name value [] u = tt
without-UniqueRecords name value (x ∷ recs) (ux, u) = ground (
  arith,
  without-UniqueRecords name value recs u,
  find_record-without name value x.name x.value recs,
)

without-append :
    (name value : Text) (xs ys : List Record)
    → without name value (xs ++ ys) ≡ without name value xs ++ without name value ys
unfolding without
without-append name value [] ys = refl
without-append name value (x ∷ xs) ys = ground (arith, without-append name value xs ys)

without_absent :
    (name value : Text) (recs : List Record)
    → find_record name value recs ≡ none
    → without name value recs ≡ recs
unfolding without
without_absent name value [] h = refl
without_absent name value (x ∷ recs) h = ground (arith, without_absent name value recs)

without-retime :
    (name value : Text) (ttl : ℤ) (recs : List Record)
    → without name value (retime name value ttl recs).0 ≡ without name value recs
unfolding without retime
without-retime name value ttl [] = refl
without-retime name value ttl (x ∷ recs) = ground (arith, without-retime name value ttl recs)

without_self : (rec : Record) → without rec.name rec.value (rec ∷ []) ≡ []
unfolding without
without_self rec = ground (arith, text_eq_refl rec.name, text_eq_refl rec.value)

-- Removing what was just presented gives the list without it.
pub without-presented :
    (recs : List Record) (rec : Record)
    → without rec.name rec.value (presented recs rec) ≡ without rec.name rec.value recs
without-presented recs rec = ground (
  arith,
  without-retime rec.name rec.value rec.ttl recs,
  without-append rec.name rec.value recs (rec ∷ []),
  without_self rec,
  append-nil (without rec.name rec.value recs),
)

-- Not older than `age`, or of no known time.
abbrev pub is_fresh : ℕ → ℕ → Record → Bool
is_fresh now age rec = rec.added_at == 0 || leb now (rec.added_at + age)

pub split_expired_lem :
    (now age : ℕ) (recs : List Record)
    → (split_expired (now - age) recs).0 ≡ keep (is_fresh now age) recs
unfolding split_expired is_expired
split_expired_lem now age [] = refl
split_expired_lem now age (rec ∷ recs) = ground (arith, split_expired_lem now age recs)
