-- ===== src/Payload/Describing.antt =====
-- zone/payload.go: `Describe`, the lines of a log.
use mathlib.Core.Logic.{∥∥₁_elim}
use mathlib.Core.List.{Perm, Permᴰ}
use mathlib.Core.List.Perm
use cert_manager_webhook_mij.Prelude.{
  ◌≡◌, refl, ◌∙◌, Bool, true, false, List, [], ◌∷◌, ◌++◌, map, Text, codes, ltb, ◌==◌,
  if◌then◌else◌, Bool-cases, inl, inr, arith,
}
use cert_manager_webhook_mij.Mijnhost.{DnsRecord}

-- The order of texts.
unfoldable text_leb : Text → Text → Bool
text_leb [] t = true
text_leb (a ∷ s) [] = false
text_leb (a ∷ s) (b ∷ t) =
    let rest = text_leb s t in if ltb a b then true else if a == b then rest else false

unfoldable insert : Text → List Text → List Text
unfolding text_leb
insert a [] = a ∷ []
insert a (b ∷ ts) = let rest = insert a ts in if text_leb a b then a ∷ b ∷ ts else b ∷ rest

-- `sort.Strings`
unfoldable sort : List Text → List Text
unfolding insert
sort [] = []
sort (t ∷ ts) = insert t (sort ts)

abbrev line : DnsRecord → Text
line r = r.name ++ codes "=" ++ r.value

-- `Describe`
unfoldable pub describe : List DnsRecord → List Text
unfolding sort
describe records = sort (map line records)

text_leb_total : (s t : Text) → text_leb s t ≡ false → text_leb t s ≡ true
unfolding text_leb
text_leb_total [] t h = cc h
text_leb_total (a ∷ s) [] h = refl
text_leb_total (a ∷ s) (b ∷ t) h = ground (arith, h, text_leb_total s t)

text_leb_antisym : (s t : Text) → text_leb s t ≡ true → text_leb t s ≡ true → s ≡ t
unfolding text_leb
text_leb_antisym [] [] h k = refl
text_leb_antisym [] (b ∷ t) h k = cc k
text_leb_antisym (a ∷ s) [] h k = cc h
text_leb_antisym (a ∷ s) (b ∷ t) h k = ground (arith, h, k, text_leb_antisym s t)

text_leb_trans : (s t u : Text) → text_leb s t ≡ true → text_leb t u ≡ true → text_leb s u ≡ true
unfolding text_leb
text_leb_trans [] t u h k = refl
text_leb_trans (a ∷ s) [] u h k = cc h
text_leb_trans (a ∷ s) (b ∷ t) [] h k = cc k
text_leb_trans (a ∷ s) (b ∷ t) (c ∷ u) h k = ground (arith, h, k, text_leb_trans s t u)

insert_comm : (a b : Text) (ts : List Text) → insert a (insert b ts) ≡ insert b (insert a ts)
unfolding insert
insert_comm a b [] = ground (arith, text_leb_total a b, text_leb_total b a, text_leb_antisym a b)
insert_comm a b (c ∷ ts) = ground (
  arith,
  text_leb_total a b,
  text_leb_total b a,
  text_leb_antisym a b,
  text_leb_trans a b c,
  text_leb_trans b a c,
  text_leb_total a c,
  text_leb_total b c,
  insert_comm a b ts,
)

-- Each text is before the one behind it.
pub IsSorted : List Text → Type 0
IsSorted [] = Unit
IsSorted (a ∷ []) = Unit
IsSorted (a ∷ b ∷ ts) = (text_leb a b ≡ true) × IsSorted (b ∷ ts)

insert-IsSorted : (a : Text) (ts : List Text) → IsSorted ts → IsSorted (insert a ts)
unfolding insert IsSorted
insert-IsSorted a [] h = tt
insert-IsSorted a (b ∷ []) h = ground (arith, text_leb_total a b)
insert-IsSorted a (b ∷ c ∷ ts) h = ground (arith, text_leb_total a b, insert-IsSorted a (c ∷ ts), h)

sort-IsSorted : (ts : List Text) → IsSorted (sort ts)
unfolding sort IsSorted
sort-IsSorted [] = tt
sort-IsSorted (t ∷ ts) = insert-IsSorted t (sort ts) (sort-IsSorted ts)

insert-perm : (a : Text) (ts : List Text) → Perm (insert a ts) (a ∷ ts)
unfolding insert
insert-perm a [] = Perm.refl (a ∷ [])
insert-perm a (b ∷ ts) = elim (Bool-cases (text_leb a b)) [
  | inl e ↦ rw e (Perm.refl (a ∷ b ∷ ts))
  | inr e ↦ rw e (Perm.trans (Perm.cons b (insert-perm a ts)) (Perm.swap a b ts))
]

sort-perm : (ts : List Text) → Perm (sort ts) ts
unfolding sort
sort-perm [] = Perm.refl []
sort-perm (t ∷ ts) = Perm.trans (insert-perm t (sort ts)) (Perm.cons t (sort-perm ts))

describe_swapped : {rs rs' : List DnsRecord} → Permᴰ rs rs' → describe rs ≡ describe rs'
unfolding describe
describe_swapped Permᴰ.nil = refl
describe_swapped (Permᴰ.cons e d) = cc (e, describe_swapped d)
describe_swapped (Permᴰ.swap {a' = a} {b' = b} {l = l} e e') =
    rw (e, e') (insert_comm (line b) (line a) (sort (map line l)))
describe_swapped (Permᴰ.trans d d') = describe_swapped d ∙ describe_swapped d'

-- The lines of a log are those of the records, in order, and do not depend on the order in which the
-- records come.
pub describe-IsSorted :
    (records records' : List DnsRecord)
    → Perm records records'
    → IsSorted (describe records)
      × Perm (describe records) (map (λ r. r.name ++ codes "=" ++ r.value) records)
      × (describe records ≡ describe records')
unfolding describe
describe-IsSorted records records' h = (
  sort-IsSorted (map line records),
  sort-perm (map line records),
  ∥∥₁_elim h (hlevel) describe_swapped,
)
