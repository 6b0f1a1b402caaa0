-- ===== src/Tests/Cluster.antt =====
-- A cluster that holds one object, in which the promises of the API come true.
use cert_manager_webhook_mij.Prelude.{
  refl, sym, ◌∙◌, ◌<◌, ◌⊎◌, inl, inr, true, Bool-cases, length, ℕ, ◌&&◌, [], ◌∷◌, Text, text_eq,
  text_eq_refl, text_eq_iff, if◌then◌else◌, Option, none, some, ◌≡◌, ◌≢◌, ap, arith,
}
use cert_manager_webhook_mij.Failure.{not_found, already_exists, conflict, Result, ok, err}
use cert_manager_webhook_mij.Kubernetes.{Client, Laws, WriteLaws}

-- The object with the number of its updates, and the clock.
abbrev pub Slot : Type 0 → Type 0
Slot Object = Option (Object × Text) × ℕ

longer : (v : Text) → 1 ∷ 1 ∷ v ≢ 1 ∷ v
longer v h = omega (arith, ap length h)

module _ {Object : Type 0} (name version : Object → Text)
    (with_version : Text → Object → Object) where
  unfoldable pub slot_get : Slot Object → Text → Result Object
  unfolding text_eq
  slot_get (none, t) n = err not_found
  slot_get (some (o, v), t) n =
      if text_eq (name o) n then ok (with_version (1 ∷ v) o) else err not_found

  unfoldable pub slot_create : Slot Object → Object → Result Object × Slot Object
  slot_create (none, t) o = (ok (with_version (1 ∷ []) o), (some (o, []), t))
  slot_create (some old, t) o = (err already_exists, (some old, t))

  unfoldable pub slot_update : Slot Object → Object → Result Object × Slot Object
  unfolding text_eq
  slot_update (none, t) o = (err not_found, (none, t))
  slot_update (some (old, v), t) o =
      if text_eq (name old) (name o) && text_eq (version o) (1 ∷ v)
      then (ok (with_version (1 ∷ 1 ∷ v) o), (some (o, 1 ∷ v), t))
      else (err conflict, (some (old, v), t))

  abbrev pub slots : Client Object (Slot Object)
  slots = record { get = slot_get; create = slot_create; update = slot_update }

  module _ {View : Type 0} (view : Object → View)
      (keeps_name : (v : Text) (o : Object) → name (with_version v o) ≡ name o)
      (sets_version : (v : Text) (o : Object) → version (with_version v o) ≡ v)
      (keeps_view : (v : Text) (o : Object) → view (with_version v o) ≡ view o) where
    slot_named :
        (s : Slot Object) (n : Text) (o : Object)
        → slot_get s n ≡ ok o
        → (name o ≡ n) × (version o ≢ [])
    unfolding slot_get
    slot_named (none, t) n o h = ground (arith, h)
    slot_named (some (old, v), t) n o h =
        ground
          (arith, (text_eq_iff (name old) n).0, keeps_name (1 ∷ v) old, sets_version (1 ∷ v) old)

    slot_created :
        (s s' : Slot Object) (o saved : Object)
        → slot_create s o ≡ (ok saved, s')
        → (slot_get s' (name o) ≡ ok saved) × (view saved ≡ view o)
    unfolding slot_create slot_get
    slot_created (none, t) s' o saved h =
        ground (arith, keeps_view (1 ∷ []) o, text_eq_refl (name o), h)
    slot_created (some old, t) s' o saved h = ground (arith, h)

    slot_updated :
        (s s' : Slot Object) (o saved : Object)
        → slot_update s o ≡ (ok saved, s')
        → (slot_get s' (name o) ≡ ok saved) × (view saved ≡ view o)
    unfolding slot_update slot_get
    slot_updated (none, t) s' o saved h = ground (arith, h)
    slot_updated (some (old, v), t) s' o saved h =
        ground (arith, keeps_view (1 ∷ 1 ∷ v) o, text_eq_refl (name o), h)

    slot_taken :
        (s s' : Slot Object) (o old saved : Object)
        → slot_get s (name o) ≡ ok old
        → slot_create s o ≢ (ok saved, s')
    unfolding slot_create slot_get
    slot_taken (none, t) s' o old saved got h = ground (arith, got)
    slot_taken (some there, t) s' o old saved got h = ground (arith, h)

    slot_stale :
        (s s' : Slot Object) (o old saved : Object)
        → slot_get s (name o) ≡ ok old
        → version o ≢ version old
        → slot_update s o ≢ (ok saved, s')
    unfolding slot_update slot_get
    slot_stale (none, t) s' o old saved got differs h = ground (arith, got)
    slot_stale (some (there, v), t) s' o old saved got differs h =
        ground
          (arith, (text_eq_iff (version o) (1 ∷ v)).0, sets_version (1 ∷ v) there, got, differs, h)

    slot_taken_kept :
        (s : Slot Object) (o old : Object)
        → slot_get s (name o) ≡ ok old
        → slot_get (slot_create s o).1 (name o) ≡ ok old
    unfolding slot_create slot_get
    slot_taken_kept (none, t) o old got = ground (arith, got)
    slot_taken_kept (some there, t) o old got = got

    slot_stale_kept :
        (s : Slot Object) (o old : Object)
        → slot_get s (name o) ≡ ok old
        → version o ≢ version old
        → slot_get (slot_update s o).1 (name o) ≡ ok old
    unfolding slot_update slot_get
    slot_stale_kept (none, t) o old got differs = got
    slot_stale_kept (some (there, v), t) o old got differs =
        ground
          (arith, (text_eq_iff (version o) (1 ∷ v)).0, sets_version (1 ∷ v) there, got, differs)

    slot_create_elsewhere :
        (s : Slot Object) (o : Object) (n : Text)
        → n ≢ name o
        → slot_get (slot_create s o).1 n ≡ slot_get s n
    unfolding slot_create slot_get
    slot_create_elsewhere (none, t) o n other = ground (arith, (text_eq_iff (name o) n).0, other)
    slot_create_elsewhere (some there, t) o n other = refl

    slot_update_elsewhere :
        (s : Slot Object) (o : Object) (n : Text)
        → n ≢ name o
        → slot_get (slot_update s o).1 n ≡ slot_get s n
    unfolding slot_update slot_get
    slot_update_elsewhere (none, t) o n other = refl
    slot_update_elsewhere (some (there, v), t) o n other = ground (
      arith,
      (text_eq_iff (name o) n).0,
      (text_eq_iff (name there) n).0,
      (text_eq_iff (name there) (name o)).0,
      other,
    )

    slot_moves :
        (s s' : Slot Object) (o old saved : Object)
        → slot_get s (name o) ≡ ok old
        → slot_update s o ≡ (ok saved, s')
        → version saved ≢ version old
    unfolding slot_update slot_get
    slot_moves (none, t) s' o old saved got h same = ground (arith, got)
    slot_moves (some (there, v), t) s' o old saved got h same =
        ground
          (arith, sets_version (1 ∷ v) there, sets_version (1 ∷ 1 ∷ v) o, longer v, got, h, same)

    pub slot-Laws : Laws slots name version view
    slot-Laws = record {
      named = λ s n o h. (slot_named s n o h).0;
      versioned = λ s n o h. (slot_named s n o h).1;
      created = slot_created;
      updated = slot_updated;
      taken = slot_taken;
      stale = λ s s' o old saved got some_version differs. slot_stale s s' o old saved got differs;
      taken_kept = slot_taken_kept;
      stale_kept = λ s o old got some_version differs. slot_stale_kept s o old got differs;
      create_elsewhere = slot_create_elsewhere;
      update_elsewhere = slot_update_elsewhere;
      moves = λ s s' o old saved got h same. ground (arith, slot_moves s s' o old saved got h same);
    }

    slot_create_lands :
        (s : Slot Object) (o : Object)
        → (slot_get (slot_create s o).1 (name o) ≡ slot_get s (name o))
          ⊎ ((saved : Object) × (slot_get (slot_create s o).1 (name o) ≡ ok saved)
              × (view saved ≡ view o)
              × ((old : Object) → slot_get s (name o) ≢ ok old))
    unfolding slot_create slot_get
    slot_create_lands (none, t) o = inr (
      with_version (1 ∷ []) o,
      (rw (text_eq_refl (name o)) refl),
      keeps_view (1 ∷ []) o,
      λ old e. ground (arith, e),
    )
    slot_create_lands (some there, t) o = inl refl

    slot_update_lands :
        (s : Slot Object) (o : Object)
        → (slot_get (slot_update s o).1 (name o) ≡ slot_get s (name o))
          ⊎ ((saved : Object) × (slot_get (slot_update s o).1 (name o) ≡ ok saved)
              × (view saved ≡ view o)
              × ((old : Object) × (slot_get s (name o) ≡ ok old)
                  × (version o ≢ [] → version o ≡ version old)
                  × (length (version old) < length (version saved))))
    unfolding slot_update slot_get
    slot_update_lands (none, t) o = inl refl
    slot_update_lands (some (old, v), t) o =
        elim (Bool-cases (text_eq (name old) (name o) && text_eq (version o) (1 ∷ v))) [
          | inr other ↦ inl (rw other refl)
          | inl matching ↦
              let named : text_eq (name old) (name o) ≡ true = ground (arith, matching) in
              let same : text_eq (version o) (1 ∷ v) ≡ true = ground (arith, matching) in
              inr (
                with_version (1 ∷ 1 ∷ v) o,
                (rw (matching, text_eq_refl (name o)) refl),
                keeps_view (1 ∷ 1 ∷ v) o,
                (
                  with_version (1 ∷ v) old,
                  (rw named refl),
                  (λ _. (text_eq_iff (version o) (1 ∷ v)).0 same ∙ sym (sets_version (1 ∷ v) old)),
                  rw (sets_version (1 ∷ v) old, sets_version (1 ∷ 1 ∷ v) o) (omega arith),
                ),
              )
        ]

    pub slot-WriteLaws : WriteLaws slots name version view length
    slot-WriteLaws = record { create_lands = slot_create_lands; update_lands = slot_update_lands }
