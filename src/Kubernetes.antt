-- ===== src/Kubernetes.antt =====
-- The Kubernetes client that zone/lock.go and zone/store.go call: a parameter, with the documented
-- behaviour that they rely on. `State` is the cluster, other clients and the clock included.
use cert_manager_webhook_mij.Prelude.{
  ℕ, ◌<◌, ◌⊎◌, ◌≡◌, ◌≢◌, List, [], ◌∷◌, Text, text_eq, if◌then◌else◌, Option, none, some,
}
use cert_manager_webhook_mij.Failure.{Result, ok}

-- A map of the API's objects, such as labels. A missing key gives the empty text.
abbrev pub Dict : Type 0
Dict = List (Text × Text)

unfoldable pub lookup : Text → Dict → Text
unfolding text_eq
lookup k [] = []
lookup k ((a, v) ∷ d) = let rest = lookup k d in if text_eq a k then v else rest

-- The value of a key that may be missing.
unfoldable pub find : Text → Dict → Option Text
unfolding text_eq
find k [] = none
find k ((a, v) ∷ d) = let rest = find k d in if text_eq a k then some v else rest

-- The calls for one kind of object in one namespace.
pub record Client {ℓ} (Object : Type 0) (State : Type ℓ) : Type ℓ where
  pub get : State → Text → Result Object
  pub create : State → Object → Result Object × State
  pub update : State → Object → Result Object × State

-- What the API promises. `view` is what it stores of an object as it is sent, which leaves out the
-- version; a call may also fail for any other reason.
pub record Laws {ℓ} {Object View : Type 0} {State : Type ℓ} (c : Client Object State)
    (name version : Object → Text) (view : Object → View) : Type ℓ where
  pub named : (s : State) (n : Text) (o : Object) → c.get s n ≡ ok o → name o ≡ n
  pub versioned : (s : State) (n : Text) (o : Object) → c.get s n ≡ ok o → version o ≢ []
  pub created :
      (s s' : State) (o saved : Object)
      → c.create s o ≡ (ok saved, s')
      → (c.get s' (name o) ≡ ok saved) × (view saved ≡ view o)
  pub updated :
      (s s' : State) (o saved : Object)
      → c.update s o ≡ (ok saved, s')
      → (c.get s' (name o) ≡ ok saved) × (view saved ≡ view o)
  -- A name that is taken is not created again.
  pub taken :
      (s s' : State) (o old saved : Object)
      → c.get s (name o) ≡ ok old
      → c.create s o ≢ (ok saved, s')
  -- An update from another version than the stored one is refused.
  pub stale :
      (s s' : State) (o old saved : Object)
      → c.get s (name o) ≡ ok old
      → version o ≢ []
      → version o ≢ version old
      → c.update s o ≢ (ok saved, s')
  -- A refused call stores nothing.
  pub taken_kept :
      (s : State) (o old : Object)
      → c.get s (name o) ≡ ok old
      → c.get (c.create s o).1 (name o) ≡ ok old
  pub stale_kept :
      (s : State) (o old : Object)
      → c.get s (name o) ≡ ok old
      → version o ≢ []
      → version o ≢ version old
      → c.get (c.update s o).1 (name o) ≡ ok old
  -- A call is about the object of its name.
  pub create_elsewhere :
      (s : State) (o : Object) (n : Text) → n ≢ name o → c.get (c.create s o).1 n ≡ c.get s n
  pub update_elsewhere :
      (s : State) (o : Object) (n : Text) → n ≢ name o → c.get (c.update s o).1 n ≡ c.get s n
  -- The version stays only where nothing changed.
  pub moves :
      (s s' : State) (o old saved : Object)
      → c.get s (name o) ≡ ok old
      → c.update s o ≡ (ok saved, s')
      → version saved ≡ version old
      → view saved ≡ view old

-- What a write may do to the object of its name, whether its answer is an error or not: nothing, or
-- what it was sent to do. `rank` orders the versions, which only grow.
pub record WriteLaws {ℓ} {Object View : Type 0} {State : Type ℓ} (c : Client Object State)
    (name version : Object → Text) (view : Object → View) (rank : Text → ℕ) : Type ℓ where
  pub create_lands :
      (s : State) (o : Object)
      → (c.get (c.create s o).1 (name o) ≡ c.get s (name o))
        ⊎ ((saved : Object) × (c.get (c.create s o).1 (name o) ≡ ok saved)
            × (view saved ≡ view o)
            × ((old : Object) → c.get s (name o) ≢ ok old))
  pub update_lands :
      (s : State) (o : Object)
      → (c.get (c.update s o).1 (name o) ≡ c.get s (name o))
        ⊎ ((saved : Object) × (c.get (c.update s o).1 (name o) ≡ ok saved)
            × (view saved ≡ view o)
            × ((old : Object) × (c.get s (name o) ≡ ok old)
                × (version o ≢ [] → version o ≡ version old)
                × (rank (version old) < rank (version saved))))
