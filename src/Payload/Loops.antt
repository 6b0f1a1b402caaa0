-- ===== src/Payload/Loops.antt =====
-- The two loops of `ComputePayload` without their accumulators.
use mathlib.Core.List.{append_assoc, append-nil}
use cert_manager_webhook_mij.Prelude.{
  ◌≡◌, refl, sym, Bool, true, not, ◌||◌, arith, List, [], ◌∷◌, ◌++◌, Option, none, some, keep,
  if◌then◌else◌,
}
use cert_manager_webhook_mij.Mijnhost.{DnsRecord}
use cert_manager_webhook_mij.Payload.{
  Key, key, key_eq_iff, write, is_challenge_record, is_wanted, Build, visit_api, api_loop,
  visit_desired, desired_loop,
}
use cert_manager_webhook_mij.Payload.View.{has_challenge}

abbrev pub missing : (Key → Bool) → List DnsRecord → List DnsRecord
missing present = keep (λ r. not (present (key r)))

module _ (wanted : Key → DnsRecord) (dropping : Key → Bool) (own_all : Bool) where
  -- What becomes of a challenge record that the zone shows for the first time.
  abbrev pub settled : DnsRecord → Option DnsRecord
  settled r =
      if is_wanted wanted (key r)
      then some (wanted (key r))
      else if own_all || dropping (key r)
      then none
      else some r

  abbrev pub push : Option DnsRecord → List DnsRecord → List DnsRecord
  push none rs = rs
  push (some r) rs = r ∷ rs

  abbrev pub push_dropped : Option DnsRecord → DnsRecord → List DnsRecord → List DnsRecord
  push_dropped none r rs = r ∷ rs
  push_dropped (some s) r rs = rs

  -- What the loop over `api` puts into the payload, and what it lists as removed.
  unfoldable pub survivors : (Key → Bool) → List DnsRecord → List DnsRecord
  survivors present [] = []
  survivors present (r ∷ rs) =
      let passed = r ∷ survivors present rs in
      let skipped = survivors present rs in
      let fresh = push (settled r) (survivors (write present (key r) true) rs) in
      if not (is_challenge_record r) then passed else if present (key r) then skipped else fresh

  unfoldable pub casualties : (Key → Bool) → List DnsRecord → List DnsRecord
  casualties present [] = []
  casualties present (r ∷ rs) =
      let skipped = casualties present rs in
      let fresh = push_dropped (settled r) r (casualties (write present (key r) true) rs) in
      if not (is_challenge_record r) then skipped else if present (key r) then skipped else fresh

  -- The fields of the loop's result.
  pub record LoopResult (b : Build) (rs : List DnsRecord) (out : Build) : Type 0 where
    pub payload : out.payload ≡ b.payload ++ survivors b.present rs
    pub remove : out.diff.remove ≡ b.diff.remove ++ casualties b.present rs
    pub add : out.diff.add ≡ b.diff.add
    pub present : (k : Key) → out.present k ≡ (b.present k || has_challenge k rs)

  -- One round of the loop, put in front of the rest.
  LoopResult-cons :
      (r : DnsRecord) (rs : List DnsRecord) (b out : Build)
      → LoopResult (visit_api wanted dropping own_all b r) rs out
      → LoopResult b (r ∷ rs) out
  unfolding visit_api survivors casualties
  LoopResult-cons r rs b out rest =
      let next : Key → Bool = write b.present (key r) true in
      record {
        payload = ground (
          arith,
          rest.payload,
          append_assoc b.payload (r ∷ []) (survivors b.present rs),
          append_assoc b.payload (r ∷ []) (survivors next rs),
          append_assoc b.payload (wanted (key r) ∷ []) (survivors next rs),
        );
        remove =
            ground (arith, rest.remove, append_assoc b.diff.remove (r ∷ []) (casualties next rs));
        add = ground (arith, rest.add);
        present = λ k. ground (arith, rest.present k, key_eq_iff (key r) k);
      }

  pub api_loop_lem :
      (rs : List DnsRecord) (b : Build) → LoopResult b rs (api_loop wanted dropping own_all b rs)
  unfolding api_loop
  api_loop_lem [] b = record {
    payload = unfold survivors in sym (append-nil b.payload);
    remove = unfold casualties in sym (append-nil b.diff.remove);
    add = refl;
    present = λ k. ground arith;
  }
  api_loop_lem (r ∷ rs) b =
      LoopResult-cons r rs b _ (api_loop_lem rs (visit_api wanted dropping own_all b r))

-- The loop over `desired` appends what is missing, to the payload and to `add`.
pub record Appended (b : Build) (extra : List DnsRecord) (out : Build) : Type 0 where
  pub payload : out.payload ≡ b.payload ++ extra
  pub add : out.diff.add ≡ b.diff.add ++ extra
  pub remove : out.diff.remove ≡ b.diff.remove
  pub kept : out.diff.kept ≡ b.diff.kept

Appended-cons :
    (r : DnsRecord) (rs : List DnsRecord) (b out : Build)
    → Appended (visit_desired b r) (missing (visit_desired b r).present rs) out
    → Appended b (missing b.present (r ∷ rs)) out
unfolding visit_desired
Appended-cons r rs b out rest = record {
  payload = ground (arith, rest.payload, append_assoc b.payload (r ∷ []) (missing b.present rs));
  add = ground (arith, rest.add, append_assoc b.diff.add (r ∷ []) (missing b.present rs));
  remove = ground (arith, rest.remove);
  kept = ground (arith, rest.kept);
}

pub desired_loop_lem :
    (ds : List DnsRecord) (b : Build) → Appended b (missing b.present ds) (desired_loop b ds)
unfolding desired_loop
desired_loop_lem [] b = record {
  payload = sym (append-nil b.payload);
  add = sym (append-nil b.diff.add);
  remove = refl;
  kept = refl;
}
desired_loop_lem (r ∷ rs) b = Appended-cons r rs b _ (desired_loop_lem rs (visit_desired b r))
