-- ===== src/Write/Keeping.antt =====
-- zone/reconciler.go: what every call keeps while the zone is locked.
use cert_manager_webhook_mij.Prelude.{
  ℕ, text_eq, ◌≡◌, refl, true, false, not, arith, List, [], ◌∷◌, Text,
}
use cert_manager_webhook_mij.Failure.{Result}
use cert_manager_webhook_mij.Mijnhost.{DnsRecord}
use cert_manager_webhook_mij.Payload.{is_empty}
use cert_manager_webhook_mij.Payload.View.{foreign}
use cert_manager_webhook_mij.Store.{SecretRef, Handle}
use cert_manager_webhook_mij.World.{Log, loaded, saved, key_read, serial_read, got, put, clocked}
use cert_manager_webhook_mij.Write.{Reconciler, has_own_records}
use cert_manager_webhook_mij.Write.Reading.{holds_lock, MayPut, SafePuts}

pub has_own_records_lem : (rs : List DnsRecord) → has_own_records rs ≡ not (is_empty (foreign rs))
unfolding has_own_records
has_own_records_lem [] = refl
has_own_records_lem (r ∷ rs) = ground (arith, has_own_records_lem rs)

-- The lock of the zone is held, and no other, and every PUT so far was allowed.
pub record Kept (r : Reconciler) (zone : Text) (l : Log) : Type 0 where
  pub safe : SafePuts r l
  pub locked : holds_lock zone l ≡ true
  pub elsewhere : (z : Text) → text_eq zone z ≡ false → holds_lock z l ≡ false

module _ {r : Reconciler} {zone : Text} {l : Log} where
  pub Kept-serial_read :
      (z : Text) (a : Result ℕ) → Kept r zone l → Kept r zone (serial_read z a ∷ l)
  Kept-serial_read z a h = record { safe = h.safe; locked = h.locked; elsewhere = h.elsewhere }

  pub Kept-got :
      (k z : Text) (a : Result (List DnsRecord)) → Kept r zone l → Kept r zone (got k z a ∷ l)
  Kept-got k z a h = record { safe = h.safe; locked = h.locked; elsewhere = h.elsewhere }

  pub Kept-clocked : (t : ℕ) → Kept r zone l → Kept r zone (clocked t ∷ l)
  Kept-clocked t h = record { safe = h.safe; locked = h.locked; elsewhere = h.elsewhere }

  pub Kept-loaded : (z : Text) (a : Result Handle) → Kept r zone l → Kept r zone (loaded z a ∷ l)
  Kept-loaded z a h = record { safe = h.safe; locked = h.locked; elsewhere = h.elsewhere }

  pub Kept-saved :
      (x : Handle) (a : Result (Unit {0})) → Kept r zone l → Kept r zone (saved x a ∷ l)
  Kept-saved x a h = record { safe = h.safe; locked = h.locked; elsewhere = h.elsewhere }

  pub Kept-key_read :
      (ref : SecretRef) (a : Result Text) → Kept r zone l → Kept r zone (key_read ref a ∷ l)
  Kept-key_read ref a h = record { safe = h.safe; locked = h.locked; elsewhere = h.elsewhere }

  pub Kept-put :
      (api_key : Text) (records : List DnsRecord) (a : Result (Unit {0}))
      → MayPut r zone records l
      → Kept r zone l
      → Kept r zone (put api_key zone records a ∷ l)
  Kept-put api_key records a may h = record {
    safe = (may, h.safe);
    locked = h.locked;
    elsewhere = h.elsewhere;
  }
