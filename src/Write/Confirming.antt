-- ===== src/Write/Confirming.antt =====
-- zone/reconciler.go: the serial and the two reads before a write, and the records to send.
use cert_manager_webhook_mij.Prelude.{
  ℕ, ◌≡◌, ◌≢◌, refl, Bool, true, false, arith, List, [], ◌∷◌, Text, none, some,
}
use cert_manager_webhook_mij.Failure.{Result, ok, err}
use cert_manager_webhook_mij.Mijnhost.{DnsRecord}
use cert_manager_webhook_mij.Payload.{is_empty, placeholder}
use cert_manager_webhook_mij.Payload.View.{foreign}
use cert_manager_webhook_mij.Store.{State}
use cert_manager_webhook_mij.World.{Log, Outside, serial_read, got, clocked}
use cert_manager_webhook_mij.World.Triples.{
  Triple, Triple-pure, Triple-call, Triple-tell, Triple-if, Triple-bind, Triple-try,
}
use cert_manager_webhook_mij.Write.{Reconciler, has_own_records, read_serial, read_zone, fill_empty}
use cert_manager_webhook_mij.Write.Reading.{
  last_read, bare_read, confirmed, newest_serial, serial_before, serial_after, last_saved,
}
use cert_manager_webhook_mij.Write.Keeping.{
  has_own_records_lem, Kept, Kept-clocked, Kept-got, Kept-serial_read,
}

module _ (w : Outside) (r : Reconciler) (zone : Text) (st : State) where
  -- Before every pass: the state is saved too.
  pub record Ready (l : Log) : Type 0 where
    pub kept : Kept r zone l
    pub saved_first : last_saved l ≡ some st

  pub Ready-serial_read :
      {l : Log} (z : Text) (a : Result ℕ) → Ready l → Ready (serial_read z a ∷ l)
  Ready-serial_read z a h = record {
    kept = Kept-serial_read z a h.kept;
    saved_first = h.saved_first;
  }

  pub Ready-got :
      {l : Log} (k z : Text) (a : Result (List DnsRecord)) → Ready l → Ready (got k z a ∷ l)
  Ready-got k z a h = record { kept = Kept-got k z a h.kept; saved_first = h.saved_first }

  pub Ready-clocked : {l : Log} (t : ℕ) → Ready l → Ready (clocked t ∷ l)
  Ready-clocked t h = record { kept = Kept-clocked t h.kept; saved_first = h.saved_first }

  -- A serial was asked for: it is the newest call if it is there.
  pub record Asked (answer : ℕ × Bool) (l : Log) : Type 0 where
    pub ready : Ready l
    pub newest : answer.1 ≡ true → newest_serial l ≡ some answer.0

  pub Asked-answer :
      {l : Log}
      → Ready l
      → (a : Result ℕ)
      → Asked (elim a [ ok serial ↦ (serial, true) | err e ↦ (0, false) ]) (serial_read zone a ∷ l)
  Asked-answer h (ok s) = record { ready = Ready-serial_read zone (ok s) h; newest = λ _. refl }
  Asked-answer h (err e) = record { ready = Ready-serial_read zone (err e) h; newest = λ p. cc }

  pub Asked-read_serial : Triple Ready (read_serial w r zone) Asked (Kept r zone)
  unfolding read_serial
  Asked-read_serial =
      Triple-if r.has_serial _ _
        (λ _.
          Triple-bind answered _ _
            (Triple-try {E = Asked (0, false)} {Q = λ s. answered (ok s)} _
              (Triple-call _ _ (λ l s h. Asked-answer h (ok s)) (λ l e h. Asked-answer h (err e)))
              (λ s l h. h) (λ e l h. h))
            (λ a. Triple-pure _ (λ l h. h)))
        (λ _. Triple-pure _ (λ l h. record { ready = h; newest = λ p. cc }))
    where
      answered : Result ℕ → Log → Type 0
      answered a = Asked (elim a [ ok serial ↦ (serial, true) | err e ↦ (0, false) ])

  -- The zone was read: the records, and what was asked before them.
  pub record Seen (asked : ℕ × Bool) (current : List DnsRecord) (l : Log) : Type 0 where
    pub ready : Ready l
    pub read_first : last_read l ≡ some current
    pub trusted : confirmed l ≡ true
    pub before_read : asked.1 ≡ true → serial_before l ≡ some asked.0
    pub none_after : serial_after l ≡ none

  -- A first read, and the one that confirms it.
  pub record SeenOnce (asked : ℕ × Bool) (rs : List DnsRecord) (l : Log) : Type 0 where
    pub ready : Ready l
    pub read_first : last_read l ≡ some rs
    pub bare : bare_read l ≡ is_empty (foreign rs)
    pub newest : asked.1 ≡ true → newest_serial l ≡ some asked.0
    pub before_read : asked.1 ≡ true → serial_before l ≡ some asked.0
    pub none_after : serial_after l ≡ none
    pub trusted : has_own_records rs ≡ true → confirmed l ≡ true

  pub Seen-read_zone :
      (api_key : Text) (asked : ℕ × Bool)
      → Triple (Asked asked) (read_zone w r api_key zone) (Seen asked) (Kept r zone)
  unfolding read_zone
  Seen-read_zone api_key asked =
      Triple-bind (SeenOnce asked) _ _
        (Triple-call _ _
          (λ l rs h. record {
            ready = Ready-got api_key zone (ok rs) h.ready;
            read_first = refl;
            bare = refl;
            newest = h.newest;
            before_read = h.newest;
            none_after = refl;
            trusted = λ own. ground (arith, own, has_own_records_lem rs);
          })
          (λ l e h. Kept-got api_key zone (err e) h.ready.kept))
        (λ rs.
          Triple-if (has_own_records rs) _ _
            (λ own. Triple-pure rs (λ l h. record {
              ready = h.ready;
              read_first = h.read_first;
              trusted = h.trusted own;
              before_read = h.before_read;
              none_after = h.none_after;
            }))
            (λ none_own.
              Triple-call _ _
                (λ l rs' h. record {
                  ready = Ready-got api_key zone (ok rs') h.ready;
                  read_first = refl;
                  trusted = ground (arith, none_own, h.bare, has_own_records_lem rs);
                  before_read = h.newest;
                  none_after = refl;
                })
                (λ l e h. Kept-got api_key zone (err e) h.ready.kept)))

  -- The records to send, against those that were computed.
  pub record Filled (computed records : List DnsRecord) : Type 0 where
    pub not_empty : records ≢ []
    pub same : computed ≢ [] → records ≡ computed
    pub filled : computed ≡ [] → (date : Text) × (records ≡ placeholder zone date ∷ [])

  pub Filled-fill_empty :
      (asked : ℕ × Bool) (current computed : List DnsRecord)
      → Triple
          (Seen asked current)
          (fill_empty w r zone computed)
          (λ records l. Seen asked current l × Filled computed records)
          (Kept r zone)
  unfolding fill_empty
  Filled-fill_empty asked current [] =
      Triple-bind (λ _. Seen asked current) _ _
        (Triple-tell _ _ (λ l t h. record {
          ready = Ready-clocked t h.ready;
          read_first = h.read_first;
          trusted = h.trusted;
          before_read = h.before_read;
          none_after = h.none_after;
        }))
        (λ now. Triple-pure _ (λ l h. (
          h,
          record {
            not_empty = λ e. cc;
            same = λ n. absurd (n refl);
            filled = λ _. (w.date now, refl);
          },
        )))
  Filled-fill_empty asked current (x ∷ xs) =
      Triple-pure _
        (λ l h. (h, record { not_empty = λ e. cc; same = λ _. refl; filled = λ e. absurd (cc e) }))
