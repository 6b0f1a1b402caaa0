-- ===== src/Write/Clearing.antt =====
-- zone/reconciler.go: the serial check that clears a write.
use cert_manager_webhook_mij.Prelude.{
  ℕ, ◌≡◌, refl, Bool, true, false, not, ◌&&◌, arith, List, Text, Option, none, some, if◌then◌else◌,
  ◌==◌,
}
use cert_manager_webhook_mij.Failure.{Result, ok, err}
use cert_manager_webhook_mij.Mijnhost.{DnsRecord}
use cert_manager_webhook_mij.Store.{State}
use cert_manager_webhook_mij.World.{Log, Outside}
use cert_manager_webhook_mij.World.Triples.{
  Triple, Triple-pure, Triple-raise, Triple-call, Triple-if, Triple-bind, Triple-try,
}
use cert_manager_webhook_mij.Write.{
  Reconciler, Attempt, start_over, finished, read_serial, check_serial,
}
use cert_manager_webhook_mij.Write.Reading.{
  last_read, confirmed, serial_before, serial_after, SameSerial,
}
use cert_manager_webhook_mij.Write.Keeping.{Kept}
use cert_manager_webhook_mij.Write.Confirming.{Ready, Ready-serial_read, Seen}

-- A second serial that lets the PUT go out.
agree :
    (required readable : Bool) (before now : ℕ)
    → (readable && not (now == before)) ≡ false
    → (not readable && required) ≡ false
    → SameSerial required (some before) (if readable then some now else none)
agree required true before now stay go = ground arith
agree required false before now stay go = go

module _ (w : Outside) (r : Reconciler) (zone : Text) (st : State) where
  -- The serial was asked for again, behind the read.
  pub record AskedAgain (asked again : ℕ × Bool) (current : List DnsRecord) (l : Log) : Type 0 where
    pub ready : Ready w r zone st l
    pub read_first : last_read l ≡ some current
    pub trusted : confirmed l ≡ true
    pub before_read : asked.1 ≡ true → serial_before l ≡ some asked.0
    pub after_read : serial_after l ≡ (if again.1 then some again.0 else none)

  pub AskedAgain-read_serial :
      (asked : ℕ × Bool) (current : List DnsRecord)
      → Triple
          (Seen w r zone st asked current)
          (read_serial w r zone)
          (λ again. AskedAgain asked again current)
          (Kept r zone)
  unfolding read_serial
  AskedAgain-read_serial asked current =
      Triple-if r.has_serial _ _
        (λ _.
          Triple-bind answered _ _
            (Triple-try {E = AskedAgain asked (0, false) current} {Q = λ s. answered (ok s)} _
              (Triple-call _ _
                (λ l s h. record {
                  ready = Ready-serial_read w r zone st zone (ok s) h.ready;
                  read_first = h.read_first;
                  trusted = h.trusted;
                  before_read = h.before_read;
                  after_read = refl;
                })
                (λ l e h. record {
                  ready = Ready-serial_read w r zone st zone (err e) h.ready;
                  read_first = h.read_first;
                  trusted = h.trusted;
                  before_read = h.before_read;
                  after_read = refl;
                }))
              (λ s l h. h) (λ e l h. h))
            (λ a. Triple-pure _ (λ l h. h)))
        (λ _. Triple-pure _ (λ l h. record {
          ready = h.ready;
          read_first = h.read_first;
          trusted = h.trusted;
          before_read = h.before_read;
          after_read = h.none_after;
        }))
    where
      answered : Result ℕ → Log → Type 0
      answered a =
          AskedAgain asked (elim a [ ok serial ↦ (serial, true) | err e ↦ (0, false) ]) current

  -- The PUT may go out.
  pub record Cleared (current : List DnsRecord) (l : Log) : Type 0 where
    pub ready : Ready w r zone st l
    pub read_first : last_read l ≡ some current
    pub trusted : confirmed l ≡ true
    pub unmoved : SameSerial r.serial_required (serial_before l) (serial_after l)

  abbrev pub Verdict : List DnsRecord → Attempt → Log → Type 0
  Verdict current start_over l = Ready w r zone st l
  Verdict current finished l = Cleared current l

  not_required : (b : Option ℕ) → r.serial_required ≡ false → SameSerial r.serial_required b none
  not_required none h = h
  not_required (some s) h = h

  pub Cleared-unchecked :
      {asked : ℕ × Bool} {current : List DnsRecord} {l : Log}
      → r.serial_required ≡ false
      → Seen w r zone st asked current l
      → Cleared current l
  Cleared-unchecked {l} off h = record {
    ready = h.ready;
    read_first = h.read_first;
    trusted = h.trusted;
    unmoved = rw h.none_after (not_required (serial_before l) off);
  }

  pub Verdict-check_serial :
      (before : ℕ) (checkable : Bool) (current : List DnsRecord)
      → (r.serial_required && not checkable) ≡ false
      → Triple
          (Seen w r zone st (before, checkable) current)
          (check_serial w r zone before checkable)
          (Verdict current)
          (Kept r zone)
  unfolding check_serial
  Verdict-check_serial before false current ask =
      Triple-pure finished (λ l h. Cleared-unchecked (ground arith) h)
  Verdict-check_serial before true current ask =
      Triple-bind (λ again. AskedAgain (before, true) again current) _ _
        (AskedAgain-read_serial (before, true) current)
        (λ (now, readable).
          Triple-if (readable && not (now == before)) _ _
            (λ _. Triple-pure start_over (λ l h. h.ready))
            (λ stay.
              Triple-if (not readable && r.serial_required) _ _
                (λ _. Triple-raise _ (λ l h. h.ready.kept))
                (λ go. Triple-pure finished (λ l h. record {
                  ready = h.ready;
                  read_first = h.read_first;
                  trusted = h.trusted;
                  unmoved =
                      rw (h.before_read refl, h.after_read)
                        (agree r.serial_required readable before now stay go);
                }))))
