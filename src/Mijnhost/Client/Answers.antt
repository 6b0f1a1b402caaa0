-- ===== src/Mijnhost/Client/Answers.antt =====
-- mijnhost/client.go: which answers count.
use cert_manager_webhook_mij.Prelude.{
  ◌++◌, trim_suffix, ℕ, ◌≤◌, ◌<◌, ℤ, pos, negsuc, true, List, Text, codes, has_prefix, Option, none,
  some, Bool-cases, ◌≡◌, ◌↔◌, inl, inr, refl, arith,
}
use cert_manager_webhook_mij.Failure.{Result, ok, bind_ok, ok_injective}
use cert_manager_webhook_mij.Mijnhost.{DnsRecord}
use cert_manager_webhook_mij.Mijnhost.Client.{
  HttpResponse, ApiStatus, Web, Client, status_err, dns_path, do_request, get_records, put_records,
}

-- A status from 200 to 299.
abbrev pub IsAccepted : ApiStatus → Type 0
IsAccepted st = (n : ℕ) × (st.status ≡ pos n) × (200 ≤ n) × (n < 300)

module _ (web : Web) (c : Client) where
  -- A request was sent to mijn.host with the client's key, and answered by JSON that was read as `a`.
  pub record Received {ℓ} {A : Type ℓ} (decode : Text → Result A) (method path : Text)
      (body : Option Text) (a : A) : Type ℓ where
    pub url : Text
    pub response : HttpResponse
    pub resolved : web.resolve c.base_url path ≡ ok url
    pub sent :
        web.send (record { method = method; url = url; api_key = c.api_key; body = body })
        ≡ ok response
    pub json : has_prefix response.content_type (codes "application/json") ≡ true
    pub decoded : decode response.body ≡ ok a

  Received-do_request {ℓ} :
      {A : Type ℓ} (decode : Text → Result A) (method path : Text) (body : Option Text) (a : A)
      → do_request web c decode method path body ≡ ok a
      → Received decode method path body a
  unfolding do_request
  Received-do_request decode method path body a h =
      let (url, resolved, rest) = bind_ok (web.resolve c.base_url path) _ a h in
      let (response, sent, read) =
        bind_ok (web.send (record { method = method; url = url; api_key = c.api_key; body = body }))
          _ a rest in
      elim (Bool-cases (has_prefix response.content_type (codes "application/json"))) [
        | inl json ↦ record {
          url = url;
          response = response;
          resolved = resolved;
          sent = sent;
          json = json;
          decoded = rw json at read;
        }
        | inr other ↦ ground (arith, other, read)
      ]

  do_request-Received {ℓ} :
      {A : Type ℓ} (decode : Text → Result A) (method path : Text) (body : Option Text) (a : A)
      → Received decode method path body a
      → do_request web c decode method path body ≡ ok a
  unfolding do_request
  do_request-Received decode method path body a h = rw (h.resolved, h.sent, h.json) h.decoded

  status_lem : (s : ApiStatus) → (status_err s ≡ ok tt) ↔ IsAccepted s
  unfolding status_err
  status_lem s = status_cases s.status refl
    where
      status_cases : (i : ℤ) → s.status ≡ i → (status_err s ≡ ok tt) ↔ IsAccepted s
      status_cases (pos n) e = (
        (λ h. (n, e, ground (arith, h, e), ground (arith, h, e))),
        (λ (m, same, low, high). ground (arith, e, same, low, high)),
      )
      status_cases (negsuc n) e =
          ((λ h. ground (arith, h, e)), (λ (m, same, low, high). ground (arith, e, same)))

  -- Where the records of a zone are: under its name without a last dot, escaped.
  abbrev pub path_of : Text → Text
  path_of zone = codes "domains/" ++ (web.path_escape (trim_suffix zone b'.') ++ codes "/dns")

  -- GetRecords returns records exactly if mijn.host was asked for those of the zone, and answered by
  -- JSON with a status from 200 to 299 that holds them; anything else is an error.
  pub get_records-Received :
      (zone : Text) (records : List DnsRecord)
      → (get_records web c zone ≡ ok records) ↔ (
          (st : ApiStatus) × Received web.decode_records
            (codes "GET")
            (path_of zone)
            none
            (st, records)
          × IsAccepted st)
  unfolding get_records dns_path
  get_records-Received zone records = (
    (λ h.
        let ((st, found), read, rest) =
          bind_ok (do_request web c web.decode_records (codes "GET") (dns_path web c zone) none) _
            records h in
        let (u, good, same) = bind_ok (status_err st) _ records rest in
        (
          st,
          rw (← ok_injective found records same) (Received-do_request _ _ _ _ (st, found) read),
          (status_lem st).0 good,
        )),
    (λ (st, h, good).
        rw (do_request-Received _ _ _ _ (st, records) h, (status_lem st).1 good) refl),
  )

  -- PutRecords succeeds exactly if the encoded records were sent with the key of the client by a PUT to
  -- the path of the zone, domains/<name>/dns with the escaped name of the zone without a last dot, and
  -- mijn.host answered by JSON with a status from 200 to 299.
  pub put_records-Received :
      (zone : Text) (records : List DnsRecord)
      → (put_records web c zone records ≡ ok tt) ↔ (
          (body : Text) × (st : ApiStatus) × (web.encode_records records ≡ ok body)
          × Received web.decode_status (codes "PUT") (path_of zone) (some body) st
          × IsAccepted st)
  unfolding put_records dns_path
  put_records-Received zone records = (
    (λ h.
        let (body, encoded, rest) = bind_ok (web.encode_records records) _ tt h in
        let (st, read, good) =
          bind_ok
            (do_request web c web.decode_status (codes "PUT") (dns_path web c zone) (some body)) _
            tt rest in
        (body, st, encoded, Received-do_request _ _ _ _ st read, (status_lem st).0 good)),
    (λ (body, st, encoded, h, good).
        rw (encoded, do_request-Received _ _ _ _ st h) ((status_lem st).1 good)),
  )
