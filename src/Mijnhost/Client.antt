-- ===== src/Mijnhost/Client.antt =====
-- mijnhost/client.go: the requests to mijn.host. HTTP, URLs and JSON are other packages: arguments.
pub mod Answers
use cert_manager_webhook_mij.Prelude.{
  ℕ, suc, ◌+◌, Bool, true, false, not, ◌&&◌, List, [], ◌∷◌, ◌++◌, Text, codes, has_prefix, text_eq,
  trim_suffix, ltb, leb, if◌then◌else◌, ℤ, pos, negsuc, Option, none, some,
}
use cert_manager_webhook_mij.Failure.{non_json, api_status, Failure, Result, ok, err, ◌>>=◌}
use cert_manager_webhook_mij.Mijnhost.{DnsRecord}

-- `http.Request`, as the client fills it. The other headers are constant.
pub record HttpRequest : Type 0 where
  pub method : Text
  pub url : Text
  pub api_key : Text
  pub body : Option Text

-- `http.Response`
pub record HttpResponse : Type 0 where
  pub status_code : ℕ
  pub content_type : Text
  pub body : Text

-- `apiStatus`
pub record ApiStatus : Type 0 where
  pub status : ℤ
  pub status_description : Text

-- What the client calls: the transport, `base.ResolveReference` of two parsed URLs,
-- `url.PathEscape`, and the JSON of each body.
pub record Web : Type 0 where
  pub send : HttpRequest → Result HttpResponse
  pub resolve : (base path : Text) → Result Text
  pub path_escape : Text → Text
  pub encode_records : List DnsRecord → Result Text
  pub decode_status : Text → Result ApiStatus
  pub decode_records : Text → Result (ApiStatus × List DnsRecord)
  pub decode_domains : Text → Result (ApiStatus × List Text)

-- `Client`
pub record Client : Type 0 where
  pub base_url : Text
  pub api_key : Text

abbrev pub default_base_url : Text
default_base_url = codes "https://mijn.host/api/v2/"

-- `NewClient`
abbrev pub new_client : Text → Client
new_client key = record { base_url = default_base_url; api_key = key }

abbrev pub is_success : ℤ → Bool
is_success (pos n) = leb 200 n && ltb n 300
is_success (negsuc n) = false

-- `apiStatus.err`
unfoldable pub status_err : ApiStatus → Result (Unit {0})
status_err s = if is_success s.status then ok tt else err (api_status s.status)

-- `countChallengeRecords`
unfoldable pub count_challenge_records : List DnsRecord → ℕ
unfolding text_eq has_prefix
count_challenge_records [] = 0
count_challenge_records (r ∷ rs) =
    let n = count_challenge_records rs in
    if text_eq r.type (codes "TXT") && has_prefix r.name (codes "_acme-challenge.")
    then n + 1
    else n

module _ (web : Web) (c : Client) where
  -- `dnsPath`
  unfoldable pub dns_path : Text → Text
  unfolding trim_suffix
  dns_path zone = codes "domains/" ++ (web.path_escape (trim_suffix zone b'.') ++ codes "/dns")

  -- `do`, with the decoder of what it fills in. A body of another type than JSON is not read.
  unfoldable pub do_request {ℓ} :
      {A : Type ℓ} → (Text → Result A) → (method path : Text) → Option Text → Result A
  unfolding has_prefix
  do_request decode method path body = web.resolve c.base_url path >>= λ url.
      web.send (record { method = method; url = url; api_key = c.api_key; body = body }) >>= λ resp.
      if has_prefix resp.content_type (codes "application/json")
      then decode resp.body
      else err (non_json resp.status_code)

  -- `GetRecords`
  unfoldable pub get_records : Text → Result (List DnsRecord)
  unfolding do_request dns_path status_err
  get_records zone =
      do_request web.decode_records (codes "GET") (dns_path zone) none >>= λ (st, records).
      status_err st >>= λ _. ok records

  -- `PutRecords`
  unfoldable pub put_records : Text → List DnsRecord → Result (Unit {0})
  unfolding do_request dns_path status_err
  put_records zone records = web.encode_records records >>= λ body.
      do_request web.decode_status (codes "PUT") (dns_path zone) (some body) >>= λ st. status_err st

  -- `ListDomains`
  unfoldable pub list_domains : Result (List Text)
  unfolding do_request status_err
  list_domains =
      do_request web.decode_domains (codes "GET") (codes "domains") none >>= λ (st, domains).
      status_err st >>= λ _. ok domains
