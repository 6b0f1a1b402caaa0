-- ===== src/Serial/Queries.antt =====
-- zone/serial.go: what a reader asks the resolver and the nameservers. Packages net, miekg/dns and
-- crypto/rand are arguments.
use cert_manager_webhook_mij.Prelude.{ℕ, ◌*◌, List, map, Text, codes, trim_suffix, ℤ, positive_or}
use cert_manager_webhook_mij.Failure.{Result, ok, err}
use cert_manager_webhook_mij.Serial.{Answer}

-- `dns.Msg`, as `soaQuery` fills it: a question for a SOA, and an option of EDNS0.
pub record DnsMsg : Type 0 where
  pub question : Text
  pub udp_size : ℕ
  pub option_code : ℕ
  pub option_data : Text

-- `LookupNS` of the system's resolver, which gives host names, `dns.Fqdn`, `net.JoinHostPort`, the
-- random bytes of a query, and `ExchangeContext` with the records of the answer.
pub record Resolver : Type 0 where
  pub lookup : Text → Result (List Text)
  pub fqdn : Text → Text
  pub join_host_port : (host port : Text) → Text
  pub random : (zone ns : Text) → Text
  pub send : DnsMsg → Text → Result (List Answer)

-- The timeout that `NewDNSSerialReader` sets, in nanoseconds.
unfoldable pub query_timeout : ℤ → ℕ
query_timeout timeout = positive_or (3 * 1_000_000_000) timeout

-- `soaQuery`, with its random bytes.
unfoldable pub soa_query : (Text → Text) → (data_bytes zone : Text) → DnsMsg
soa_query fqdn data_bytes zone = record {
  question = fqdn zone;
  udp_size = 1232;
  option_code = 65001;
  option_data = data_bytes;
}

module _ (net : Resolver) where
  -- `lookupNS` of `NewDNSSerialReader`
  unfoldable pub lookup_ns : Text → Result (List Text)
  unfolding trim_suffix
  lookup_ns zone = elim (net.lookup zone) [
    | err e ↦ err e
    | ok hosts ↦ ok (map (λ host. trim_suffix host b'.') hosts)
  ]

  -- The exchange of `Serial` with a nameserver.
  unfoldable pub exchange : (zone ns : Text) → Result (List Answer)
  unfolding soa_query
  exchange zone ns =
      net.send (soa_query net.fqdn (net.random zone ns) zone) (net.join_host_port ns (codes "53"))
