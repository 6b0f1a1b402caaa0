-- ===== src/Mijnhost.antt =====
-- mijnhost/client.go
pub mod Client
use cert_manager_webhook_mij.Prelude.{ℤ, Text}

-- `DNSRecord`
pub record DnsRecord : Type 0 where
  pub type : Text
  pub name : Text
  pub value : Text
  pub ttl : ℤ
