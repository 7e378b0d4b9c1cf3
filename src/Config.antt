-- ===== src/Config.antt =====
-- internal/config/config.go: the sections of the configuration and Defaults; Load has the rest. Numbers
-- of the configuration are not negative.
pub mod Load
use ghostmail.Prelude.{
  ℕ, Bool, true, false, ◌&&◌, ◌||◌, not, Option, none, some, List, [], ◌∷◌, map, any, all, equal,
  ltb, length, take, ◌-◌, if◌then◌else◌, Bytes, codes, ◌≡◌, refl,
}
use ghostmail.Result.{no_rows, invalid_request, Result, ok, err, ◌>>=◌}
use ghostmail.Text.{to_lower, has_suffix}
use ghostmail.Crypto.Envelope.{or_error}

pub record WebmailConfig : Type 0 where
  pub enabled : Bool

pub record ServerConfig : Type 0 where
  pub hostname : Bytes
  pub data_dir : Bytes
  pub pid_file : Bytes
  pub log_level : Bytes

pub record TlsConfig : Type 0 where
  pub cert_file : Bytes
  pub key_file : Bytes
  pub min_version : Bytes

pub record OutboundConfig : Type 0 where
  pub enabled : Bool
  pub max_retries : ℕ
  pub retry_base_delay : Bytes
  pub dead_letter_after : Bytes
  pub concurrent_deliveries : ℕ

pub record SmtpConfig : Type 0 where
  pub listen_addr : Bytes
  pub submission_addr : Bytes
  pub max_message_size : ℕ
  pub max_recipients : ℕ
  pub require_tls : Bool
  pub greeting : Bytes
  pub outbound : OutboundConfig

pub record ImapConfig : Type 0 where
  pub listen_addr : Bytes
  pub idle_timeout : Bytes
  pub max_connections : ℕ

pub record CryptoConfig : Type 0 where
  pub argon2_time : ℕ
  pub argon2_memory : ℕ
  pub argon2_threads : ℕ
  pub session_key_ttl : Bytes

pub record AdminConfig : Type 0 where
  pub enabled : Bool
  pub listen_addr : Bytes

pub record TorConfig : Type 0 where
  pub enabled : Bool
  pub control_addr : Bytes
  pub auth_cookie_path : Bytes

pub record AliasConfig : Type 0 where
  pub enabled : Bool
  pub max_per_user : ℕ
  pub default_domain : Bytes

pub record ExpiryConfig : Type 0 where
  pub default_ttl : Bytes
  pub trash_ttl : Bytes
  pub spam_ttl : Bytes
  pub sweep_interval : Bytes
  pub vacuum_interval : Bytes

pub record PrivacyConfig : Type 0 where
  pub strip_received_headers : Bool
  pub strip_user_agent : Bool
  pub strip_x_originating_ip : Bool
  pub normalize_message_id : Bool
  pub log_ips : Bool

pub record DkimConfig : Type 0 where
  pub selector : Bytes
  pub key_bits : ℕ

pub record DnsConfig : Type 0 where
  pub provider : Bytes
  pub api_key : Bytes
  pub auto_setup : Bool

pub record SubdomainConfig : Type 0 where
  pub enabled : Bool
  pub parent_domain : Bytes
  pub max_per_ip : ℕ

pub record Config : Type 0 where
  pub server : ServerConfig
  pub tls : TlsConfig
  pub smtp : SmtpConfig
  pub imap : ImapConfig
  pub crypto : CryptoConfig
  pub admin : AdminConfig
  pub webmail : WebmailConfig
  pub tor : TorConfig
  pub aliases : AliasConfig
  pub expiry : ExpiryConfig
  pub privacy : PrivacyConfig
  pub dkim : DkimConfig
  pub dns : DnsConfig
  pub subdomain : SubdomainConfig

unfoldable pub defaults : Config
defaults = record {
  server = record {
    hostname = codes "localhost";
    data_dir = codes "/var/lib/ghostmail";
    pid_file = [];
    log_level = codes "info";
  };
  tls = record { cert_file = []; key_file = []; min_version = codes "1.2" };
  smtp = record {
    listen_addr = codes ":25";
    submission_addr = codes ":587";
    max_message_size = 26214400;
    max_recipients = 100;
    require_tls = true;
    greeting = codes "GhostMail ESMTP";
    outbound = record {
      enabled = true;
      max_retries = 8;
      retry_base_delay = codes "1m";
      dead_letter_after = codes "48h";
      concurrent_deliveries = 4;
    };
  };
  imap = record { listen_addr = codes ":993"; idle_timeout = codes "30m"; max_connections = 100 };
  crypto = record {
    argon2_time = 3;
    argon2_memory = 65536;
    argon2_threads = 4;
    session_key_ttl = codes "30m";
  };
  admin = record { enabled = true; listen_addr = codes ":8443" };
  webmail = record { enabled = true };
  tor = record { enabled = false; control_addr = codes "127.0.0.1:9051"; auth_cookie_path = [] };
  aliases = record { enabled = true; max_per_user = 50; default_domain = [] };
  expiry = record {
    default_ttl = [];
    trash_ttl = codes "30d";
    spam_ttl = codes "7d";
    sweep_interval = codes "5m";
    vacuum_interval = codes "24h";
  };
  privacy = record {
    strip_received_headers = true;
    strip_user_agent = true;
    strip_x_originating_ip = true;
    normalize_message_id = true;
    log_ips = false;
  };
  dkim = record { selector = codes "ghostmail"; key_bits = 2048 };
  dns = record { provider = []; api_key = []; auto_setup = false };
  subdomain = record { enabled = false; parent_domain = []; max_per_ip = 3 };
}
