-- ===== src/Config/Load.antt =====
-- Load, the overrides, Validate and ParseDuration of internal/config/config.go. The TOML library, the
-- reading of numbers and of time.Duration texts, the file and the environment are inputs.
use ghostmail.Prelude.{
  ℕ, Bool, true, false, ◌&&◌, ◌||◌, not, Option, none, some, List, [], ◌∷◌, map, any, all, equal,
  ltb, length, take, ◌-◌, if◌then◌else◌, Bytes, codes, ◌≡◌, refl,
}
use ghostmail.Result.{no_rows, invalid_request, Result, ok, err, ◌>>=◌}
use ghostmail.Text.{to_lower, has_suffix}
use ghostmail.Crypto.Envelope.{or_error}
use ghostmail.Config.{Config, defaults}

-- os.Getenv, [] for a variable that is not set.
abbrev pub Environment : Type 0
Environment = Bytes → Bytes

-- if v := os.Getenv(name); v != "" { … }
abbrev pub overriding : Environment → Bytes → (Bytes → Config → Config) → Config → Config
overriding getenv name set cfg = let v = getenv name in if equal v [] then cfg else set v cfg

-- The overrides, in their order.
unfoldable pub overrides : List (Bytes × (Bytes → Config → Config))
overrides =
    (codes "GHOSTMAIL_HOSTNAME", λ v c. record c { server = record c.server { hostname = v } })
    ∷ (codes "GHOSTMAIL_DATA_DIR", λ v c. record c { server = record c.server { data_dir = v } })
    ∷ (codes "GHOSTMAIL_LOG_LEVEL", λ v c. record c { server = record c.server { log_level = v } })
    ∷ (codes "GHOSTMAIL_TLS_CERT", λ v c. record c { tls = record c.tls { cert_file = v } })
    ∷ (codes "GHOSTMAIL_TLS_KEY", λ v c. record c { tls = record c.tls { key_file = v } })
    ∷ (codes "GHOSTMAIL_SMTP_ADDR", λ v c. record c { smtp = record c.smtp { listen_addr = v } })
    ∷ (codes "GHOSTMAIL_IMAP_ADDR", λ v c. record c { imap = record c.imap { listen_addr = v } })
    ∷ (codes "GHOSTMAIL_ADMIN_ADDR", λ v c. record c { admin = record c.admin { listen_addr = v } })
    ∷ (codes "GHOSTMAIL_DNS_PROVIDER", λ v c. record c { dns = record c.dns { provider = v } })
    ∷ (codes "GHOSTMAIL_DNS_API_KEY", λ v c. record c { dns = record c.dns { api_key = v } })
    ∷ (
      codes "GHOSTMAIL_SUBDOMAIN_DOMAIN",
      λ v c. record c { subdomain = record c.subdomain { enabled = true; parent_domain = v } },
    )
    ∷ []

unfoldable pub override_each :
    Environment → List (Bytes × (Bytes → Config → Config)) → Config → Config
override_each getenv [] cfg = cfg
override_each getenv ((name, set) ∷ rest) cfg =
    override_each getenv rest (overriding getenv name set cfg)

unfoldable pub apply_env_overrides : Environment → Config → Config
apply_env_overrides getenv = override_each getenv overrides

-- What Sscanf and the arithmetic make of a number of days, and time.ParseDuration.
pub record Durations : Type 0 where
  pub days : Bytes → Option ℕ
  pub parse : Bytes → Option ℕ

-- ParseDuration
unfoldable pub parse_duration : Durations → Bytes → Option ℕ
parse_duration d s = if has_suffix s (codes "d") then d.days (take (length s - 1) s) else d.parse s

abbrev pub is_level : Bytes → Bool
is_level level =
    any (λ l. equal l (to_lower level)) (map codes ("error" ∷ "warn" ∷ "info" ∷ "debug" ∷ []))

-- An empty text is not looked at.
abbrev pub is_duration : Durations → Bytes → Bool
is_duration d s = equal s [] || elim (parse_duration d s) [ none ↦ false | some t ↦ true ]

unfoldable pub duration_fields : Config → List Bytes
duration_fields c =
    c.smtp.outbound.retry_base_delay ∷ c.smtp.outbound.dead_letter_after ∷ c.imap.idle_timeout
    ∷ c.crypto.session_key_ttl ∷ c.expiry.sweep_interval ∷ c.expiry.vacuum_interval ∷ []

-- Whether Validate finds no error; which one it names where there are several is left open.
unfoldable pub is_valid : Durations → Config → Bool
is_valid d c =
    not (equal c.server.hostname [])
    && not (equal c.server.data_dir [])
    && is_level c.server.log_level
    && ltb 0 c.smtp.max_message_size
    && all (is_duration d) (duration_fields c)

unfoldable pub validate : Durations → Config → Result (Unit {0})
validate d c = if is_valid d c then ok tt else err invalid_request

-- Load, from what os.ReadFile returns and what the library makes of a text over the defaults.
unfoldable pub load :
    Durations → Environment → (Bytes → Config → Option Config) → Option Bytes → Result Config
load d getenv unmarshal file = do
  text ← or_error no_rows file
  read ← or_error invalid_request (unmarshal text defaults)
  let cfg = apply_env_overrides getenv read
  checked ← validate d cfg
  ok cfg

-- A hostname of the environment stands in place of that of the file.
override_test :
    (apply_env_overrides
      (λ name. if equal name (codes "GHOSTMAIL_HOSTNAME") then codes "x" else [])
      defaults).server.hostname
    ≡ codes "x"
unfolding apply_env_overrides override_each overrides defaults equal
override_test = refl

-- The defaults pass their checks where the library reads every text as a duration.
defaults_test : validate (record { days = λ s. some 1; parse = λ s. some 1 }) defaults ≡ ok tt
unfolding validate is_valid duration_fields parse_duration defaults equal has_suffix to_lower
defaults_test = refl
