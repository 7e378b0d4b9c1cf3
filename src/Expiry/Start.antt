-- ===== src/Expiry/Start.antt =====
-- NewReaper of internal/expiry/reaper.go.
use ghostmail.Prelude.{ℕ, equal, if◌then◌else◌, Bytes, []}
use ghostmail.Result.{invalid_request, Result, ok, ◌>>=◌}
use ghostmail.Crypto.Envelope.{or_error}
use ghostmail.Config.{ExpiryConfig}
use ghostmail.Config.Load.{Durations, parse_duration}
use ghostmail.Expiry.{Reaper}

-- The reaper and its two intervals.
record Started : Type 0 where
  pub sweep_interval : ℕ
  pub vacuum_interval : ℕ
  pub reaper : Reaper

abbrev ttl_or_zero : Durations → Bytes → Result ℕ
ttl_or_zero d text =
    if equal text [] then ok 0 else or_error invalid_request (parse_duration d text)

unfoldable new_reaper : Durations → ExpiryConfig → Result Started
new_reaper d cfg = do
  sweep ← or_error invalid_request (parse_duration d cfg.sweep_interval)
  vacuum ← or_error invalid_request (parse_duration d cfg.vacuum_interval)
  trash_ttl ← ttl_or_zero d cfg.trash_ttl
  spam_ttl ← ttl_or_zero d cfg.spam_ttl
  ok (record {
    sweep_interval = sweep;
    vacuum_interval = vacuum;
    reaper = record { trash_ttl = trash_ttl; spam_ttl = spam_ttl };
  })
