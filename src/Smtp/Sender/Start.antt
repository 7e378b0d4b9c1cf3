-- ===== src/Smtp/Sender/Start.antt =====
-- NewSender of internal/smtp/sender.go.
use ghostmail.Prelude.{Bytes, Option, List}
use ghostmail.Result.{invalid_request}
use ghostmail.Sql.{Sql, pure, lift, ◌>>=◌}
use ghostmail.Crypto.Envelope.{or_error}
use ghostmail.Config.{OutboundConfig}
use ghostmail.Config.Load.{Durations, parse_duration}
use ghostmail.Storage.Schema.{Tables}
use ghostmail.Smtp.Sender.{Sender, load_dkim_keys}

-- The sender and its signers.
unfoldable new_sender :
    {Signer : Type 0}
    → Durations
    → OutboundConfig
    → (Bytes → Bytes → Bytes → Option Signer)
    → Sql Tables (Sender × List (Bytes × Signer))
new_sender d cfg new_rsa_signer = do
  retry_delay ← lift (or_error invalid_request (parse_duration d cfg.retry_base_delay))
  dead_letter ← lift (or_error invalid_request (parse_duration d cfg.dead_letter_after))
  signers ← load_dkim_keys new_rsa_signer
  let sender : Sender = record {
    retry_base_delay = retry_delay;
    dead_letter_after = dead_letter;
    max_retries = cfg.max_retries;
    concurrent_deliveries = cfg.concurrent_deliveries;
  }
  pure (sender, signers)
