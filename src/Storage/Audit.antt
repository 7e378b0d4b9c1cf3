-- ===== src/Storage/Audit.antt =====
-- internal/storage/audit.go
use ghostmail.Prelude.{ℕ, suc, List, [], ◌∷◌, ◌++◌, reverse, take, Bytes}
use ghostmail.Sql.{Sql, query, exec}
use ghostmail.Sql.Rows.{order_by}
use ghostmail.Storage.Schema.{Tables, AuditEntry, unix}

abbrev pub append_entry : Bytes → Bytes → Bytes → ℕ → Tables → Tables
append_entry actor action target now t = record t {
  audit_log =
      t.audit_log
      ++ record {
        id = suc t.last_entry;
        actor = actor;
        action = action;
        target = target;
        timestamp = unix now;
      }
        ∷ [];
  last_entry = suc t.last_entry;
}

unfoldable pub log_audit : Bytes → Bytes → Bytes → ℕ → Sql Tables (Unit {0})
log_audit actor action target now = exec (append_entry actor action target now)

-- ORDER BY timestamp DESC LIMIT limit; the order of entries of one second is the engine's.
unfoldable pub list_audit_log : ℕ → Sql Tables (List AuditEntry)
list_audit_log limit = query (λ t. take limit (reverse (order_by (λ e. e.timestamp) t.audit_log)))
