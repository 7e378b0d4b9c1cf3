-- ===== src/Smtp/Session/Relay.antt =====
-- What Data does with recipients in domains of other servers.
use ghostmail.Prelude.{ℕ, suc, some, List, [], ◌∷◌, Bytes, ◌≡◌, refl, All}
use ghostmail.Result.{ok}
use ghostmail.Text.{split_2}
use ghostmail.Sql.{pure, or_raise, wrapping, query, exec, statement, ◌>>=◌, healthy}
use ghostmail.Sql.Rows.{count}
use ghostmail.Storage.Schema.{Tables, Domain}
use ghostmail.Storage.Domains.{has_name, is_local_domain}
use ghostmail.Storage.Queue.{append_item, enqueue_message}
use ghostmail.Smtp.Message.{extract_addr}
use ghostmail.Smtp.Delivery.{Env, deliver_message}
use ghostmail.Smtp.Session.{Session, DataEnv, received, deliver_all, receive}

-- The recipient's address has a domain, and it is none of these.
abbrev pub IsForeign : List Domain → Bytes → Type 0
IsForeign domains recipient =
    (local : Bytes) × (domain : Bytes) × (split_2 (extract_addr recipient) b'@'
      ≡ some (local, domain))
    × (count (has_name domain) domains ≡ 0)

-- The tables with one item for each recipient.
abbrev pub enqueued : DataEnv → Bytes → Bytes → ℕ → List Bytes → Tables → Tables
enqueued env sender text i [] t = t
enqueued env sender text i (r ∷ rs) t =
    enqueued env sender text (suc i) rs
      (append_item sender (extract_addr r) text (env.delivery i).now t)

deliver_message_foreign :
    (env : Env) (sender recipient text : Bytes) (t : Tables)
    → IsForeign t.domains recipient
    → deliver_message env sender (extract_addr recipient) text (healthy t)
      ≡ (ok tt, healthy (append_item sender (extract_addr recipient) text env.now t))
unfolding deliver_message or_raise is_local_domain enqueue_message exec query statement pure ◌>>=◌
deliver_message_foreign env sender recipient text t (local, domain, parts, none_here) =
    rw (parts, none_here) refl

deliver_all_foreign :
    (env : DataEnv) (sender text : Bytes) (i : ℕ) (rs : List Bytes) (t : Tables)
    → All (IsForeign t.domains) rs
    → deliver_all env sender text i rs (healthy t)
      ≡ (ok tt, healthy (enqueued env sender text i rs t))
unfolding deliver_all pure wrapping ◌>>=◌
deliver_all_foreign env sender text i [] t h = refl
deliver_all_foreign env sender text i (r ∷ rs) t (h, hs) =
    rw (deliver_message_foreign (env.delivery i) sender r text t h) (
      deliver_all_foreign env sender text (suc i) rs
        (append_item sender (extract_addr r) text (env.delivery i).now t) hs)

-- With an engine that fails no statement, Data of any session, with a user or without one, whose
-- recipients are all in domains of other servers succeeds, and what it adds to the store is one
-- pending item of the send queue for each recipient, in order.
pub receive_foreign :
    (env : DataEnv) (s : Session) (text : Bytes) (t : Tables)
    → All (IsForeign t.domains) s.recipients
    → receive env s text (healthy t)
      ≡ (ok tt, healthy (enqueued env s.sender (received env s text) 0 s.recipients t))
unfolding receive
receive_foreign env s text t h =
    deliver_all_foreign env s.sender (received env s text) 0 s.recipients t h
