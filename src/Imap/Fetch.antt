-- ===== src/Imap/Fetch.antt =====
-- FETCH and STORE of internal/imap/fetch.go. A Go map is the list of its entries; the order in which
-- the runtime goes through it is an argument.
use ghostmail.Prelude.{
  ℕ, suc, ◌+◌, Bool, ◌&&◌, ◌||◌, not, Option, none, some, List, [], ◌∷◌, all, equal, ltb, length,
  if◌then◌else◌, Bytes, codes,
}
use ghostmail.Result.{not_selected, disconnected, Result, ok, err}
use ghostmail.Text.{fields, join}
use ghostmail.Sql.{Sql, pure, raise, or_raise, ignoring, ◌>>=◌, ◌>>◌}
use ghostmail.Crypto.Primitives.{Primitives}
use ghostmail.Crypto.Envelope.{decrypt_message}
use ghostmail.Crypto.Service.{SessionKeys}
use ghostmail.Storage.Schema.{Tables, Message}
use ghostmail.Storage.Messages.{list_messages, update_flags}
use ghostmail.Storage.Flags.{has_flag, add_flag, remove_flag}
use ghostmail.Smtp.Delivery.Sealing.{sealed_body}
use ghostmail.Imap.Session.{Session, u32}

-- imap.SeqSet and imap.UIDSet, by the library's Contains.
pub data NumSet : Type 0 where
  seq_set : (ℕ → Bool) → NumSet
  uid_set : (ℕ → Bool) → NumSet

abbrev pub in_set : NumSet → ℕ → Message → Bool
in_set (seq_set contains) seq m = contains seq
in_set (uid_set contains) seq m = contains (u32 m.uid)

-- The loop of resolveNumSet from position i on: sequence numbers with their messages.
unfoldable pub resolve_from : NumSet → ℕ → List Message → List (ℕ × Message)
resolve_from set i [] = []
resolve_from set i (m ∷ msgs) =
    let rest = resolve_from set (suc i) msgs in
    let seq = u32 (i + 1) in if in_set set seq m then (seq, m) ∷ rest else rest

unfoldable pub resolve_num_set : List Message → NumSet → List (ℕ × Message)
resolve_num_set msgs set = resolve_from set 0 msgs

unfoldable pub parse_flags : Bytes → List Bytes
parse_flags s = if equal s [] then [] else fields s

pub data StoreOp : Type 0 where
  set_flags add_flags del_flags : StoreOp

pub record StoreFlags : Type 0 where
  pub op : StoreOp
  pub silent : Bool
  pub flags : List Bytes

unfoldable pub add_all : Bytes → List Bytes → Bytes
add_all current [] = current
add_all current (f ∷ flags) = add_all (add_flag current f) flags

unfoldable pub remove_all : Bytes → List Bytes → Bytes
remove_all current [] = current
remove_all current (f ∷ flags) = remove_all (remove_flag current f) flags

abbrev pub apply_op : StoreOp → Bytes → List Bytes → Bytes
apply_op set_flags current flags = join flags (codes " ")
apply_op add_flags current flags = add_all current flags
apply_op del_flags current flags = remove_all current flags

unfoldable pub apply_store_flags : Bytes → StoreFlags → Bytes
apply_store_flags current sf = apply_op sf.op current sf.flags

-- What a client asks for; each body section with its Peek. Envelope, body structure and binary
-- sections are taken by the library from the same message data as the body sections.
pub record FetchOptions : Type 0 where
  pub uid : Bool
  pub flags : Bool
  pub rfc822_size : Bool
  pub internal_date : Bool
  pub body_section : List Bool

abbrev pub all_peek : List Bool → Bool
all_peek = all (λ peek. peek)

pub record Response : Type 0 where
  pub seq_num : ℕ
  pub uid : Option ℕ
  pub flags : Option (List Bytes)
  pub rfc822_size : Option ℕ
  pub internal_date : Option ℕ
  pub message_data : Bytes

-- The order of the runtime, and which responses reach the client.
pub record FetchEnv : Type 0 where
  pub order : List (ℕ × Message) → List (ℕ × Message)
  pub writes : ℕ → Bool

abbrev pub when : {A : Type 0} → Bool → A → Option A
when b a = if b then some a else none

abbrev pub or_else : Bytes → Result Bytes → Bytes
or_else data' (ok plaintext) = plaintext
or_else data' (err e) = data'

module _ (p : Primitives) where
  abbrev pub decrypted : Option SessionKeys → Message → Bytes
  decrypted none m = m.body_enc
  decrypted (some sk) m =
      if ltb 0 (length m.message_key_enc)
      then or_else m.body_enc (decrypt_message p (sealed_body m) sk.private_key)
      else m.body_enc

  -- Decrypted on the fly; a row that cannot be decrypted is sent as it is stored.
  unfoldable pub message_data : Session → Message → Bytes
  message_data s m = decrypted s.session_keys m

  unfoldable pub response : Session → FetchOptions → ℕ × Message → Response
  response s options (seq, m) = record {
    seq_num = seq;
    uid = when options.uid (u32 m.uid);
    flags = when options.flags (parse_flags m.flags);
    rfc822_size = when options.rfc822_size m.size;
    internal_date = when options.internal_date m.internal_date;
    message_data = message_data s m;
  }

  -- \Seen is set after a response with a body section, unless all of them are PEEK.
  unfoldable pub mark_seen : FetchOptions → Message → Sql Tables (Unit {0})
  mark_seen options m =
      if ltb 0 (length options.body_section)
        && not (all_peek options.body_section)
        && not (has_flag m.flags (codes "\\Seen"))
      then ignoring tt (update_flags m.id (add_flag m.flags (codes "\\Seen")))
      else pure tt

  unfoldable pub fetch_each :
      Session → FetchOptions → (ℕ → Bool) → List (ℕ × Message) → Sql Tables (List Response)
  fetch_each s options writes [] = pure []
  fetch_each s options writes (entry ∷ matching) = do
    (if writes entry.0 then pure tt else raise disconnected)
    mark_seen options entry.1
    rest ← fetch_each s options writes matching
    pure (response s options entry ∷ rest)

  unfoldable pub fetch : Session → FetchEnv → NumSet → FetchOptions → Sql Tables (List Response)
  fetch s env set options = do
    mb ← or_raise not_selected s.selected_mailbox
    msgs ← list_messages mb.id
    fetch_each s options env.writes (env.order (resolve_num_set msgs set))

-- The FETCH response of a STORE: sequence number, UID and flags.
pub record StoreResponse : Type 0 where
  pub seq_num : ℕ
  pub uid : ℕ
  pub flags : List Bytes

abbrev pub store_response : ℕ × Message → Bytes → StoreResponse
store_response (seq, m) flags = record { seq_num = seq; uid = u32 m.uid; flags = parse_flags flags }

unfoldable pub store_each :
    StoreFlags → (ℕ → Bool) → List (ℕ × Message) → Sql Tables (List StoreResponse)
store_each sf writes [] = pure []
store_each sf writes (entry ∷ matching) = do
  let flags = apply_store_flags entry.1.flags sf
  update_flags entry.1.id flags
  (if sf.silent || writes entry.0 then pure tt else raise disconnected)
  rest ← store_each sf writes matching
  pure (if sf.silent then rest else store_response entry flags ∷ rest)

unfoldable pub store : Session → FetchEnv → NumSet → StoreFlags → Sql Tables (List StoreResponse)
store s env set sf = do
  mb ← or_raise not_selected s.selected_mailbox
  msgs ← list_messages mb.id
  store_each sf env.writes (env.order (resolve_num_set msgs set))
