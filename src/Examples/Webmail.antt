-- ===== src/Examples/Webmail.antt =====
-- The theorems on internal/webmail and internal/ratelimit at the data of the parent module.
use ghostmail.Prelude.{
  ap, ℕ, ◌+◌, ◌-◌, ◌*◌, ◌/◌, true, false, Option, none, some, List, [], ◌∷◌, ltb, leb, equal, Bytes,
  codes, ◌≡◌, ◌≢◌, refl, arith, All, inl,
}
use ghostmail.Result.{ok}
use ghostmail.Sql.{
  ◌>>=◌, or_raise, pure, wrapping, query, statement, ignoring, raise, lift, exec, Db, healthy,
}
use ghostmail.Crypto.SearchTokens.{fields_func, compute_search_query, compute_token_hash, normalize}
use ghostmail.Text.{
  to_lower, lower, drop_while, has_prefix, is_space, split, trim_right_cr, trim_space, fields,
  fields_from, equal_fold, contains, index,
}
use ghostmail.Storage.SearchIndex.{
  search_by_tokens, search_by_token, narrow, distinct, intersect, matches_token,
}
use ghostmail.Sql.Rows.{find, order_by_text, select, text_leb, update}
use ghostmail.Storage.Mailboxes.{list_mailboxes}
use ghostmail.Storage.Messages.{get_message_by_id, get_message, update_flags}
use ghostmail.Webmail.{json_error}
use ghostmail.Storage.Flags.{has_flag, add_flag}
use ghostmail.Keyed.{get}
use ghostmail.Storage.Schema.{Tables, second}
use ghostmail.Storage.Kept.{IsKept}
use ghostmail.Smtp.Message as SmtpMessage
use ghostmail.RateLimit.{Float, Limiter, IsExact, minute, new, earned}
use ghostmail.RateLimit.Burst.{admitted, requests, at_most, admitted-burst}
use ghostmail.RateLimit.Pruning.{
  Step, asks, cleans, requests_only, answers, Refills, answers-requests_only,
}
use ghostmail.Webmail.Sessions.{
  WebSession, SessionStore, new_session_store, get_session, get_from_request,
}
use ghostmail.Webmail.Sessions.Tokens as Tokens
use ghostmail.Webmail.Sessions.Tokens.{
  if_recent, creates, deletes, sweeps, run_steps, last_created, get_session-last_created,
}
use ghostmail.Webmail.Headers.{
  parse_line, parse_lines, split_where, parse_header_field, first_value, split_message,
  parse_header_fields,
}
use ghostmail.Webmail.Headers.Agreement.{fields_of, headers-agreement}
use ghostmail.Webmail.Mailboxes.{extract_message_summary}
use ghostmail.Webmail.Search.{
  tokenize, collect_words, is_word_char, stop_words, admit, collect, filter_id, own_mailbox, Found,
  SearchRequest, handle_search,
}
use ghostmail.Webmail.Messages.{
  check_owner, find_message, mark_read, full_message, FullMessage, handle_get_message,
}
use ghostmail.Webmail.Owned.Results.{IsOwn}
use ghostmail.Webmail.Own.{IsReadFrom, handlers-IsOwn}
use ghostmail.Webmail.Requests.{Server, deletes_message, serve}
use ghostmail.Webmail.Isolation.Requests.{serve-IsKept}
use ghostmail.Examples.{toy, letter, tables}

-- Whole numbers with division rounded down.
abbrev whole : Float
whole = record {
  Value = ℕ;
  of_int = λ n. n;
  seconds = λ n. n / second;
  add = λ a b. a + b;
  sub = λ a b. a - b;
  mul = λ a b. a * b;
  div = λ a b. a / b;
  exceeds = λ a b. ltb b a;
  at_least = λ a b. leb b a;
}

none_divided : (d : ℕ) → 0 / d ≡ 0
none_divided d = omega arith

whole-IsExact : IsExact whole
whole-IsExact = record {
  no_time = refl;
  div-none = λ d h. none_divided (d / second);
  mul-none = λ n h. omega arith;
  add-none = λ n h. omega arith;
  sub-one = λ n h k. refl;
  exceeds-ltb = λ m n h k. refl;
  at_least-leb = λ m n h k. refl;
}

-- The limiter of the logins.
abbrev logins : Limiter whole
logins = record { buckets = []; rate = 5; burst = 5; interval = minute }

abbrev addresses : List Bytes
addresses = codes "a" ∷ codes "b" ∷ codes "a" ∷ []

no_bucket : get (codes "a") logins.buckets ≡ none
unfolding get
no_bucket = refl

admitted_example :
    admitted whole (codes "a") 7 addresses logins ≡ at_most 5 (requests (codes "a") addresses)
admitted_example =
    admitted-burst whole logins (codes "a") 7 addresses whole-IsExact (omega arith) (omega arith)
      (omega arith) no_bucket

logins-Refills : Refills whole (new whole 5 5 minute)
unfolding new earned
logins-Refills = record {
  full = refl;
  grows = λ v e h. ground arith;
  spends = λ v h. ground arith;
  fills = λ v e h late. ground arith;
}

abbrev steps : List Step
steps = asks (codes "a") 1 ∷ cleans (2000 * second) ∷ asks (codes "a") (2001 * second) ∷ []

answers_example :
    answers whole steps (new whole 5 5 minute)
    ≡ answers whole (requests_only steps) (new whole 5 5 minute)
answers_example =
    answers-requests_only whole 5 5 minute steps whole-IsExact logins-Refills (omega arith)
      (omega arith) (omega arith) (omega arith, (omega arith, (omega arith, tt)))

abbrev session : WebSession
session = record {
  user_id = 2;
  username = codes "bob";
  domain = codes "x.org";
  is_admin = false;
  keys = none;
  created_at = 5;
}

abbrev session_steps : List Tokens.Step
session_steps = creates (1 ∷ 2 ∷ []) session ∷ sweeps 6 ∷ deletes (codes "03") ∷ []

get_session_example :
    get_session 9 (codes "0102") (run_steps session_steps new_session_store)
    ≡ if_recent 9 (last_created (codes "0102") none session_steps)
get_session_example = get_session-last_created 9 (codes "0102") session_steps (omega arith, tt)

abbrev text : Bytes
text = codes "Subject: hi\n\nbody"

headers_example :
    (split_message text ≡ SmtpMessage.split_message text)
    × (parse_header_fields (codes "From: a\nTo: b")
        ≡ fields_of (SmtpMessage.extract_header_fields (codes "From: a\nTo: b")))
headers_example = headers-agreement text (codes "From: a\nTo: b")

-- Bob's session, and the letter in Alice's mailbox.
abbrev bobs_sessions : SessionStore
bobs_sessions = record { sessions = (codes "0102", session) ∷ []; released = [] }

abbrev server : Server
server = record {
  formats = record { primitives = toy; format_time = λ layout t. layout };
  generator = record { max_per_user = 3; encode = λ drawn. drawn };
  default_domain = codes "x.org";
}

abbrev failing : Db Tables
failing = record { tables = tables; faults = false ∷ true ∷ [] }

letter-IsKept : IsKept letter tables
letter-IsKept = record { there = inl refl; alone = ((λ e. refl), tt); known = omega arith }

user_of : Option WebSession → ℕ
user_of none = 0
user_of (some s) = s.user_id

bob_away :
    (sess : WebSession)
    → get_from_request 9 (some (codes "0102")) bobs_sessions ≡ some sess
    → All (λ b. b.id ≡ letter.mailbox_id → b.user_id ≢ sess.user_id) tables.mailboxes
unfolding get_from_request get_session get equal user_of
bob_away sess e =
    let bob : 2 ≡ sess.user_id = ap user_of e in
    ((λ here own. absurd (omega (arith, bob, own))), tt)

serve_example :
    IsKept letter
      (serve server 9 (some (codes "0102")) bobs_sessions (deletes_message 1 1) failing).1.tables
serve_example =
    serve-IsKept server 9 (some (codes "0102")) bobs_sessions (deletes_message 1 1) letter failing
      letter-IsKept bob_away

abbrev alices : WebSession
alices = record session {
  user_id = 1;
  keys = some (record { private_key = []; search_key = 9 ∷ [] });
}

abbrev indexed : Tables
indexed = record tables {
  search_tokens = record { message_id = 1; token_hash = codes "hi"; field = 0 } ∷ [];
}

abbrev asked : Option SearchRequest
asked = some (record { query = codes "the Hi"; mailbox = [] })

abbrev result : Found
result = record {
  uid = 1;
  mailbox_id = 1;
  mailbox = codes "INBOX";
  summary = record {
    sender = codes "(encrypted)";
    recipient = [];
    subject = codes "(no subject)";
    date = codes "2006-01-02 15:04";
  };
  flags = [];
  size = 2;
}

searched : (handle_search server.formats alices asked (healthy indexed)).0 ≡ ok (result ∷ [])
unfolding handle_search ◌>>=◌ or_raise pure wrapping query statement ignoring raise json_error
    list_mailboxes find order_by_text select text_leb equal to_lower lower drop_while has_prefix
    is_space split trim_right_cr trim_space split_message split_where parse_header_fields parse_line
    parse_lines tokenize collect_words is_word_char stop_words admit collect filter_id own_mailbox
    fields_func compute_search_query compute_token_hash normalize search_by_tokens search_by_token
    narrow distinct intersect matches_token get_message_by_id extract_message_summary
searched = refl

abbrev reply : FullMessage
reply = record {
  uid = 1;
  sender = [];
  recipient = [];
  cc = [];
  subject = [];
  date = codes "2006-01-02 15:04:05";
  body_text = [];
  body_html = [];
  flags = codes "\\Seen";
  size = 2;
}

read : (handle_get_message server.formats alices 1 1 (healthy tables)).0 ≡ ok reply
unfolding handle_get_message ◌>>=◌ or_raise pure wrapping query statement ignoring raise json_error
    list_mailboxes find order_by_text select text_leb equal to_lower lower drop_while has_prefix
    is_space split trim_right_cr trim_space split_message split_where parse_header_fields parse_line
    parse_lines lift exec update fields fields_from equal_fold contains index get_message
    update_flags parse_header_field first_value check_owner find_message mark_read full_message
    has_flag add_flag
read = refl

handlers-IsOwn_example :
    All (IsOwn indexed 1) (result ∷ []) × IsReadFrom server.formats alices tables 1 1 reply
handlers-IsOwn_example =
    handlers-IsOwn server.formats alices asked 1 1 (healthy indexed) (healthy tables) (result ∷ [])
      reply searched read
