-- ===== src/Webmail/Search.antt =====
-- internal/webmail/api_search.go, over ASCII texts.
use ghostmail.Prelude.{
  ℕ, Bool, ◌&&◌, ◌||◌, not, Option, none, some, List, [], ◌∷◌, ◌++◌, map, ◌==◌, ltb, leb, equal,
  any, length, if◌then◌else◌, Bytes, codes,
}
use ghostmail.Result.{refused}
use ghostmail.Text.{to_lower}
use ghostmail.Sql.{Sql, pure, ignoring, wrapping, or_raise, ◌>>=◌, ◌>>◌}
use ghostmail.Crypto.SearchTokens.{in_range, fields_func, compute_search_query}
use ghostmail.Crypto.Service.{SessionKeys}
use ghostmail.Storage.Schema.{Tables, Mailbox, Message}
use ghostmail.Storage.Mailboxes.{list_mailboxes}
use ghostmail.Storage.Messages.{get_message_by_id}
use ghostmail.Storage.SearchIndex.{search_by_tokens}
use ghostmail.Webmail.{json_error}
use ghostmail.Webmail.Sessions.{WebSession}
use ghostmail.Webmail.Mailboxes.{Formats, Summary, extract_message_summary}

pub record SearchRequest : Type 0 where
  pub query : Bytes
  pub mailbox : Bytes

-- The characters that FieldsFunc keeps.
unfoldable pub is_word_char : ℕ → Bool
is_word_char c = in_range b'a' b'z' c || in_range b'0' b'9' c

unfoldable pub stop_words : List Bytes
stop_words = map codes (
    "the" ∷ "a" ∷ "an" ∷ "and" ∷ "or" ∷ "is" ∷ "are" ∷ "was" ∷ "were" ∷ "be" ∷ "to" ∷ "of" ∷ "in"
    ∷ "for" ∷ "on" ∷ "with" ∷ "at" ∷ "by" ∷ "it" ∷ "this" ∷ "that" ∷ "from" ∷ "not" ∷ "but" ∷ "has"
    ∷ [])

abbrev in_words : Bytes → List Bytes → Bool
in_words w = any (λ s. equal s w)

-- The loop over the words; `seen` has those of the result so far.
unfoldable pub collect_words : List Bytes → List Bytes → List Bytes
collect_words seen [] = []
collect_words seen (w ∷ words) =
    let new = w ∷ collect_words (w ∷ seen) words in
    let old = collect_words seen words in
    if ltb (length w) 2 || in_words w stop_words || in_words w seen then old else new

unfoldable pub tokenize : Bytes → List Bytes
tokenize text = collect_words [] (fields_func is_word_char [] (to_lower text))

-- mbMap: the user's mailbox of that id.
unfoldable pub own_mailbox : ℕ → List Mailbox → Option Mailbox
own_mailbox id [] = none
own_mailbox id (mb ∷ mbs) =
    let later = own_mailbox id mbs in
    elim later [ some b ↦ some b | none ↦ if mb.id == id then some mb else none ]

-- filterMbID, 0 where no mailbox has the name.
unfoldable pub filter_id : Bytes → ℕ → List Mailbox → ℕ
filter_id name found [] = found
filter_id name found (mb ∷ mbs) =
    filter_id name (if not (equal name []) && equal mb.name name then mb.id else found) mbs

pub record Found : Type 0 where
  pub uid : ℕ
  pub mailbox_id : ℕ
  pub mailbox : Bytes
  pub summary : Summary
  pub flags : Bytes
  pub size : ℕ

module _ (env : Formats) where
  abbrev found_in : WebSession → Message → Mailbox → Found
  found_in sess msg mb = record {
    uid = msg.uid;
    mailbox_id = msg.mailbox_id;
    mailbox = mb.name;
    summary = extract_message_summary env msg sess.keys;
    flags = msg.flags;
    size = msg.size;
  }

  abbrev pub admit_own : WebSession → ℕ → Message → Option Mailbox → Option Found
  admit_own sess filter msg none = none
  admit_own sess filter msg (some mb) =
      if ltb 0 filter && not (msg.mailbox_id == filter) then none else some (found_in sess msg mb)

  -- One round of the loop: whether the message is in the results.
  unfoldable pub admit : WebSession → List Mailbox → ℕ → Option Message → Option Found
  admit sess mailboxes filter none = none
  admit sess mailboxes filter (some msg) =
      admit_own sess filter msg (own_mailbox msg.mailbox_id mailboxes)

  abbrev pub with_found : Option Found → List Found → List Found
  with_found none results = results
  with_found (some r) results = results ++ r ∷ []

  -- The loop over the ids, which ends at fifty results; a row that cannot be read is passed over.
  unfoldable pub collect :
      WebSession → List Mailbox → ℕ → List Found → List ℕ → Sql Tables (List Found)
  collect sess mailboxes filter results [] = pure results
  collect sess mailboxes filter results (id ∷ ids) = do
    msg ← ignoring none (get_message_by_id id)
    let results' = with_found (admit sess mailboxes filter msg) results
    let rest = collect sess mailboxes filter results' ids
    if leb 50 (length results') then pure results' else rest

  abbrev pub search_terms :
      WebSession → SearchRequest → SessionKeys → List Bytes → Sql Tables (List Found)
  search_terms sess req keys [] = pure []
  search_terms sess req keys (term ∷ terms) = do
    ids ← wrapping (refused 500 (codes "search failed")) (
        search_by_tokens (map (compute_search_query env.primitives keys.search_key) (term ∷ terms)))
    mailboxes ← ignoring [] (list_mailboxes sess.user_id)
    collect sess mailboxes (filter_id req.mailbox 0 mailboxes) [] ids

  -- A search key that is nil is empty here.
  abbrev search_key_of : Option SessionKeys → Option SessionKeys
  search_key_of none = none
  search_key_of (some keys) = if equal keys.search_key [] then none else some keys

  unfoldable pub handle_search : WebSession → Option SearchRequest → Sql Tables (List Found)
  handle_search sess decoded = do
    req ← or_raise (refused 400 (codes "invalid request")) decoded
    (if equal req.query [] then json_error (codes "query is required") 400 else pure tt)
    keys ← or_raise (refused 503 (codes "search unavailable")) (search_key_of sess.keys)
    search_terms sess req keys (tokenize req.query)
