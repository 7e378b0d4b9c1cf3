-- ===== src/Webmail/Owned/Results.antt =====
-- The results of the webmail's search.
use ghostmail.Prelude.{
  not, ◌⊎◌, ℕ, ◌&&◌, Option, none, some, List, [], ◌∷◌, ◌==◌, leb, ltb, length, Bytes, ◌≡◌, refl,
  All, All-append, Bool-cases, inl, inr,
}
use ghostmail.Sql.{Sql, ignoring}
use ghostmail.Sql.Gives.{
  Gives, Gives-query, Gives-bind, Gives-ignoring, Gives-if, Gives-pure, Gives-from,
}
use ghostmail.Sql.Keeps.{
  Keeps-wrapping, Keeps-ignoring, Keeps, Keeps-Gives, Keeps-query, keeps_rules,
}
use ghostmail.Sql.Members.{Has, find-Has}
use ghostmail.Crypto.Service.{SessionKeys}
use ghostmail.Storage.Schema.{Tables, Mailbox, Message}
use ghostmail.Storage.Messages.{get_message_by_id}
use ghostmail.Webmail.{json_error}
use ghostmail.Webmail.Sessions.{WebSession}
use ghostmail.Webmail.Mailboxes.{Formats}
use ghostmail.Webmail.Search.{
  Found, SearchRequest, own_mailbox, admit_own, admit, with_found, collect, search_terms,
  handle_search, tokenize,
}
use ghostmail.Webmail.Effects.{search_by_tokens-Keeps}
use ghostmail.Webmail.Owned.{
  Owned, AllOwned, Holds, Gives-both, list_mailboxes-AllOwned, own_mailbox-Owned,
  list_mailboxes-Holds,
}

-- A result of a search is of a stored message, in a mailbox of the user's.
pub record IsOwn (stored : Tables) (user_id : ℕ) (r : Found) : Type 0 where
  pub msg : Message
  pub there : Has msg stored.messages
  pub at_uid : msg.uid ≡ r.uid
  pub in_box : msg.mailbox_id ≡ r.mailbox_id
  pub owned : Owned stored.mailboxes user_id r.mailbox_id

module _ (stored : Tables) (user_id : ℕ) where
  module _ (env : Formats) (sess : WebSession) (mbs : List Mailbox)
      (own : AllOwned stored user_id mbs) (filter : ℕ) where
    abbrev AllOwn : List Found → Type 0
    AllOwn = All (IsOwn stored user_id)

    -- What one round adds to the results.
    with_found-IsOwn :
        (msg : Message) (o : Option Mailbox) (results : List Found)
        → Has msg stored.messages
        → (o ≡ none) ⊎ Owned stored.mailboxes user_id msg.mailbox_id
        → AllOwn results
        → AllOwn (with_found env (admit_own env sess filter msg o) results)
    with_found-IsOwn msg none results there h hs = hs
    with_found-IsOwn msg (some mb) results there (inl e) hs = absurd cc
    with_found-IsOwn msg (some mb) results there (inr h) hs =
        elim (Bool-cases (ltb 0 filter && not (msg.mailbox_id == filter))) [
          | inl out ↦ rw out hs
          | inr stays ↦ rw stays (
              All-append (IsOwn stored user_id) results _ hs
                (record { msg = msg; there = there; at_uid = refl; in_box = refl; owned = h }, tt))
        ]

    abbrev IsStored : Option Message → Type 0
    IsStored o = (msg : Message) → o ≡ some msg → Has msg stored.messages

    admit-IsOwn :
        (o : Option Message) (results : List Found)
        → IsStored o
        → AllOwn results
        → AllOwn (with_found env (admit env sess mbs filter o) results)
    unfolding admit
    admit-IsOwn none results there hs = hs
    admit-IsOwn (some msg) results there hs =
        with_found-IsOwn msg (own_mailbox msg.mailbox_id mbs) results (there msg refl)
          (own_mailbox-Owned stored user_id msg.mailbox_id mbs own) hs

    get_message_by_id-IsStored :
        (id : ℕ)
        → Gives
            (Holds stored user_id)
            (ignoring none (get_message_by_id id))
            (λ o t. IsStored o × Holds stored user_id t)
    unfolding get_message_by_id
    get_message_by_id-IsStored id =
        Gives-both _
          (Gives-ignoring none _ (λ t msg e. absurd cc)
            (Gives-query _
              λ t h msg e. let (there, fits) = find-Has _ msg t.messages e in rw h at there))
          (Keeps-Gives {R = Holds stored user_id} _ (Keeps-ignoring _ _ (Keeps-query _)) (λ t h. h)
            (λ o t h. h))

    collect-IsOwn :
        (ids : List ℕ) (results : List Found)
        → AllOwn results
        → Gives (Holds stored user_id) (collect env sess mbs filter results ids) (λ rs t. AllOwn rs)
    unfolding collect
    collect-IsOwn [] results hs = Gives-pure results (λ t h. hs)
    collect-IsOwn (id ∷ ids) results hs =
        Gives-bind {Q = λ o t. IsStored o × Holds stored user_id t} _ _
          (get_message_by_id-IsStored id)
          λ o.
            Gives-from {R = Holds stored user_id} _ (λ t h. h)
              λ there.
                let added = admit-IsOwn o results there hs in
                let results' = with_found env (admit env sess mbs filter o) results in
                Gives-if (leb 50 (length results')) _ _ (λ e. Gives-pure results' (λ t h. added))
                  (λ e. collect-IsOwn ids results' added)

module _ (env : Formats) (sess : WebSession) (stored : Tables) where
  search_terms-IsOwn :
      (req : SearchRequest) (keys : SessionKeys) (terms : List Bytes)
      → Gives
          (Holds stored sess.user_id)
          (search_terms env sess req keys terms)
          (λ rs t. All (IsOwn stored sess.user_id) rs)
  search_terms-IsOwn req keys [] = Gives-pure [] (λ t h. tt)
  search_terms-IsOwn req keys (term ∷ terms) =
      Gives-bind {Q = λ ids t. Holds stored sess.user_id t} _ _
        (Keeps-Gives {R = Holds stored sess.user_id} _
          (Keeps-wrapping _ _ (search_by_tokens-Keeps _)) (λ t h. h) (λ o t h. h))
        λ ids.
          Gives-bind {Q = λ mbs t. AllOwned stored sess.user_id mbs × Holds stored sess.user_id t} _
            _
            (Gives-both _
              (Gives-ignoring [] _ (λ t. tt) (list_mailboxes-AllOwned stored sess.user_id))
              (listed_only _ (Keeps-ignoring _ _ (list_mailboxes-Holds stored sess.user_id))))
            λ mbs.
              Gives-from {R = Holds stored sess.user_id} _ (λ t h. h)
                λ own. collect-IsOwn stored sess.user_id env sess mbs own _ ids [] tt
    where
      listed_only :
          (m : Sql Tables (List Mailbox))
          → Keeps (Holds stored sess.user_id) m
          → Gives (Holds stored sess.user_id) m (λ mbs. Holds stored sess.user_id)
      listed_only m k = Keeps-Gives {R = Holds stored sess.user_id} m k (λ t h. h) (λ a t h. h)

  pub handle_search-IsOwn :
      (body : Option SearchRequest)
      → Gives
          (Holds stored sess.user_id)
          (handle_search env sess body)
          (λ rs t. All (IsOwn stored sess.user_id) rs)
  unfolding handle_search json_error
  handle_search-IsOwn body =
      Gives-bind {Q = λ o t. Holds stored sess.user_id t} _ _ (kept _ (search keeps_rules)) λ req.
        Gives-bind {Q = λ o t. Holds stored sess.user_id t} _ _ (kept _ (search keeps_rules)) λ u.
          Gives-bind {Q = λ o t. Holds stored sess.user_id t} _ _ (kept _ (search keeps_rules))
            λ keys. search_terms-IsOwn req keys (tokenize req.query)
    where
      kept :
          {A : Type 0} (m : Sql Tables A)
          → Keeps (Holds stored sess.user_id) m
          → Gives (Holds stored sess.user_id) m (λ a. Holds stored sess.user_id)
      kept m k = Keeps-Gives {R = Holds stored sess.user_id} m k (λ t h. h) (λ a t h. h)
