-- ===== src/Imap/Search.antt =====
-- internal/imap/search.go. Dates and headers are read by libraries, which are parameters.
use ghostmail.Prelude.{
  ℕ, suc, ◌+◌, ◌*◌, Bool, true, false, ◌&&◌, ◌||◌, not, Option, none, some, List, [], ◌∷◌, any, all,
  equal, ltb, length, if◌then◌else◌, Bytes, codes,
}
use ghostmail.Result.{not_selected}
use ghostmail.Text.{contains}
use ghostmail.Sql.{Sql, pure, or_raise, ◌>>=◌}
use ghostmail.Storage.Schema.{Tables, Message, second}
use ghostmail.Storage.Messages.{list_messages}
use ghostmail.Storage.Flags.{has_flag}
use ghostmail.Imap.Session.{Session, u32}
use ghostmail.Imap.Header.{get_header_value, header_contains_value}

-- The criteria of imap.SearchCriteria on the message itself. A time that IsZero and a size that is not
-- positive are `none`; a set of UIDs is the library's Contains.
pub record Tests : Type 0 where
  pub flag : List Bytes
  pub not_flag : List Bytes
  pub since : Option ℕ
  pub before : Option ℕ
  pub sent_since : Option ℕ
  pub sent_before : Option ℕ
  pub larger : Option ℕ
  pub smaller : Option ℕ
  pub uid : List (ℕ → Bool)
  pub header : List (Bytes × Bytes)
  pub body : List Bytes
  pub text : List Bytes

-- imap.SearchCriteria: its lists Not and Or hold criteria again.
mutual
  pub data Criteria : Type 0 where
    criteria : Tests → Nots → Ors → Criteria

  pub data Nots : Type 0 where
    no_nots : Nots
    not_also : Criteria → Nots → Nots

  pub data Ors : Type 0 where
    no_ors : Ors
    or_also : Criteria → Criteria → Ors → Ors

-- What a criterion that is not set asks for.
abbrev pub if_set : {A : Type 0} → Option A → (A → Bool) → Bool
if_set none p = true
if_set (some a) p = p a

-- time.Parse at the four formats, one after the other.
unfoldable pub parse_first : List (Bytes → Option ℕ) → Bytes → Option ℕ
parse_first [] text = none
parse_first (parse ∷ formats) text = elim (parse text) [
  | some t ↦ some t
  | none ↦ parse_first formats text
]

-- sentDate.Before(t); the zero time, `none`, is before every other.
abbrev pub is_before : Option ℕ → ℕ → Bool
is_before none t = true
is_before (some d) t = ltb d t

-- The header look-up of the library, and time.Parse at each format.
pub record Readers : Type 0 where
  pub get : Bytes → Bytes → Bytes
  pub formats : List (Bytes → Option ℕ)

pub record SearchOptions : Type 0 where
  pub return_count : Bool
  pub return_min : Bool
  pub return_max : Bool
  pub return_all : Bool

-- The fields of imap.SearchData, each 0 or [] where it is not filled in.
pub record SearchData : Type 0 where
  pub count : ℕ
  pub min : ℕ
  pub max : ℕ
  pub all_nums : List ℕ

abbrev pub first_of_nums : List ℕ → ℕ
first_of_nums [] = 0
first_of_nums (n ∷ ns) = n

abbrev pub last_of_nums : List ℕ → ℕ
last_of_nums [] = 0
last_of_nums (n ∷ []) = n
last_of_nums (n ∷ k ∷ ns) = last_of_nums (k ∷ ns)

-- options == nil || ReturnAll || none of the others
abbrev pub wants_all : SearchOptions → Bool
wants_all o = o.return_all || (not o.return_count && not o.return_min && not o.return_max)

unfoldable pub search_data : Option SearchOptions → List ℕ → SearchData
search_data none nums = record { count = 0; min = 0; max = 0; all_nums = nums }
search_data (some o) nums = record {
  count = if o.return_count then u32 (length nums) else 0;
  min = if o.return_min then first_of_nums nums else 0;
  max = if o.return_max then last_of_nums nums else 0;
  all_nums = if wants_all o then nums else [];
}

abbrev pub is_nil : {A : Type 0} → List A → Bool
is_nil [] = true
is_nil (x ∷ xs) = false

module _ (r : Readers) where
  unfoldable pub extract_date : Bytes → Option ℕ
  extract_date text =
      let date = get_header_value r.get text (codes "Date") in
      if equal date [] then none else parse_first r.formats date

  -- The tests of matchesCriteria, in its order, up to the Not list.
  unfoldable pub passes : Message → Tests → Bool
  passes m c =
      all (λ f. has_flag m.flags f) c.flag
      && all (λ f. not (has_flag m.flags f)) c.not_flag
      && if_set c.since (λ t. not (ltb (m.internal_date * second) t))
      && if_set c.before (λ t. ltb (m.internal_date * second) t)
      && if_set c.sent_since (λ t. not (is_before (extract_date m.body_enc) t))
      && if_set c.sent_before (λ t. is_before (extract_date m.body_enc) t)
      && if_set c.larger (λ n. ltb n m.size)
      && if_set c.smaller (λ n. ltb m.size n)
      && (is_nil c.uid || any (λ set. set (u32 m.uid)) c.uid)
      && all (λ h. header_contains_value r.get m.body_enc h.0 h.1) c.header
      && all (λ t. contains m.body_enc t) c.body
      && all (λ t. contains m.body_enc t) c.text

  unfoldable mutual
    pub matches_criteria : Message → Criteria → Bool
    matches_criteria m (criteria c nots ors) = passes m c && fails_all m nots && matches_ors m ors

    pub fails_all : Message → Nots → Bool
    fails_all m no_nots = true
    fails_all m (not_also c nots) = not (matches_criteria m c) && fails_all m nots

    pub matches_ors : Message → Ors → Bool
    matches_ors m no_ors = true
    matches_ors m (or_also a b ors) =
        (matches_criteria m a || matches_criteria m b) && matches_ors m ors

  -- criteria == nil
  abbrev pub matches : Message → Option Criteria → Bool
  matches m none = true
  matches m (some c) = matches_criteria m c

  -- The loop over the messages from position i on; by sequence number or by UID.
  unfoldable pub found_from : Bool → Option Criteria → ℕ → List Message → List ℕ
  found_from by_uid c i [] = []
  found_from by_uid c i (m ∷ msgs) =
      let rest = found_from by_uid c (suc i) msgs in
      if matches m c then (if by_uid then u32 m.uid else u32 (i + 1)) ∷ rest else rest

  -- Counts, the least, the greatest and all of the numbers, as the options ask; `none` options are
  -- no options at all.
  unfoldable pub search :
      Session → Bool → Option Criteria → Option SearchOptions → Sql Tables SearchData
  search s by_uid c options = do
    mb ← or_raise not_selected s.selected_mailbox
    msgs ← list_messages mb.id
    pure (search_data options (found_from by_uid c 0 msgs))
