-- ===== src/Smtp/Headers/Stripped.antt =====
-- What StripHeaders leaves of the headers.
use ghostmail.Prelude.{
  ℕ, suc, ◌%◌, ◌^◌, Bool, true, false, ◌&&◌, Option, none, some, List, [], ◌∷◌, ◌++◌, any, Bytes,
  codes, equal, take, drop, ◌≡◌, ◌⊎◌, All,
}
use ghostmail.Text.{index, to_lower, trim_space, has_prefix, join}
use ghostmail.Sql.Rows.{select}
use ghostmail.Sql.Members.{Has}
use ghostmail.Smtp.Headers.{StripConfig, HeaderEnv, keeps_line, split_header_lines}

-- textproto.CanonicalMIMEHeaderKey changes letters' case at most.
pub record ChangesCase (env : HeaderEnv) : Type 0 where
  pub to_lower-canonical : (name : Bytes) → to_lower (env.canonical name) ≡ to_lower name

-- The names of headers that tell of the sender, in small letters, and whether each is to go.
abbrev private_names : StripConfig → List (Bool × Bytes)
private_names strip =
    (strip.strip_received, codes "received")
    ∷ (strip.strip_user_agent, codes "user-agent")
    ∷ (strip.strip_user_agent, codes "x-mailer")
    ∷ (strip.strip_x_orig_ip, codes "x-originating-ip")
    ∷ (strip.strip_x_orig_ip, codes "x-forwarded-for")
    ∷ (true, codes "x-ghostmail-internal")
    ∷ (true, codes "x-sender-ip")
    ∷ []

abbrev bears : Bytes → List (Bool × Bytes) → Bool
bears name names = any (λ e. e.0 && equal (to_lower name) e.1) names

-- What stands before the colon.
abbrev name_at : Bytes → Option ℕ → Bytes
name_at line none = []
name_at line (some i) = trim_space (take i line)

-- The line's name is one that is to go, whatever its letters' case.
abbrev pub is_private : StripConfig → Bytes → Bool
is_private strip line = bears (name_at line (index line (codes ":"))) (private_names strip)

abbrev pub is_message_id : Bytes → Bool
is_message_id line = has_prefix (to_lower line) (codes "message-id:")

-- The blank line of a text, at CR LF CR LF or else at LF LF.
abbrev pub BlankAt : Bytes → ℕ → Type 0
BlankAt text i =
    (index text (codes "\r\n\r\n") ≡ some i)
    ⊎ ((index text (codes "\r\n\r\n") ≡ none) × (index text (codes "\n\n") ≡ some i))

-- Of the text from its blank line on nothing changes; the headers before it are replaced by lines. None of
-- these has a name that is to go; each is a header of the text or the new Message-ID; and every header
-- of the text has a name that is to go, is among the lines, or is a Message-ID that was replaced.
pub record IsStripped (env : HeaderEnv) (strip : StripConfig) (counter : ℕ) (text out : Bytes)
    : Type 0 where
  pub cut : ℕ
  pub blank : BlankAt text cut
  pub lines : List Bytes
  pub result : out ≡ join lines (codes "\r\n") ++ drop cut text
  pub clean : All (λ l. is_private strip l ≡ false) lines
  pub from_text :
      All
        (λ l.
          Has l (split_header_lines (take cut text))
          ⊎ ((strip.normalize_message_id ≡ true)
              × (l
                  ≡ codes "Message-ID: <"
                    ++ env.decimal (suc counter % 2 ^ 64)
                    ++ codes "@"
                    ++ env.hostname
                    ++ codes ">")))
        lines
  pub kept :
      All
        (λ l.
          (is_private strip l ≡ true)
          ⊎ (Has l lines ⊎ ((strip.normalize_message_id ≡ true) × (is_message_id l ≡ true))))
        (split_header_lines (take cut text))

module _ (env : HeaderEnv) (strip : StripConfig) (case : ChangesCase env) where
  abbrev public_lines : Bytes → List Bytes
  public_lines headers = select (keeps_line env strip) (split_header_lines headers)
