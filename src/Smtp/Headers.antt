-- ===== src/Smtp/Headers.antt =====
-- internal/smtp/headers.go. textproto.CanonicalMIMEHeaderKey and the printing of a number are
-- parameters; the counter of generated Message-IDs is passed along.
pub mod Stripped
use ghostmail.Prelude.{
  ℕ, suc, ◌%◌, ◌^◌, Bool, false, ◌&&◌, ◌||◌, not, Option, none, some, List, [], ◌∷◌, ◌++◌, equal,
  ◌==◌, if◌then◌else◌, Bytes, codes, take, drop,
}
use ghostmail.Text.{index, split, trim_right_cr, trim_space, to_lower, has_prefix, join}
use ghostmail.Sql.Rows.{select}

pub record StripConfig : Type 0 where
  pub strip_received : Bool
  pub strip_user_agent : Bool
  pub strip_x_orig_ip : Bool
  pub normalize_message_id : Bool

-- The logical lines read so far, and the one that may go on.
pub record Lines : Type 0 where
  pub result : List Bytes
  pub current : Bytes

abbrev add_current : Lines → List Bytes
add_current st = if equal st.current [] then st.result else st.result ++ st.current ∷ []

-- line[0] == ' ' || line[0] == '\t'
abbrev pub is_folded : Bytes → Bool
is_folded [] = false
is_folded (c ∷ line) = (c == b' ') || (c == b'\t')

unfoldable pub read_line : Lines → Bytes → Lines
read_line st line =
    if equal line []
    then st
    else if is_folded line
    then record st { current = st.current ++ codes "\r\n" ++ line }
    else record { result = add_current st; current = line }

unfoldable pub read_lines : Lines → List Bytes → Lines
read_lines st [] = st
read_lines st (line ∷ raw_lines) = read_lines (read_line st (trim_right_cr line)) raw_lines

unfoldable pub split_header_lines : Bytes → List Bytes
split_header_lines text =
    add_current (read_lines (record { result = []; current = [] }) (split text b'\n'))

unfoldable pub should_strip : Bytes → StripConfig → Bool
should_strip name cfg =
    let lower = to_lower name in
    (cfg.strip_received && equal lower (codes "received"))
    || (cfg.strip_user_agent
        && (equal lower (codes "user-agent") || equal lower (codes "x-mailer")))
    || (cfg.strip_x_orig_ip
        && (equal lower (codes "x-originating-ip") || equal lower (codes "x-forwarded-for")))
    || equal lower (codes "x-ghostmail-internal")
    || equal lower (codes "x-sender-ip")

-- What StripHeaders takes from libraries, and the server's name.
pub record HeaderEnv : Type 0 where
  pub canonical : Bytes → Bytes
  pub decimal : ℕ → Bytes
  pub hostname : Bytes

module _ (env : HeaderEnv) where
  abbrev name_before : Bytes → Option ℕ → Bytes
  name_before line none = []
  name_before line (some idx) = env.canonical (trim_space (take idx line))

  unfoldable pub extract_header_name : Bytes → Bytes
  extract_header_name line = name_before line (index line (codes ":"))

  unfoldable pub message_id : ℕ → Bytes
  message_id id = codes "Message-ID: <" ++ env.decimal id ++ codes "@" ++ env.hostname ++ codes ">"

  -- The first line of that name is replaced; without one, a line is added at the end.
  unfoldable pub set_message_id : Bytes → List Bytes → List Bytes
  set_message_id new [] = new ∷ []
  set_message_id new (line ∷ lines) =
      let rest = set_message_id new lines in
      if has_prefix (to_lower line) (codes "message-id:") then new ∷ lines else line ∷ rest

  abbrev pub keeps_line : StripConfig → Bytes → Bool
  keeps_line strip line = not (should_strip (extract_header_name line) strip)

  -- The lines that stay; `counter` is the last id that was generated.
  unfoldable pub kept_lines : StripConfig → ℕ → Bytes → List Bytes
  kept_lines strip counter headers =
      let result = select (keeps_line strip) (split_header_lines headers) in
      if strip.normalize_message_id
      then set_message_id (message_id (suc counter % 2 ^ 64)) result
      else result

  abbrev next_counter : StripConfig → ℕ → ℕ
  next_counter strip counter = if strip.normalize_message_id then suc counter % 2 ^ 64 else counter

  abbrev pub strip_at : StripConfig → ℕ → Bytes → Option ℕ → Option ℕ → Bytes × ℕ
  strip_at strip counter text (some i) lf = (
    join (kept_lines strip counter (take i text)) (codes "\r\n") ++ drop i text,
    next_counter strip counter,
  )
  strip_at strip counter text none (some i) = (
    join (kept_lines strip counter (take i text)) (codes "\r\n") ++ drop i text,
    next_counter strip counter,
  )
  strip_at strip counter text none none = (text, counter)

  unfoldable pub strip_headers : StripConfig → ℕ → Bytes → Bytes × ℕ
  strip_headers strip counter text =
      strip_at strip counter text (index text (codes "\r\n\r\n")) (index text (codes "\n\n"))
