-- ===== src/Admin/Login/Tokens.antt =====
-- Which sessions the panel accepts.
use ghostmail.Prelude.{
  ℕ, ◌-◌, Bool, true, false, not, Option, none, some, List, [], ◌∷◌, equal, equal_refl, equal_sound,
  ltb, Bytes, ◌≡◌, refl, ap, ◌∙◌, arith, Bool-cases, inl, inr, if◌then◌else◌,
}
use ghostmail.Text.Hex.{hex_encode}
use ghostmail.Admin.Login.{
  AdminSession, Sessions, lookup_session, delete_session, create_session, fresh, require_auth,
}

if_same : (b : Bool) (o : Option AdminSession) → o ≡ (if b then o else o)
if_same true o = refl
if_same false o = refl

-- Two keys of which one is the token, or none.
lookup_other :
    (token key k : Bytes) (o rest : Option AdminSession)
    → equal k key ≡ false
    → (if equal k token then o else (if equal key token then none else rest))
      ≡ (if equal key token then none else (if equal k token then o else rest))
lookup_other token key k o rest other = elim (Bool-cases (equal key token)) [
  | inr e ↦ rw e refl
  | inl e ↦ elim (Bool-cases (equal k token)) [
    | inr d ↦ rw (d, e) refl
    | inl d ↦ absurd (clash (equal_sound key token e) (equal_sound k token d))
  ]
]
  where
    clash : key ≡ token → k ≡ token → ⊥
    clash e d = let same : equal k key ≡ true = rw (d, e) (equal_refl token) in ground arith

lookup-delete_session :
    (token key : Bytes) (ss : Sessions)
    → lookup_session token (delete_session key ss)
      ≡ (if equal key token then none else lookup_session token ss)
unfolding lookup_session delete_session
lookup-delete_session token key [] = if_same (equal key token) none
lookup-delete_session token key ((k, s) ∷ ss) =
    let ih = lookup-delete_session token key ss in
    elim (Bool-cases (equal k key)) [
      | inl e ↦ rw e (ih ∙ hidden (equal_sound k key e))
      | inr e ↦ rw e (rw ih (lookup_other token key k (some s) (lookup_session token ss) e))
    ]
  where
    hidden :
        k ≡ key
        → (if equal key token then none else lookup_session token ss) ≡ (
            if equal key token
            then none
            else (if equal k token then some s else lookup_session token ss))
    hidden e = elim (Bool-cases (equal key token)) [ inl d ↦ rw d refl | inr d ↦ rw (e, d) refl ]

-- A step of the panel on its sessions.
pub data Step : Type 0 where
  logs_in : Bytes → Bytes → ℕ → Step
  logs_out : Bytes → Step

pub step : Step → Sessions → Sessions
step (logs_in drawn username now) ss = (create_session drawn username now ss).1
step (logs_out token) ss = delete_session token ss

pub run_steps : List Step → Sessions → Sessions
run_steps [] ss = ss
run_steps (e ∷ es) ss = run_steps es (step e ss)

-- The time of the last login under the token that no logout follows, from the end of the steps.
pub last_login : Bytes → Option ℕ → List Step → Option ℕ
last_login token seen [] = seen
last_login token seen (logs_in drawn username now ∷ es) =
    last_login token (if equal (hex_encode drawn) token then some now else seen) es
last_login token seen (logs_out key ∷ es) =
    last_login token (if equal key token then none else seen) es

abbrev created : Option AdminSession → Option ℕ
created none = none
created (some s) = some s.created_at

-- Not more than 4 * 3600 seconds ago, in nanoseconds.
abbrev pub is_recent : ℕ → Option ℕ → Bool
is_recent now none = false
is_recent now (some at) = not (ltb 14400000000000 (now - at))

created-step :
    (token : Bytes) (e : Step) (ss : Sessions) (es : List Step)
    → last_login token (created (lookup_session token (step e ss))) es
      ≡ last_login token (created (lookup_session token ss)) (e ∷ es)
unfolding step last_login create_session lookup_session
created-step token (logs_out key) ss es =
    rw (lookup-delete_session token key ss)
      (elim (Bool-cases (equal key token)) [ inl e ↦ rw e refl | inr e ↦ rw e refl ])
created-step token (logs_in drawn username now) ss es =
    elim (Bool-cases (equal (hex_encode drawn) token)) [
      | inl e ↦ rw e refl
      | inr e ↦ rw e (rw (lookup-delete_session token (hex_encode drawn) ss) (rw e refl))
    ]

created-run_steps :
    (token : Bytes) (es : List Step) (ss : Sessions)
    → created (lookup_session token (run_steps es ss))
      ≡ last_login token (created (lookup_session token ss)) es
unfolding run_steps last_login
created-run_steps token [] ss = refl
created-run_steps token (e ∷ es) ss =
    created-run_steps token es (step e ss) ∙ created-step token e ss es

fresh-created : (now : ℕ) (o : Option AdminSession) → fresh now o ≡ is_recent now (created o)
fresh-created now none = refl
fresh-created now (some s) = refl

-- From no sessions at all and after any logins and logouts, the panel runs a handler for a token exactly
-- if the token was given out by a login, no logout with it followed, and the last such login is not more
-- than four hours ago.
pub require_auth-last_login :
    (now : ℕ) (token : Bytes) (es : List Step)
    → require_auth now (some token) (run_steps es []) ≡ is_recent now (last_login token none es)
unfolding require_auth lookup_session
require_auth-last_login now token es =
    fresh-created now (lookup_session token (run_steps es []))
    ∙ ap (is_recent now) (created-run_steps token es [])
