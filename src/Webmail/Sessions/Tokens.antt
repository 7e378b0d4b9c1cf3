-- ===== src/Webmail/Sessions/Tokens.antt =====
-- Which sessions a token has, and whose keys are still in memory.
use ghostmail.Prelude.{
  false, leb, ℕ, ◌-◌, ◌*◌, ◌^◌, ◌≤◌, true, Option, none, some, List, [], ◌∷◌, equal, equal_sound,
  Bytes, ◌≡◌, refl, ◌∙◌, arith, Bool-cases, inl, inr, if◌then◌else◌,
}
use ghostmail.Keyed.{
  get, unless_dropped, IsMap, put-IsMap, without-IsMap, get-put, get-put_other, get-remove,
  get-remove_other, get-without,
}
use ghostmail.Text.Hex.{hex_encode}
use ghostmail.Webmail.Sessions.{
  WebSession, SessionStore, new_session_store, is_over, sweep_expired, create, unless_over,
  get_session, delete, release_all,
}

-- What changes the sessions: a login, a logout, a round of the sweeper and the shutdown.
pub data Step : Type 0 where
  creates : Bytes → WebSession → Step
  deletes : Bytes → Step
  sweeps : ℕ → Step
  closes : Step

pub step : Step → SessionStore → SessionStore
step (creates drawn sess) ss = (create drawn sess ss).1
step (deletes token) ss = delete token ss
step (sweeps now) ss = sweep_expired now ss
step closes ss = release_all ss

pub run_steps : List Step → SessionStore → SessionStore
run_steps [] ss = ss
run_steps (e ∷ es) ss = run_steps es (step e ss)

-- Every round of the sweeper is at that time or before.
abbrev SweptBy : ℕ → List Step → Type 0
SweptBy now [] = Unit {0}
SweptBy now (sweeps t ∷ es) = (t ≤ now) × SweptBy now es
SweptBy now (e ∷ es) = SweptBy now es

-- The session last created under the token, unless it was deleted or the store closed since.
pub last_created : Bytes → Option WebSession → List Step → Option WebSession
last_created token found [] = found
last_created token found (creates drawn sess ∷ es) =
    last_created token (if equal (hex_encode drawn) token then some sess else found) es
last_created token found (deletes key ∷ es) =
    last_created token (if equal key token then none else found) es
last_created token found (sweeps now ∷ es) = last_created token found es
last_created token found (closes ∷ es) = last_created token none es

-- A session that is over stays so.
unless_over-unless_dropped :
    (t now : ℕ) (o : Option WebSession)
    → t ≤ now
    → unless_over now (unless_dropped (is_over t) o) ≡ unless_over now o
unless_over-unless_dropped t now none le = refl
unless_over-unless_dropped t now (some sess) le = elim (Bool-cases (is_over t sess)) [
  | inr stays ↦ rw stays refl
  | inl gone ↦ let later : is_over now sess ≡ true = ground arith in rw (gone, later) refl
]

-- What may be looked up later is the same.
abbrev Agrees : ℕ → Option WebSession → Option WebSession → Type 0
Agrees now o o' = unless_over now o ≡ unless_over now o'

step-IsMap : (e : Step) (ss : SessionStore) → IsMap ss.sessions → IsMap (step e ss).sessions
unfolding step create delete sweep_expired release_all
step-IsMap (creates drawn sess) ss h = put-IsMap _ sess ss.sessions h
step-IsMap (deletes token) ss h = without-IsMap _ ss.sessions h
step-IsMap (sweeps now) ss h = without-IsMap _ ss.sessions h
step-IsMap closes ss h = tt

last_created-Agrees :
    (now : ℕ) (token : Bytes) (es : List Step) (o o' : Option WebSession)
    → Agrees now o o'
    → Agrees now (last_created token o es) (last_created token o' es)
unfolding last_created
last_created-Agrees now token [] o o' h = h
last_created-Agrees now token (creates drawn sess ∷ es) o o' h =
    last_created-Agrees now token es _ _
      (elim (Bool-cases (equal (hex_encode drawn) token)) [ inl e ↦ rw e refl | inr e ↦ rw e h ])
last_created-Agrees now token (deletes key ∷ es) o o' h =
    last_created-Agrees now token es _ _
      (elim (Bool-cases (equal key token)) [ inl e ↦ rw e refl | inr e ↦ rw e h ])
last_created-Agrees now token (sweeps t ∷ es) o o' h = last_created-Agrees now token es o o' h
last_created-Agrees now token (closes ∷ es) o o' h = refl

-- What the steps that are left make of the session that a step leaves.
step-last_created :
    (now : ℕ) (token : Bytes) (e : Step) (es : List Step) (ss : SessionStore)
    → IsMap ss.sessions
    → SweptBy now (e ∷ es)
    → Agrees now
        (last_created token (get token (step e ss).sessions) es)
        (last_created token (get token ss.sessions) (e ∷ es))
unfolding step create delete sweep_expired release_all last_created
step-last_created now token (creates drawn sess) es ss m h =
    elim (Bool-cases (equal (hex_encode drawn) token)) [
      | inl e ↦
          let same = equal_sound (hex_encode drawn) token e in
          rw e (rw same (rw (get-put token sess ss.sessions) refl))
      | inr e ↦ rw e (rw (get-put_other token (hex_encode drawn) sess ss.sessions e) refl)
    ]
step-last_created now token (deletes key) es ss m h = elim (Bool-cases (equal key token)) [
  | inl e ↦
      let same = equal_sound key token e in rw e (rw same (rw (get-remove token ss.sessions) refl))
  | inr e ↦ rw e (rw (get-remove_other token key ss.sessions e) refl)
]
step-last_created now token (sweeps t) es ss m (le, h) = last_created-Agrees now token es _ _ (
    rw (get-without (λ token sess. is_over t sess) token ss.sessions m)
      (unless_over-unless_dropped t now (get token ss.sessions) le))
step-last_created now token closes es ss m h = unfold get in refl

run_steps-Agrees :
    (now : ℕ) (token : Bytes) (es : List Step) (ss : SessionStore)
    → IsMap ss.sessions
    → SweptBy now es
    → Agrees now
        (get token (run_steps es ss).sessions)
        (last_created token (get token ss.sessions) es)
unfolding run_steps last_created
run_steps-Agrees now token [] ss m h = refl
run_steps-Agrees now token (e ∷ es) ss m h =
    run_steps-Agrees now token es (step e ss) (step-IsMap e ss m) (rest e h)
    ∙ step-last_created now token e es ss m h
  where
    rest : (e : Step) → SweptBy now (e ∷ es) → SweptBy now es
    rest (creates drawn sess) h = h
    rest (deletes key) h = h
    rest (sweeps t) h = h.1
    rest closes h = h

-- A session that was created at most four hours ago.
pub if_recent : ℕ → Option WebSession → Option WebSession
if_recent now none = none
if_recent now (some sess) =
    if leb (now - sess.created_at) (4 * (3600 * 10 ^ 9)) then some sess else none

unless_over-if_recent : (now : ℕ) (o : Option WebSession) → unless_over now o ≡ if_recent now o
unfolding if_recent
unless_over-if_recent now none = refl
unless_over-if_recent now (some sess) = elim (Bool-cases (is_over now sess)) [
  | inl gone ↦
      let old : leb (now - sess.created_at) (4 * (3600 * 10 ^ 9)) ≡ false = ground arith in
      rw (gone, old) refl
  | inr stays ↦
      let recent : leb (now - sess.created_at) (4 * (3600 * 10 ^ 9)) ≡ true = ground arith in
      rw (stays, recent) refl
]

-- From a new store and after any logins, logouts, rounds of the sweeper and shutdowns, Get of a token
-- finds the session last created under it, unless it was deleted or the store closed since or it is
-- older than four hours; the rounds of the sweeper are made at the time of the Get or before.
pub get_session-last_created :
    (now : ℕ) (token : Bytes) (es : List Step)
    → SweptBy now es
    → get_session now token (run_steps es new_session_store)
      ≡ if_recent now (last_created token none es)
unfolding get_session new_session_store get
get_session-last_created now token es h =
    run_steps-Agrees now token es new_session_store tt h
    ∙ unless_over-if_recent now (last_created token none es)
