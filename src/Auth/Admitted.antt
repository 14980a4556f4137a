-- ===== src/Auth/Admitted.antt =====
-- What the guard promises of the requests that it lets in.
use Prim.Native.String.{String, len}
use text.Mathlib.Text.{starts_with, ◌==◌ as text_eq}
use text.Mathlib.TextEquality.{eq_iff}
use agent_reliability_platfo.Base.{
  ◌≡◌, refl, ◌∙◌, sym, not, ◌==◌, ◌↔◌, ◌⊎◌, Bool, true, false, ◌&&◌, ◌||◌, Option, none, some,
  arith, if◌then◌else◌, inl, inr,
}
use agent_reliability_platfo.Auth.{
  Request, Access, token_matches, is_local_origin, bearer_of, session_of, is_personal, is_open,
  check_token, can_activate,
}

-- The path needs no token: it is one of three, or a demonstration shows it.
abbrev pub IsOpen : Bool → String → Type 0
IsOpen demo path =
    (path ≡ "/api/health")
    ⊎ (path ≡ "/health")
    ⊎ (path ≡ "/api/github/webhook")
    ⊎ ((demo ≡ true) × (is_personal path ≡ false))

-- The origin is trusted: the request names none, an empty one, or that of the web application.
abbrev pub IsTrusted : String → Option String → Type 0
IsTrusted allowed none = Unit {0}
IsTrusted allowed (some origin) = (len origin ≡ 0) ⊎ (origin ≡ allowed)

-- The text is the token, which is not empty.
abbrev pub IsToken : String → String → Type 0
IsToken given token = (given ≡ token) × (len token == 0 ≡ false)

-- The request presents the token of its path: on the internal paths that of the workers, as a bearer; on all
-- others the access token, as a bearer or as the cookie of the session.
abbrev pub IsPresented : Bool → (String → String) → String → Request → Type 0
IsPresented true worker_token access r = IsToken (bearer_of r) (worker_token access)
IsPresented false worker_token access r =
    IsToken (bearer_of r) access ⊎ IsToken (session_of r.cookies) access

-- A Boolean test of a property.
abbrev Tests : Bool → Type 0 → Type 0
Tests b P = (b ≡ true) ↔ P

not-Tests : (b : Bool) (P : Type 0) → Tests b P → (b ≡ false) ↔ ¬ P
not-Tests true P t = (λ h. absurd (ground arith), λ h. absurd (h (t.0 refl)))
not-Tests false P t = (λ h p. absurd (cc (t.1 p)), λ h. refl)

text-Tests : (s t : String) → Tests (text_eq s t) (s ≡ t)
text-Tests s t = eq_iff s t

or-Tests : {P Q : Type 0} (b c : Bool) → Tests b P → Tests c Q → Tests (b || c) (P ⊎ Q)
or-Tests true c p q = (λ h. inl (p.0 refl), λ h. refl)
or-Tests false c p q =
    (λ h. inr (q.0 h), λ h. elim h [ inl x ↦ absurd (cc (p.1 x)) | inr y ↦ q.1 y ])

and-Tests : {P Q : Type 0} (b c : Bool) → Tests b P → Tests c Q → Tests (b && c) (P × Q)
and-Tests true c p q = (λ h. (p.0 refl, q.0 h), λ h. q.1 h.1)
and-Tests false c p q = (λ h. absurd (ground arith), λ h. p.1 h.0)

iff-Tests : {P : Type 0} (b c : Bool) → b ≡ c → Tests c P → Tests b P
iff-Tests b c e t = (λ h. t.0 (sym e ∙ h), λ h. e ∙ t.1 h)

IsToken-Tests : (given token : String) → Tests (token_matches given token) (IsToken given token)
unfolding token_matches
IsToken-Tests given token = (
  λ h. ((eq_iff given token).0 (ground arith), ground arith),
  λ h. ground (arith, h.0, h.1, (eq_iff given token).1 h.0),
)

IsTrusted-Tests :
    (origin : Option String) (allowed : String)
    → Tests (is_local_origin origin allowed) (IsTrusted allowed origin)
unfolding is_local_origin
IsTrusted-Tests none allowed = (λ h. tt, λ h. refl)
IsTrusted-Tests (some o) allowed =
    or-Tests (len o == 0) (text_eq o allowed) (λ h. ground arith, λ h. ground arith)
      (text-Tests o allowed)

personal-Tests : (b : Bool) → Tests (not b) (b ≡ false)
personal-Tests true = (λ h. ground arith, λ h. ground arith)
personal-Tests false = (λ h. refl, λ h. refl)

IsOpen-Tests : (demo : Bool) (path : String) → Tests (is_open demo path) (IsOpen demo path)
unfolding is_open
IsOpen-Tests demo path = iff-Tests _ _ reordered (
    or-Tests (text_eq path "/api/health") _ (text-Tests path "/api/health") (
      or-Tests (text_eq path "/health") _ (text-Tests path "/health") (
        or-Tests (text_eq path "/api/github/webhook") _ (text-Tests path "/api/github/webhook") (
          and-Tests demo (not (is_personal path)) (λ h. h, λ h. h)
            (personal-Tests (is_personal path))))))
  where
    swap : (a b c d : Bool) → (a || b) || c || d ≡ a || (b || (d || c))
    swap a b c d = ground arith

    reordered :
        is_open demo path
        ≡ text_eq path "/api/health"
          || (text_eq path "/health"
              || (text_eq path "/api/github/webhook" || demo && not (is_personal path)))
    reordered =
        swap (text_eq path "/api/health") (text_eq path "/health") (demo && not (is_personal path))
          (text_eq path "/api/github/webhook")

-- The request presents the token of its path, as the code tests it.
abbrev presents_token : Bool → (String → String) → String → Request → Bool
presents_token internal worker_token access r =
    if internal
    then token_matches (bearer_of r) (worker_token access)
    else token_matches (bearer_of r) access || token_matches (session_of r.cookies) access

IsPresented-Tests :
    (internal : Bool) (worker_token : String → String) (access : String) (r : Request)
    → Tests
        (presents_token internal worker_token access r)
        (IsPresented internal worker_token access r)
IsPresented-Tests true worker_token access r = IsToken-Tests (bearer_of r) (worker_token access)
IsPresented-Tests false worker_token access r =
    or-Tests (token_matches (bearer_of r) access) (token_matches (session_of r.cookies) access)
      (IsToken-Tests (bearer_of r) access) (IsToken-Tests (session_of r.cookies) access)

-- The course of `canActivate`, as a function of its tests.
abbrev answered : Bool → Bool → Bool → Bool → Bool → Access
answered free near internal worker person =
    if free
    then Access.granted
    else if near
    then if internal
      then (if worker then Access.granted else Access.unauthorized)
      else if person
      then Access.granted
      else Access.unauthorized
    else Access.forbidden

answered-granted :
    (free near internal worker person : Bool)
    → (answered free near internal worker person ≡ Access.granted)
      ↔ (free || near && (if internal then worker else person) ≡ true)
answered-granted free near internal worker person = (λ h. ground arith, λ h. ground arith)

answered-forbidden :
    (free near internal worker person : Bool)
    → (answered free near internal worker person ≡ Access.forbidden) ↔ (free || near ≡ false)
answered-forbidden free near internal worker person = (λ h. ground arith, λ h. ground arith)

module _ (worker_token : String → String) (access web_origin : String) (demo : Bool)
    (r : Request) where
  granted-Tests : (can_activate worker_token access web_origin demo r ≡ Access.granted) ↔ (
      is_open demo r.path
        || is_local_origin r.origin web_origin
          && presents_token (starts_with r.path "/internal/") worker_token access r
      ≡ true)
  unfolding can_activate check_token
  granted-Tests =
      answered-granted (is_open demo r.path) (is_local_origin r.origin web_origin)
        (starts_with r.path "/internal/") (token_matches (bearer_of r) (worker_token access))
        (token_matches (bearer_of r) access || token_matches (session_of r.cookies) access)

  forbidden-Tests :
      (can_activate worker_token access web_origin demo r ≡ Access.forbidden)
      ↔ (is_open demo r.path || is_local_origin r.origin web_origin ≡ false)
  unfolding can_activate check_token
  forbidden-Tests =
      answered-forbidden (is_open demo r.path) (is_local_origin r.origin web_origin)
        (starts_with r.path "/internal/") (token_matches (bearer_of r) (worker_token access))
        (token_matches (bearer_of r) access || token_matches (session_of r.cookies) access)

-- A request is let in exactly if its path is open (one of health, of the webhook, or in a demonstration one
-- that is not personal), or its origin is trusted (none, empty, or that of the web application) and it presents
-- the token of its path: on the internal paths its bearer is the token of the workers, on all others its
-- bearer or its cookie is the access token, as texts, and the token is not empty. It is forbidden exactly
-- if its path is not open and its origin is not trusted; any other is unauthorized.
pub can_activate-granted :
    (worker_token : String → String) (access web_origin : String) (demo : Bool) (r : Request)
    → ((can_activate worker_token access web_origin demo r ≡ Access.granted) ↔ (
        IsOpen demo r.path
        ⊎ (IsTrusted web_origin r.origin
            × IsPresented (starts_with r.path "/internal/") worker_token access r)))
      × ((can_activate worker_token access web_origin demo r ≡ Access.forbidden)
          ↔ (¬ (IsOpen demo r.path ⊎ IsTrusted web_origin r.origin)))
can_activate-granted worker_token access web_origin demo r =
    let g = granted-Tests worker_token access web_origin demo r in
    let f = forbidden-Tests worker_token access web_origin demo r in
    let free = IsOpen-Tests demo r.path in
    let near = IsTrusted-Tests r.origin web_origin in
    let full = or-Tests (is_open demo r.path) _ free (
      and-Tests (is_local_origin r.origin web_origin) _ near
        (IsPresented-Tests (starts_with r.path "/internal/") worker_token access r)) in
    let closed =
      not-Tests _ _
        (or-Tests (is_open demo r.path) (is_local_origin r.origin web_origin) free near) in
    ((λ h. full.0 (g.0 h), λ h. g.1 (full.1 h)), (λ h. closed.0 (f.0 h), λ h. f.1 (closed.1 h)))
