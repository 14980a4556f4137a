-- ===== src/Auth.antt =====
-- apps/control-plane/src/modules/auth/local-auth.guard.ts: which requests are let in. The HMAC that makes the
-- workers' token of the access token is a parameter; equal texts are equal for `timingSafeEqual`.
mod Tests
pub mod Admitted
use Prim.Native.String.{String, len, slice}
use text.Mathlib.Text.{starts_with, ◌==◌ as text_eq}
use agent_reliability_platfo.Base.{
  ℕ, ◌-◌, Bool, true, false, not, ◌&&◌, ◌||◌, Option, none, some, List, [], ◌∷◌, ◌==◌, any,
  if◌then◌else◌,
}

-- The headers of a request; the pieces of the cookie header are split at `;` and trimmed.
pub record Request : Type 0 where
  pub path : String
  pub origin : Option String
  pub authorization : Option String
  pub cookies : List String

pub data Access : Type 0 where
  granted forbidden unauthorized : Access

unfoldable pub token_matches : String → String → Bool
token_matches actual expected =
    not (len actual == 0)
    && not (len expected == 0)
    && len actual == len expected
    && text_eq actual expected

unfoldable pub is_local_origin : Option String → String → Bool
is_local_origin none allowed = true
is_local_origin (some origin) allowed = len origin == 0 || text_eq origin allowed

-- The text behind a prefix, where it is there.
abbrev strip : String → String → String
strip prefix s = if starts_with s prefix then slice s (len prefix) (len s) else s

abbrev pub bearer_of : Request → String
bearer_of r = elim r.authorization [ none ↦ "" | some s ↦ strip "Bearer " s ]

unfoldable pub session_of : List String → String
session_of [] = ""
session_of (c ∷ cs) = if starts_with c "arp_session=" then strip "arp_session=" c else session_of cs

abbrev pub is_exempt : String → Bool
is_exempt path = text_eq path "/api/health" || text_eq path "/health"

-- The paths that a public demonstration keeps closed.
abbrev pub is_personal : String → Bool
is_personal path =
    any (λ p. starts_with path p)
      ("/internal" ∷ "/api/repositories" ∷ "/api/credentials" ∷ "/api/drafts" ∷ "/api/session" ∷ [])

-- The paths that need no token.
unfoldable pub is_open : Bool → String → Bool
is_open demo path =
    is_exempt path || demo && not (is_personal path) || text_eq path "/api/github/webhook"

-- What is left of `canActivate` for a request of a trusted origin.
unfoldable pub check_token : (String → String) → String → Request → Access
unfolding token_matches session_of
check_token worker_token access r =
    if starts_with r.path "/internal/"
    then (if token_matches (bearer_of r) (worker_token access)
        then Access.granted
        else Access.unauthorized)
    else if token_matches (bearer_of r) access || token_matches (session_of r.cookies) access
    then Access.granted
    else Access.unauthorized

-- `canActivate`
unfoldable pub can_activate : (String → String) → String → String → Bool → Request → Access
unfolding is_open is_local_origin check_token
can_activate worker_token access web_origin demo r =
    if is_open demo r.path
    then Access.granted
    else if is_local_origin r.origin web_origin
    then check_token worker_token access r
    else Access.forbidden
