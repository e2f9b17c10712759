-- ===== src/Gate/Identify.antt =====
-- Authentication, the management secret, and the checks before a handler.
use qgramm.Common.{
  ℕ, ◌+◌, String, Bool, false, not, ◌&&◌, ◌||◌, List, Option, none, some, str_eq, leb,
  if◌then◌else◌, Outcome, ok, err, fail, require, row_or, ◌>>=◌, ◌>>◌,
}
use qgramm.Store.{Identity, Db}
use qgramm.Realtime.{device_active, origin_allowed}

-- What the jwt package makes of a token whose signature, issuer, audience and expiry it accepts.
pub record Claims : Type 0 where
  pub subject : String
  pub device : String
  pub issued : Option ℕ
  pub expires : Option ℕ

-- The token has both times, and lives for 15 minutes at most.
abbrev is_short_lived : Claims → Bool
is_short_lived c = elim c.issued [
  | none ↦ false
  | some iat ↦ elim c.expires [ none ↦ false | some exp ↦ leb exp (iat + 900) ]
]

unfoldable pub authenticate : (String → Option Claims) → Bool → Db → String → Outcome Identity
unfolding device_active
authenticate parse reads db token = do
  c ← row_or (parse token) 401 "invalid token"
  require (not (str_eq c.subject "") && not (str_eq c.device "") && is_short_lived c) 401
      "short-lived device token required"
  require (device_active reads db (record { user_id = c.subject; device_id = c.device })) 401
      "revoked identity"
  ok (record { user_id = c.subject; device_id = c.device })

-- authorize: the handler runs for an identity, or the request is answered.
unfoldable pub authorize {ℓ} :
    {A : Type ℓ}
    → (String → Option Claims)
    → Bool
    → Db
    → String
    → (Identity → Outcome A)
    → Outcome A
unfolding authenticate
authorize parse reads db token handler = elim (authenticate parse reads db token) [
  | ok id ↦ handler id
  | err x ↦ fail 401 "authentication required"
]

unfoldable pub management {ℓ} : {A : Type ℓ} → String → String → Outcome A → Outcome A
management configured secret handler =
    if str_eq secret configured then handler else fail 401 "management authentication required"

-- What Handler looks at.
pub record Request : Type 0 where
  pub origin : String
  pub method : String
  pub path : String
  pub is_tls : Bool
  pub forwarded_proto : String

pub data RequestOutcome : Type 0 where
  served : RequestOutcome
  answered : ℕ → String → RequestOutcome

abbrev is_probe : Request → Bool
is_probe r = str_eq r.path "/healthz" || str_eq r.path "/readyz"

-- Handler; `admitted` is the answer of admitHTTP.
unfoldable pub handle : List String → Bool → Bool → Bool → Request → RequestOutcome
handle origins insecure proxied admitted r =
    if not (origin_allowed origins r.origin)
    then answered 403 "origin denied"
    else (if not (str_eq r.origin "") && str_eq r.method "OPTIONS"
        then answered 204 ""
        else (if not (is_probe r)
              && not r.is_tls
              && not insecure
              && not (proxied && str_eq r.forwarded_proto "https")
            then answered 400 "HTTPS required"
            else (if not (str_eq r.path "/v1/ws") && not (is_probe r) && not admitted
                then answered 503 "request capacity reached"
                else served)))
