-- ===== src/TokenRefresh.antt =====
-- token_refresh_service.py: the repair of sessions whose authentication failed. The reader and the
-- printer of JSON, the one-time codes and the login are arguments.
pub mod Once
use Prim.Native.String.{◌++◌}
use text.Mathlib.Text.{starts_with}
use xingestionv.Prelude.{
  ℕ, suc, Bool, true, false, not, ◌&&◌, ◌||◌, Option, none, some, List, [], ◌∷◌, String, ◌==◌,
  str_eq, take_text, if◌then◌else◌,
}
use xingestionv.Json.{Json, Fields, null, obj}
use xingestionv.Schema.{Sessions, Token, active, revoked, is_cooldown}
use xingestionv.Table.{select, update}
use xingestionv.Capabilities.{Builtins}
use xingestionv.Capabilities.Values.{get, get_or, is_truthy, to_text}

-- A call returns, or raises an exception with a text.
pub data Call {ℓ} (A : Type ℓ) : Type ℓ where
  answers : A → Call A
  raises : String → Call A

abbrev pub and_then {ℓ κ} : {A : Type ℓ} {B : Type κ} → Call A → (A → Call B) → Call B
and_then (answers a) f = f a
and_then (raises e) f = raises e

-- `no_get` is the text of the AttributeError of a value that is not an object.
pub record JsonTools : Type 0 where
  pub loads : String → Call Json
  pub dumps : Json → String
  pub no_get : Json → String
  pub upper : String → String
  pub remove_spaces : String → String

-- The arguments of client.login.
pub record Credentials : Type 0 where
  pub username : String
  pub email : Json
  pub password : Json
  pub active_pin : Option String

-- What the services do when one session is repaired: the code for a secret, the answer to the login
-- with the cookies, the time of the statement, and what others did to the pool since the SELECT or
-- the session before.
pub record Repair : Type 0 where
  pub pin : String → Call String
  pub login : Credentials → Call Json
  pub now : ℕ
  pub since : Sessions → Sessions

abbrev pub revived : String → ℕ → Token → Token
revived cookies now t = record t {
  token_value = cookies;
  status = active;
  cooldown_until = none;
  last_error = none;
  updated_at = now;
}

abbrev pub revoked_row : String → Token → Token
revoked_row message t = record t { status = revoked; last_error = some message }

-- last_error LIKE '%...%'
unfoldable pub has_part : String → String → Bool
has_part String.[] part = starts_with "" part
has_part (String.◌∷◌ c s) part = starts_with (String.◌∷◌ c s) part || has_part s part

abbrev pub blames_auth : Option String → Bool
blames_auth none = false
blames_auth (some e) = has_part e "401" || (has_part e "unauthorized" || has_part e "auth")

-- The WHERE clause of scan_and_triage_dead_tokens.
abbrev pub is_dead : Token → Bool
is_dead t = is_cooldown t.status && blames_auth t.last_error

module _ (py : Builtins) (tools : JsonTools) where
  abbrev pub wants_code : Json → Bool
  wants_code secret =
      is_truthy secret && not (str_eq (tools.upper (py.strip (to_text py secret))) "NONE")

  -- totp.now(), where there is a secret
  abbrev pub second_factor : Repair → Json → Call (Option String)
  second_factor r secret =
      if wants_code secret
      then and_then (r.pin (tools.remove_spaces (py.strip (to_text py secret))))
          (λ c. answers (some c))
      else answers none

  -- The try block with the parsed credentials, to the cookies: `none` where a key is missing.
  unfoldable pub sign_in : Repair → String → Fields → Call (Option Json)
  sign_in r username creds =
      if not (is_truthy (get_or "email" null creds))
        || not (is_truthy (get_or "password" null creds))
      then answers none
      else and_then (second_factor r (get_or "totp_secret" null creds)) (λ code.
        and_then
          (r.login (record {
            username = username;
            email = get_or "email" null creds;
            password = get_or "password" null creds;
            active_pin = code;
          }))
          (λ cookies. answers (some cookies)))

  -- creds.get raises where the text is not that of an object.
  unfoldable pub with_creds : Repair → String → Json → Call (Option Json)
  unfolding sign_in
  with_creds r username (obj creds) = sign_in r username creds
  with_creds r username v = raises (tools.no_get v)

  unfoldable pub attempt : Repair → String → String → Call (Option Json)
  unfolding with_creds
  attempt r username text = and_then (tools.loads text) (with_creds r username)

  -- programmatically_repair_session once the attempt is over.
  unfoldable pub record_repair : ℕ → ℕ → Call (Option Json) → Sessions → Sessions
  record_repair token_id now (answers none) s = s
  record_repair token_id now (answers (some cookies)) s = record s {
    tokens = update (λ t. t.id == token_id) (revived (tools.dumps cookies) now) s.tokens;
  }
  record_repair token_id now (raises e) s = record s {
    tokens =
        update (λ t. t.id == token_id) (revoked_row (take_text 2000 ("re_auth_failed: " ++ e)))
          s.tokens;
  }

  -- programmatically_repair_session
  unfoldable pub programmatically_repair_session :
      Repair → ℕ → String → String → Sessions → Sessions
  unfolding attempt record_repair
  programmatically_repair_session r token_id username text s =
      record_repair token_id r.now (attempt r username text) s

  -- The loop of scan_and_triage_dead_tokens, over the rows that the SELECT found.
  unfoldable pub repair_rows : (ℕ → Repair) → ℕ → List Token → Sessions → Sessions
  unfolding programmatically_repair_session
  repair_rows repairs number [] s = s
  repair_rows repairs number (t ∷ rows) s = repair_rows repairs (suc number) rows (
      programmatically_repair_session (repairs number) t.id t.token_key t.token_value
        ((repairs number).since s))

  -- scan_and_triage_dead_tokens
  unfoldable pub scan_and_triage_dead_tokens : (ℕ → Repair) → Sessions → Sessions
  unfolding repair_rows
  scan_and_triage_dead_tokens repairs s = repair_rows repairs 0 (select is_dead s.tokens) s
