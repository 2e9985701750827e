-- ===== src/TokenRefresh/Once.antt =====
-- About repeated repairs of a session by token_refresh_service.py.
use xingestionv.Prelude.{ℕ, ◌≡◌, refl, none, some, String, ◌==◌, arith}
use xingestionv.Json.{Fields, obj}
use xingestionv.Schema.{Sessions, Token, active}
use xingestionv.Table.Laws.{find-IsTrue, find-update}
use xingestionv.Capabilities.{Builtins}
use xingestionv.Capabilities.Values.{get}
use xingestionv.Tokens.Capacity.{token_at}
use xingestionv.TokenRefresh.{
  answers, JsonTools, Repair, revived, attempt, with_creds, sign_in, record_repair,
  programmatically_repair_session,
}

module _ (py : Builtins) (tools : JsonTools) where
  without_email :
      (r : Repair) (username : String) (creds : Fields)
      → get "email" creds ≡ none
      → sign_in py tools r username creds ≡ answers none
  unfolding sign_in
  without_email r username creds n = ground (arith, n)

  -- After a repair with cookies that have no "email", which json.loads reads back as json.dumps
  -- printed them, the session is active without an error, and every later repair of it, whatever
  -- the services answer, finds no credentials and leaves the pool as it is.
  pub repaired_once :
      (r later : Repair) (i : ℕ) (username text : String) (s s' : Sessions) (t : Token)
      (cookies : Fields)
      → token_at s i ≡ some t
      → attempt py tools r username text ≡ answers (some (obj cookies))
      → tools.loads (tools.dumps (obj cookies)) ≡ answers (obj cookies)
      → get "email" cookies ≡ none
      → (u : Token) × (token_at (programmatically_repair_session py tools r i username text s) i
          ≡ some u)
        × (u.status ≡ active)
        × (u.last_error ≡ none)
        × (programmatically_repair_session py tools later i u.token_key u.token_value s' ≡ s')
  unfolding programmatically_repair_session record_repair attempt with_creds
  repaired_once r later i username text s s' t cookies h a l n = (
    revived (tools.dumps (obj cookies)) r.now t,
    rw
        (
          a,
          find-update (λ q. q.id == i) (λ q. q.id == i) (revived (tools.dumps (obj cookies)) r.now)
              s.tokens (λ q. refl),
          h,
        )
        (ground (arith, find-IsTrue (λ q. q.id == i) s.tokens t h)),
    refl,
    refl,
    rw (l, without_email later t.token_key cookies n) refl,
  )
