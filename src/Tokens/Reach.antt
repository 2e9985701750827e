-- ===== src/Tokens/Reach.antt =====
-- The session pool under the calls of all workers.
use xingestionv.Prelude.{ℕ, ◌≤◌, ◌≡◌, refl, Bool, Option, none, some, String, ◌==◌, take_text}
use Prim.Native.String.{◌++◌ as append}
use xingestionv.Json.{Json}
use xingestionv.Capabilities.{Builtins}
use xingestionv.TokenRefresh.{Call, answers, raises, JsonTools, revived, revoked_row, record_repair}
use xingestionv.Schema.{Sessions}
use xingestionv.Tokens.Capacity.{
  Capacity, later-Capacity, delete-Capacity, update-Capacity, checkout_token-Capacity,
}
use xingestionv.Tokens.{
  TokenLease, checkout_token, is_lease, release_lease, succeeded, record_success, cooled,
  mark_cooldown, rested, recovered, recover_expired_cooldowns,
}

-- A call of TokenRepository, or the end of programmatically_repair_session, at the time `now`.
pub data PoolStep (now : ℕ) (s : Sessions) : Sessions → Type 0 where
  checks_out :
      {u : Sessions} (locked : ℕ → Bool) (owner : String) (seconds : ℕ)
      → u ≡ (checkout_token s locked owner seconds now).1
      → PoolStep now s u
  gives_back : {u : Sessions} (lease : TokenLease) → u ≡ release_lease s lease → PoolStep now s u
  succeeds : {u : Sessions} (lease : TokenLease) → u ≡ record_success s lease now → PoolStep now s u
  cools_down :
      {u : Sessions} (lease : TokenLease) (seconds : ℕ) (message : String)
      → u ≡ mark_cooldown s lease seconds message now
      → PoolStep now s u
  recovers : {u : Sessions} → u ≡ (recover_expired_cooldowns s now).1 → PoolStep now s u
  repairs :
      {u : Sessions} (py : Builtins) (tools : JsonTools) (token_id : ℕ)
      (outcome : Call (Option Json))
      → u ≡ record_repair py tools token_id now outcome s
      → PoolStep now s u

-- The calls of all workers one after the other, from the pool `s` at the time `start`.
pub data PoolReach (start : ℕ) (s : Sessions) : ℕ → Sessions → Type 0 where
  begin : PoolReach start s start s
  call :
      {now later : ℕ} {t u : Sessions}
      → PoolReach start s now t
      → now ≤ later
      → PoolStep later t u
      → PoolReach start s later u

record_repair-Capacity :
    (py : Builtins) (tools : JsonTools) (now : ℕ) (s : Sessions) (i : ℕ)
    (outcome : Call (Option Json))
    → Capacity now s
    → Capacity now (record_repair py tools i now outcome s)
unfolding record_repair
record_repair-Capacity py tools now s i (answers none) c = c
record_repair-Capacity py tools now s i (answers (some cookies)) c =
    update-Capacity now s (λ t. t.id == i) (revived (tools.dumps cookies) now) (λ t. refl)
      (λ t. refl) c
record_repair-Capacity py tools now s i (raises e) c =
    update-Capacity now s (λ t. t.id == i)
      (revoked_row (take_text 2000 (append "re_auth_failed: " e))) (λ t. refl) (λ t. refl) c

PoolStep-Capacity : (now : ℕ) (s u : Sessions) → PoolStep now s u → Capacity now s → Capacity now u
unfolding release_lease record_success mark_cooldown recover_expired_cooldowns
PoolStep-Capacity now s u (checks_out locked owner seconds e) c =
    rw e (checkout_token-Capacity s locked owner seconds now c)
PoolStep-Capacity now s u (gives_back lease e) c = rw e (delete-Capacity now s (is_lease lease) c)
PoolStep-Capacity now s u (succeeds lease e) c = rw e (
    delete-Capacity now _ (is_lease lease) (
      update-Capacity now s (λ t. t.id == lease.token_id) (succeeded now) (λ t. refl) (λ t. refl)
        c))
PoolStep-Capacity now s u (cools_down lease seconds message e) c = rw e (
    delete-Capacity now _ (is_lease lease) (
      update-Capacity now s (λ t. t.id == lease.token_id) (cooled seconds message now) (λ t. refl)
        (λ t. refl) c))
PoolStep-Capacity now s u (recovers e) c =
    rw e (update-Capacity now s (rested now) (recovered now) (λ t. refl) (λ t. refl) c)
PoolStep-Capacity now s u (repairs py tools i outcome e) c =
    rw e (record_repair-Capacity py tools now s i outcome c)

-- From a pool where no session has more live leases than its max_concurrency, every sequence of
-- calls at times that do not go back leads to such a pool.
pub PoolReach-Capacity :
    (start : ℕ) (s : Sessions) (now : ℕ) (u : Sessions)
    → PoolReach start s now u
    → Capacity start s
    → Capacity now u
PoolReach-Capacity start s now u begin c = c
PoolReach-Capacity start s later u (call {now = now} {t = t} before h step) c =
    PoolStep-Capacity later t u step
      (later-Capacity t now later h (PoolReach-Capacity start s now t before c))
