-- ===== src/Config/Bounds.antt =====
-- About the settings that from_env of xingestion/config.py returns.
use xingestionv.Prelude.{
  ℕ, suc, ◌*◌, ◌≤◌, ◌<◌, ◌≡◌, refl, zero, ℤ, pos, negsuc, Bool, true, false, String, arith, ltb,
  Bool-cases, inl, inr, if◌then◌else◌,
}
use Prim.Native.Nat.{min}
use xingestionv.Schema.{second, ok, err, value_error}
use xingestionv.Results.{Ok, Ok-bind, Ok-step, Ok_returned}
use xingestionv.Guard.{new_guard}
use xingestionv.Config.{
  Float, finite, infinite, minus_infinite, not_a_number, Environment, none_left, reaches, read,
  above_zero, positive_int, positive_float, check, Settings, Checked, checked_settings, settings_of,
  other_settings, from_env,
}

-- A heartbeat that is a finite number is one that TaskLeaseGuard accepts.
abbrev IsAccepted : ℕ → ℕ → Float → Type 0
IsAccepted lease idle (finite (pos n)) =
    (new_guard lease n ≡ ok (record { lease_seconds = lease; heartbeat = n })) × (n < idle * 1000)
IsAccepted lease idle (finite (negsuc n)) = ⊥
IsAccepted lease idle infinite = ⊥
IsAccepted lease idle minus_infinite = ⊥
IsAccepted lease idle not_a_number = Unit

pub record IsUsable (s : Settings) : Type 0 where
  pub pool_min : 0 < s.db_pool_min_size
  pub pool : s.db_pool_min_size ≤ s.db_pool_max_size
  pub lease : 0 < s.task_lease_seconds
  pub heartbeat : IsAccepted s.task_lease_seconds s.task_reclaim_idle_ms s.task_heartbeat_seconds
  pub batch : 0 < s.outbox_batch_size
  pub concurrency : 0 < s.worker_concurrency
  pub page_size_min : 0 < s.collector_page_size
  pub page_size_max : s.collector_page_size ≤ 20
  pub max_pages : 0 < s.collector_max_pages

pub above_zero_lem : (z : ℤ) → Ok (λ n. 0 < n) (above_zero z)
above_zero_lem (pos zero) = tt
above_zero_lem (pos (suc n)) = omega arith
above_zero_lem (negsuc n) = tt

positive_int_lem :
    (env : Environment) (name : String) (d : ℕ) → Ok (λ n. 0 < n) (positive_int env name d)
unfolding positive_int
positive_int_lem env name d =
    Ok-step (λ n. 0 < n) (read env.int_of (pos d) (env.getenv name)) above_zero
      (λ z e. above_zero_lem z)

accepted :
    (f : Float) → Ok (λ g. none_left g ≡ false) (if none_left f then err value_error else ok f)
accepted f = elim (Bool-cases (none_left f)) [ inl y ↦ rw y tt | inr n ↦ rw n n ]

positive_float_lem :
    (env : Environment) (name : String) (d : Float)
    → Ok (λ f. none_left f ≡ false) (positive_float env name d)
unfolding positive_float
positive_float_lem env name d =
    Ok-step (λ f. none_left f ≡ false) (read env.float_of d (env.getenv name)) _ (λ f e. accepted f)

min_above : (n : ℕ) → 0 < n → 0 < min n 20
min_above n h = omega (arith, h)

min_below : (n : ℕ) → min n 20 ≤ 20
min_below n = omega arith

check_lem : (b : Bool) → Ok (λ u. b ≡ false) (check b)
check_lem true = tt
check_lem false = refl

heartbeat-IsAccepted :
    (lease idle : ℕ) (f : Float)
    → 0 < lease
    → none_left f ≡ false
    → reaches f (lease * second) ≡ false
    → reaches f (idle * 1000) ≡ false
    → IsAccepted lease idle f
unfolding new_guard
heartbeat-IsAccepted lease idle (finite (pos n)) l p r i =
    (ground (arith, l, p, r), ground (arith, i))
heartbeat-IsAccepted lease idle (finite (negsuc n)) l p r i = ground arith
heartbeat-IsAccepted lease idle infinite l p r i = absurd (cc)
heartbeat-IsAccepted lease idle minus_infinite l p r i = absurd (cc)
heartbeat-IsAccepted lease idle not_a_number l p r i = tt

record IsChecked (c : Checked) : Type 0 where
  pool_min : 0 < c.min_pool
  pool : c.min_pool ≤ c.max_pool
  lease : 0 < c.lease_seconds
  heartbeat : IsAccepted c.lease_seconds c.reclaim_idle_ms c.heartbeat_seconds

checked_settings-IsChecked : (env : Environment) → Ok IsChecked (checked_settings env)
unfolding checked_settings
checked_settings-IsChecked env =
    Ok-bind (λ n. 0 < n) IsChecked _ _ (positive_int_lem env "DB_POOL_MIN_SIZE" 2)
      λ least a.
        Ok-bind (λ n. 0 < n) IsChecked _ _ (positive_int_lem env "DB_POOL_MAX_SIZE" 20)
          λ most b.
            Ok-bind (λ (u : Bool). ltb most least ≡ false) IsChecked _ _
              (check_lem (ltb most least))
              λ u c.
                Ok-bind (λ n. 0 < n) IsChecked _ _ (positive_int_lem env "TASK_LEASE_SECONDS" 120)
                  λ lease d.
                    Ok-bind (λ f. none_left f ≡ false) IsChecked _ _
                      (positive_float_lem env "TASK_HEARTBEAT_SECONDS" _)
                      λ beat e.
                        Ok-bind (λ (u : Bool). reaches beat (lease * second) ≡ false) IsChecked _ _
                          (check_lem (reaches beat (lease * second)))
                          λ v f.
                            Ok-bind (λ n. 0 < n) IsChecked _ _
                              (positive_int_lem env "TASK_RECLAIM_IDLE_MS" _)
                              λ idle g.
                                Ok-bind (λ (u : Bool). reaches beat (idle * 1000) ≡ false) IsChecked
                                  _
                                  (λ w. ok (record {
                                    min_pool = least;
                                    max_pool = most;
                                    lease_seconds = lease;
                                    heartbeat_seconds = beat;
                                    reclaim_idle_ms = idle;
                                  }))
                                  (check_lem (reaches beat (idle * 1000)))
                                  λ w h. record {
                                    pool_min = a;
                                    pool = ground (arith, c);
                                    lease = d;
                                    heartbeat = heartbeat-IsAccepted lease idle beat d e f h;
                                  }

other_settings-IsUsable :
    (env : Environment) (c : Checked) → IsChecked c → Ok IsUsable (other_settings env c)
unfolding other_settings
other_settings-IsUsable env c k =
    Ok-step IsUsable (positive_int env "TASK_READ_BLOCK_MS" 2000) _ λ block _.
      Ok-step IsUsable (positive_float env "OUTBOX_POLL_SECONDS" (finite (pos 250000))) _ λ poll _.
        Ok-bind (λ n. 0 < n) IsUsable _ _ (positive_int_lem env "OUTBOX_BATCH_SIZE" 100)
          λ batch b.
            Ok-bind (λ n. 0 < n) IsUsable _ _ (positive_int_lem env "WORKER_CONCURRENCY" 4)
              λ workers d.
                Ok-step IsUsable (positive_float env "IDLE_SLEEP_SECONDS" (finite (pos 250000))) _
                  λ idle _.
                    Ok-step IsUsable (positive_int env "TOKEN_LEASE_SECONDS" 90) _ λ token_lease _.
                      Ok-step IsUsable (positive_int env "COOLDOWN_SECONDS" 300) _ λ cooldown _.
                        Ok-step IsUsable
                          (positive_float env "REQUEST_TIMEOUT_SECONDS" (finite (pos 20000000))) _
                          λ timeout _.
                            Ok-bind (λ n. 0 < n) IsUsable _ _
                              (positive_int_lem env "COLLECTOR_PAGE_SIZE" 20)
                              λ size e.
                                Ok-bind (λ n. 0 < n) IsUsable _
                                  (λ n. ok (
                                    settings_of env c block poll batch workers idle token_lease
                                      cooldown timeout size n))
                                  (positive_int_lem env "COLLECTOR_MAX_PAGES" 1)
                                  λ pages p. record {
                                    pool_min = k.pool_min;
                                    pool = k.pool;
                                    lease = k.lease;
                                    heartbeat = k.heartbeat;
                                    batch = b;
                                    concurrency = d;
                                    page_size_min = min_above size e;
                                    page_size_max = min_below size;
                                    max_pages = p;
                                  }

-- Whatever the environment holds, the settings that from_env returns are usable: the pool has at
-- least one connection and its bounds are in order; the lease lasts; a heartbeat that is a finite
-- number is one that TaskLeaseGuard accepts for this lease, shorter than the time after which
-- deliveries are reclaimed; the batch, the workers and the pages are at least one, and a page has
-- from 1 to 20 items. The one heartbeat that is not finite and is let through is NaN.
pub from_env-IsUsable : (env : Environment) (s : Settings) → from_env env ≡ ok s → IsUsable s
unfolding from_env
from_env-IsUsable env s e =
    Ok_returned IsUsable (from_env env) s
      (Ok-bind IsChecked IsUsable (checked_settings env) (other_settings env)
        (checked_settings-IsChecked env) (other_settings-IsUsable env))
      e
