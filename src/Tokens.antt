-- ===== src/Tokens.antt =====
-- `TokenRepository` of xingestion/control_plane.py: the pool of sessions and their leases. The rows
-- that SKIP LOCKED passes over are given by the test `locked`.
pub mod Capacity
pub mod Reach
use xingestionv.Prelude.{
  ℕ, suc, ◌+◌, ◌*◌, Bool, true, false, not, ◌&&◌, ◌||◌, Option, none, some, List, [], String, ◌==◌,
  ltb, leb, is_null, at_most, str_eq, if◌then◌else◌,
}
use xingestionv.Schema.{
  Sessions, Token, LeaseRow, active, cooldown, is_active, is_cooldown, second, Result, ok, err,
  unique_violation,
}
use xingestionv.Table.{find, select, update, delete, count, insert, order_by}
use xingestionv.Tasks.{clip}

pub record TokenLease : Type 0 where
  pub lease_id : ℕ
  pub token_id : ℕ
  pub token_key : String
  pub token_value : String
  pub lease_owner : String
  pub lease_expires_at : ℕ

-- DELETE FROM service_token_leases WHERE lease_expires_at <= NOW()
abbrev pub expired : ℕ → LeaseRow → Bool
expired now l = leb l.lease_expires_at now

-- The leases that the subquery of checkout_token counts.
abbrev pub live_on : ℕ → ℕ → LeaseRow → Bool
live_on now token_id l = l.token_id == token_id && ltb now l.lease_expires_at

-- The WHERE clause of checkout_token, and its SKIP LOCKED.
abbrev pub available : (ℕ → Bool) → ℕ → List LeaseRow → Token → Bool
available locked now leases st =
    is_active st.status
    && ((is_null st.cooldown_until || at_most st.cooldown_until now)
        && (ltb (count (live_on now st.id) leases) st.max_concurrency && not (locked st.id)))

-- ORDER BY st.last_leased_at NULLS FIRST, st.id ASC
abbrev pub leased_before : Option ℕ → ℕ → Option ℕ → ℕ → Bool
leased_before none i none j = leb i j
leased_before none i (some b) j = true
leased_before (some a) i none j = false
leased_before (some a) i (some b) j = ltb a b || (a == b && leb i j)

abbrev pub rested_longer : Token → Token → Bool
rested_longer a b = leased_before a.last_leased_at a.id b.last_leased_at b.id

-- LIMIT 1, read by `fetchrow`
unfoldable pub first {ℓ} : {A : Type ℓ} → List A → Option A
first [] = none
first (List.◌∷◌ a rest) = some a

abbrev pub checked_out : ℕ → Token → Token
checked_out now st = record st { last_leased_at = some now; updated_at = now }

abbrev pub new_lease : ℕ → ℕ → String → ℕ → ℕ → LeaseRow
new_lease id token_id owner seconds now = record {
  id = id;
  token_id = token_id;
  lease_owner = owner;
  acquired_at = now;
  lease_expires_at = now + seconds * second;
}

abbrev pub token_lease : ℕ → ℕ → String → ℕ → Token → TokenLease
token_lease id seconds owner now st = record {
  lease_id = id;
  token_id = st.id;
  token_key = st.token_key;
  token_value = st.token_value;
  lease_owner = owner;
  lease_expires_at = now + seconds * second;
}

-- checkout_token once it has found a session. The unique key (token_id, lease_owner) makes the
-- INSERT fail where the owner has a lease on the session; then the transaction is rolled back.
unfoldable pub grant :
    Sessions → Sessions → String → ℕ → ℕ → Token → Result (Option TokenLease) × Sessions
grant before s owner seconds now st =
    elim (find (λ l. l.token_id == st.id && str_eq l.lease_owner owner) s.leases) [
      | some l ↦ (err unique_violation, before)
      | none ↦ (
        ok (some (token_lease s.next_lease seconds owner now st)),
        record s {
          leases = insert (new_lease s.next_lease st.id owner seconds now) s.leases;
          next_lease = suc s.next_lease;
          tokens = update (λ t. t.id == st.id) (checked_out now) s.tokens;
        },
      )
    ]

-- The SELECT of checkout_token.
unfoldable pub candidate : Sessions → (ℕ → Bool) → ℕ → Option Token
candidate s locked now =
    first (order_by rested_longer (select (available locked now s.leases) s.tokens))

-- TokenRepository.checkout_token
unfoldable pub checkout_token :
    Sessions → (ℕ → Bool) → String → ℕ → ℕ → Result (Option TokenLease) × Sessions
checkout_token s locked lease_owner lease_seconds now =
    let swept = record s { leases = delete (expired now) s.leases } in
    elim (candidate swept locked now) [
      | none ↦ (ok none, swept)
      | some st ↦ grant s swept lease_owner lease_seconds now st
    ]

-- DELETE FROM service_token_leases WHERE id = $1 AND lease_owner = $2
abbrev pub is_lease : TokenLease → LeaseRow → Bool
is_lease lease l = l.id == lease.lease_id && str_eq l.lease_owner lease.lease_owner

-- TokenRepository.release_lease
unfoldable pub release_lease : Sessions → TokenLease → Sessions
release_lease s lease = record s { leases = delete (is_lease lease) s.leases }

abbrev pub succeeded : ℕ → Token → Token
succeeded now st = record st {
  last_used_at = some now;
  last_error = if is_active st.status then none else st.last_error;
  updated_at = now;
}

-- TokenRepository.record_success
unfoldable pub record_success : Sessions → TokenLease → ℕ → Sessions
unfolding release_lease
record_success s lease now =
    release_lease
      (record s { tokens = update (λ t. t.id == lease.token_id) (succeeded now) s.tokens }) lease

abbrev pub cooled : ℕ → String → ℕ → Token → Token
cooled seconds error_message now st = record st {
  status = cooldown;
  cooldown_until = some (now + seconds * second);
  last_error = clip error_message;
  updated_at = now;
}

-- TokenRepository.mark_cooldown
unfoldable pub mark_cooldown : Sessions → TokenLease → ℕ → String → ℕ → Sessions
unfolding release_lease
mark_cooldown s lease cooldown_seconds error_message now =
    release_lease
      (record s {
        tokens =
            update (λ t. t.id == lease.token_id) (cooled cooldown_seconds error_message now)
              s.tokens;
      })
      lease

-- WHERE status = 'COOLDOWN' AND cooldown_until <= NOW()
abbrev pub rested : ℕ → Token → Bool
rested now st = is_cooldown st.status && at_most st.cooldown_until now

abbrev pub recovered : ℕ → Token → Token
recovered now st = record st {
  status = active;
  cooldown_until = none;
  last_error = none;
  updated_at = now;
}

-- TokenRepository.recover_expired_cooldowns
unfoldable pub recover_expired_cooldowns : Sessions → ℕ → ℕ × Sessions
recover_expired_cooldowns s now = (
  count (rested now) s.tokens,
  record s { tokens = update (rested now) (recovered now) s.tokens },
)
