-- ===== src/ReplayTool.antt =====
-- task_replay.py: what the replay of dead letters is called with. `split` is raw.split(",").
pub mod Accepted
use Prim.Native.Nat.{max}
use xingestionv.Prelude.{
  ℕ, zero, suc, ◌<◌, ◌≡◌, refl, ℤ, pos, negsuc, Bool, true, false, Option, none, some, List, [],
  ◌∷◌, String, arith, str_eq, is_null, ◌==◌, ==_iff, Option-cases, Bool-cases, inl, inr,
  if◌then◌else◌,
}
use xingestionv.Schema.{Db, Result, ok, err, ◌>>=◌, value_error}
use xingestionv.Results.{Ok, Ok-bind, Ok-step, Ok-map, Ok_returned}
use xingestionv.Table.{find, insert}
use xingestionv.Table.All.{All}
use xingestionv.Table.Keyed.{Unique, insert-Unique}
use xingestionv.Config.{Environment, read, or_none, above_zero}
use xingestionv.Replay.{ReplaySelector}

-- tuple(dict.fromkeys(values)), from the keys that are already there
unfoldable pub from_keys : List ℕ → List ℕ → List ℕ
from_keys keys [] = keys
from_keys keys (v ∷ values) =
    from_keys (if is_null (find (λ k. k == v) keys) then insert v keys else keys) values

-- max(1, value)
abbrev pub at_least_one : ℤ → ℕ
at_least_one (pos n) = max 1 n
at_least_one (negsuc n) = 1

pub record Arguments : Type 0 where
  pub limit : ℕ
  pub max_attempts : ℕ
  pub priority : ℤ
  pub selector : ReplaySelector

module _ (env : Environment) (strip : String → String) (split : String → List String) where
  -- The loop of parse_dead_letter_ids, to the values.
  unfoldable pub positive_values : List String → Result (List ℕ)
  positive_values [] = ok []
  positive_values (part ∷ parts) =
      let rest = positive_values parts in
      if str_eq (strip part) ""
      then rest
      else read env.int_of (pos 0) (some (strip part))
        >>= above_zero
        >>= (λ v. rest >>= (λ values. ok (v ∷ values)))

  -- parse_dead_letter_ids
  unfoldable pub parse_dead_letter_ids : Option String → Result (List ℕ)
  unfolding positive_values from_keys
  parse_dead_letter_ids none = ok []
  parse_dead_letter_ids (some raw) =
      if str_eq raw ""
      then ok []
      else positive_values (split raw) >>= (λ values. ok (from_keys [] values))

  -- The arguments of the call of replay in main.
  unfoldable pub replay_arguments : Result Arguments
  unfolding parse_dead_letter_ids
  replay_arguments = do
    limit ← read env.int_of (pos 100) (env.getenv "REPLAY_LIMIT")
    max_attempts ← read env.int_of (pos 5) (env.getenv "REPLAY_MAX_ATTEMPTS")
    priority ← read env.int_of (pos 50) (env.getenv "REPLAY_PRIORITY")
    ids ← parse_dead_letter_ids (env.getenv "REPLAY_DEAD_LETTER_IDS")
    ok (record {
      limit = at_least_one limit;
      max_attempts = at_least_one max_attempts;
      priority = priority;
      selector = record {
        dead_letter_ids = ids;
        task_type = or_none (env.getenv "REPLAY_TASK_TYPE");
        failure_class = or_none (env.getenv "REPLAY_FAILURE_CLASS");
      };
    })
