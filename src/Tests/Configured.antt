-- ===== src/Tests/Configured.antt =====
-- The settings and the replay tool in concrete environments.
use xingestionv.Prelude.{
  ◌<◌, ◌≡◌, refl, pos, Option, none, some, List, [], ◌∷◌, String, str_eq, if◌then◌else◌,
}
use xingestionv.Schema.{ok}
use xingestionv.Table.{find, insert}
use xingestionv.Table.All.{All}
use xingestionv.Table.Keyed.{Unique}
use xingestionv.Config.{Environment, finite, not_a_number, Settings, settings_of, from_env}
use xingestionv.Config.Bounds.{IsUsable, from_env-IsUsable}
use xingestionv.Replay.{commit, replay_rows, replayable, replay}
use xingestionv.ReplayTool.{Arguments, replay_arguments}
use xingestionv.ReplayTool.Accepted.{replay_arguments_accepted}
use xingestionv.System.{empty}
use xingestionv.Tests.Ledger.{unlocked}

-- REPLAY_DEAD_LETTER_IDS is "1,1", and the other variables are not set.
abbrev variables : String → Option String
variables name = if str_eq name "REPLAY_DEAD_LETTER_IDS" then some "1,1" else none

abbrev environment : Environment
environment = record {
  getenv = variables;
  int_of = λ s. some (pos 1);
  float_of = λ s. none;
  lower = λ s. s;
}

abbrev defaults : Settings
defaults =
    settings_of environment
      (record {
        min_pool = 2;
        max_pool = 20;
        lease_seconds = 120;
        heartbeat_seconds = finite (pos 40000000);
        reclaim_idle_ms = 125000;
      })
      2000 (finite (pos 250000)) 100 4 (finite (pos 250000)) 90 300 (finite (pos 20000000)) 20 1

from_env-IsUsable_example : IsUsable defaults
unfolding from_env
from_env-IsUsable_example = from_env-IsUsable environment defaults refl

-- A heartbeat of NaN passes every check.
abbrev with_nan : Environment
with_nan = record environment {
  getenv = λ name. if str_eq name "TASK_HEARTBEAT_SECONDS" then some "nan" else none;
  float_of = λ s. some not_a_number;
}

nan_passes : from_env with_nan ≡ ok (record defaults { task_heartbeat_seconds = not_a_number })
unfolding from_env
nan_passes = refl

abbrev split_ids : String → List String
split_ids s = "1" ∷ "1" ∷ []

abbrev arguments : Arguments
arguments = record {
  limit = 100;
  max_attempts = 5;
  priority = pos 50;
  selector = record { dead_letter_ids = 1 ∷ []; task_type = none; failure_class = none };
}

replay_arguments_accepted_example :
    Unique (λ k. k) (1 ∷ [])
    × All (λ k. 0 < k) (1 ∷ [])
    × (replay empty arguments.selector unlocked 100 5 (pos 50) 0
        ≡ commit empty (
            replay_rows arguments.selector 5
              (pos 50)
              0
              (replayable empty arguments.selector unlocked 100)
              empty))
unfolding replay_arguments find insert
replay_arguments_accepted_example =
    replay_arguments_accepted environment (λ s. s) split_ids arguments empty unlocked 0 refl
