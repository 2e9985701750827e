-- ===== src/ReplayTool/Accepted.antt =====
-- About the arguments that main of task_replay.py gives to replay.
use xingestionv.Prelude.{
  ℕ, ◌<◌, ◌≡◌, refl, ℤ, pos, negsuc, Bool, false, Option, none, some, List, [], ◌∷◌, String, arith,
  str_eq, ◌==◌, Option-cases, Bool-cases, inl, inr, leb,
}
use xingestionv.Schema.{Db, ok}
use xingestionv.Results.{Ok, Ok-bind, Ok-step, Ok_returned}
use xingestionv.Table.{find, insert}
use xingestionv.Table.All.{All, insert-All}
use xingestionv.Table.Keyed.{Unique, insert-Unique}
use xingestionv.Config.{Environment, read, above_zero}
use xingestionv.Config.Bounds.{above_zero_lem}
use xingestionv.Replay.{commit, replay_rows, replayable, replay}
use xingestionv.ReplayTool.{
  from_keys, positive_values, parse_dead_letter_ids, at_least_one, Arguments, replay_arguments,
}

-- Numbers that are positive, none of them twice.
abbrev ArePositive : List ℕ → Type 0
ArePositive ids = All (λ k. 0 < k) ids

from_keys-Unique :
    (keys values : List ℕ)
    → Unique (λ k. k) keys
    → ArePositive keys
    → ArePositive values
    → Unique (λ k. k) (from_keys keys values) × ArePositive (from_keys keys values)
unfolding from_keys
from_keys-Unique keys [] u p q = (u, p)
from_keys-Unique keys (v ∷ values) u p q = elim (Option-cases (find (λ k. k == v) keys)) [
  | inl e ↦ rw e (
      from_keys-Unique (insert v keys) values (insert-Unique (λ k. k) v keys e u)
        (insert-All (λ k. 0 < k) v keys q.0 p) q.1)
  | inr (k, e) ↦ rw e (from_keys-Unique keys values u p q.1)
]

at_least_one_lem : (z : ℤ) → leb (at_least_one z) 0 ≡ false
at_least_one_lem (pos n) = ground arith
at_least_one_lem (negsuc n) = ground arith

module _ (env : Environment) (strip : String → String) (split : String → List String) where
  values_positive : (parts : List String) → Ok ArePositive (positive_values env strip split parts)
  unfolding positive_values
  values_positive [] = tt
  values_positive (part ∷ parts) = elim (Bool-cases (str_eq (strip part) "")) [
    | inl y ↦ rw y (values_positive parts)
    | inr n ↦ rw n (
        Ok-bind (λ k. 0 < k) ArePositive _ _
          (Ok-step (λ k. 0 < k) (read env.int_of (pos 0) (some (strip part))) above_zero
            (λ z e. above_zero_lem z))
          λ v h.
            Ok-bind ArePositive ArePositive _ (λ values. ok (v ∷ values)) (values_positive parts)
              λ values k. (h, k))
  ]

  -- The numbers that parse_dead_letter_ids returns are positive, none of them twice.
  ids_distinct :
      (raw : Option String)
      → Ok
          (λ ids. Unique (λ k. k) ids × ArePositive ids)
          (parse_dead_letter_ids env strip split raw)
  unfolding parse_dead_letter_ids
  ids_distinct none = (tt, tt)
  ids_distinct (some raw) = elim (Bool-cases (str_eq raw "")) [
    | inl y ↦ rw y (tt, tt)
    | inr n ↦ rw n (
        Ok-bind ArePositive (λ ids. Unique (λ k. k) ids × ArePositive ids) _
          (λ values. ok (from_keys [] values)) (values_positive (split raw))
          λ values h. from_keys-Unique [] values tt tt h)
  ]

  -- Where main of the replay tool has read its arguments, the dead letters that it asks for are
  -- distinct positive numbers, and replay passes its checks and goes to its transaction.
  pub replay_arguments_accepted :
      (a : Arguments) (db : Db) (locked : ℕ → Bool) (now : ℕ)
      → replay_arguments env strip split ≡ ok a
      → Unique (λ k. k) a.selector.dead_letter_ids
        × All (λ k. 0 < k) a.selector.dead_letter_ids
        × (replay db a.selector locked a.limit a.max_attempts a.priority now
            ≡ commit db (
                replay_rows a.selector a.max_attempts a.priority now
                  (replayable db a.selector locked a.limit)
                  db))
  unfolding replay_arguments replay
  replay_arguments_accepted a db locked now e =
      Ok_returned Good (replay_arguments env strip split) a
        (Ok-step Good (read env.int_of (pos 100) (env.getenv "REPLAY_LIMIT")) _ λ limit _.
          Ok-step Good (read env.int_of (pos 5) (env.getenv "REPLAY_MAX_ATTEMPTS")) _ λ most _.
            Ok-step Good (read env.int_of (pos 50) (env.getenv "REPLAY_PRIORITY")) _ λ priority _.
              Ok-bind (λ ids. Unique (λ k. k) ids × ArePositive ids) Good _ _
                (ids_distinct (env.getenv "REPLAY_DEAD_LETTER_IDS"))
                λ ids h. (h.0, h.1, rw (at_least_one_lem limit, at_least_one_lem most) refl))
        e
    where
      Good : Arguments → Type 0
      Good b =
          Unique (λ k. k) b.selector.dead_letter_ids
          × All (λ k. 0 < k) b.selector.dead_letter_ids
          × (replay db b.selector locked b.limit b.max_attempts b.priority now
              ≡ commit db (
                  replay_rows b.selector b.max_attempts b.priority now
                    (replayable db b.selector locked b.limit) db))
