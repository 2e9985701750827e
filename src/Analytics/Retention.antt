-- ===== src/Analytics/Retention.antt =====
-- execute_database_garbage_collection of db_cleanup.py, with what the foreign keys of the analytics
-- tables do on a DELETE: observations and contributions cascade, and the task number of an
-- observation is set to NULL. Days have 24 hours, as in UTC.
use xingestionv.Prelude.{
  ℕ, ◌+◌, ◌*◌, ◌<◌, ◌≡◌, sym, ap, ◌∙◌, Bool, not, Option, none, some, List, arith, ltb, is_null,
  ◌==◌, ◌&&◌,
}
use xingestionv.Schema.{Db, second}
use xingestionv.Table.{find, update, delete, count}
use xingestionv.Table.Laws.{count-delete_lt}
use xingestionv.Cleanup.{purges, purge_tasks, orphaned}
use xingestionv.Analytics.{Feed, FeedRow, Observation, Contribution, Bucket, in_bucket, Rollup}
use xingestionv.Analytics.Upsert.{aggregate}
use xingestionv.Analytics.Rollups.{expected}
use xingestionv.Analytics.Agree.{Agrees}

-- WHERE ingested_at < NOW() - INTERVAL '... days'
abbrev pub outdated : ℕ → ℕ → FeedRow → Bool
outdated days now r = ltb (r.ingested_at + days * (86400 * second)) now

-- The row with this number goes.
abbrev pub forgets : ℕ → ℕ → Feed → ℕ → Bool
forgets days now f i = not (is_null (find (λ r. r.insight_id == i && outdated days now r) f.rows))

-- DELETE FROM social_insights_feed
unfoldable pub purge_feed : ℕ → ℕ → Feed → Feed
purge_feed days now f = record f {
  rows = delete (outdated days now) f.rows;
  observations = delete (λ o. forgets days now f o.insight_id) f.observations;
  contributions = delete (λ c. forgets days now f c.insight_id) f.contributions;
}

abbrev pub detached : Observation → Observation
detached o = record o { ingestion_task_id = none }

-- The ON DELETE SET NULL of social_ingestion_observations.ingestion_task_id
unfoldable pub detach : Db → Feed → Feed
detach db f = record f {
  observations = update (λ o. orphaned (purges db) o.ingestion_task_id) detached f.observations;
}

-- The transaction of execute_database_garbage_collection
unfoldable pub collect_garbage : ℕ → ℕ → Db → Feed → Db × Feed
unfolding purge_tasks detach purge_feed
collect_garbage days now db f = (purge_tasks db, purge_feed days now (detach db f))

abbrev pub tweets : Option Rollup → ℕ
tweets none = 0
tweets (some r) = r.tweet_count

tweets-expected :
    (rows : List Contribution) (b : Bucket) → tweets (expected rows b) ≡ count (in_bucket b) rows
unfolding aggregate
tweets-expected rows b = ground arith

-- The retention does not rebuild the rollups: where they agree with the contributions and the
-- deletion takes a contribution of some bucket, they no longer agree.
pub purge_feed-breaks_Agrees :
    (days now : ℕ) (f : Feed) (b : Bucket) (c : Contribution)
    → Agrees f
    → find (λ a. forgets days now f a.insight_id && in_bucket b a) f.contributions ≡ some c
    → ¬ Agrees (purge_feed days now f)
unfolding purge_feed
purge_feed-breaks_Agrees days now f b c h e k =
    let fewer : count (in_bucket b) left < count (in_bucket b) f.contributions =
      count-delete_lt (in_bucket b) (λ a. forgets days now f a.insight_id) f.contributions c e in
    let same : count (in_bucket b) left ≡ count (in_bucket b) f.contributions =
      sym (tweets-expected left b)
      ∙ ap tweets (sym (k b))
      ∙ ap tweets (h b)
      ∙ tweets-expected f.contributions b in
    omega arith
  where
    left : List Contribution
    left = delete (λ a. forgets days now f a.insight_id) f.contributions
