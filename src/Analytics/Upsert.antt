-- ===== src/Analytics/Upsert.antt =====
-- upsert_insight_record and _rebuild_rollup_bucket of analytics_parser.py: one transaction. The hash
-- and the keywords of the document's text are arguments. `known` tells which tasks the ledger has.
use Prim.Native.Nat.{max}
use xingestionv.Prelude.{
  ℕ, suc, ◌+◌, Bool, true, not, ◌&&◌, Option, none, some, List, [], ◌∷◌, String, ◌==◌, str_eq,
  take_text, if◌then◌else◌,
}
use xingestionv.Schema.{Result, ok, err, ◌>>=◌, data_error, foreign_key_violation}
use xingestionv.Table.{find, select, update, delete, count, insert}
use xingestionv.Tasks.{coalesce}
use xingestionv.Analytics.{
  SocialMediaDocument, FeedRow, Observation, Contribution, Rollup, Feed, Bucket, in_bucket,
  of_bucket, fits_int, fits_varchar, fits_nullable, cut_nullable,
}

unfoldable pub sum_likes : List Contribution → ℕ
sum_likes [] = 0
sum_likes (c ∷ rest) = c.engagement_likes + sum_likes rest

-- SELECT COUNT(*), SUM(engagement_likes) of a bucket, as the row that the bucket then has.
unfoldable pub aggregate : Bucket → List Contribution → Rollup
unfolding sum_likes
aggregate b contributions = record {
  keyword = b.0;
  window_timestamp = b.1;
  tweet_count = count (in_bucket b) contributions;
  engagement_likes_sum = sum_likes (select (in_bucket b) contributions);
}

-- INSERT ... ON CONFLICT (keyword, window_timestamp) DO UPDATE
unfoldable pub put_rollup : Bucket → Rollup → List Rollup → List Rollup
put_rollup b row rollups = elim (find (of_bucket b) rollups) [
  | none ↦ insert row rollups
  | some old ↦
      update (of_bucket b)
        (λ r. record r {
          tweet_count = row.tweet_count;
          engagement_likes_sum = row.engagement_likes_sum;
        })
        rollups
]

-- _rebuild_rollup_bucket
unfoldable pub rebuild_rollup_bucket : Bucket → Feed → Result Feed
unfolding aggregate put_rollup
rebuild_rollup_bucket b f =
    let row = aggregate b f.contributions in
    if not (fits_int row.tweet_count)
    then err data_error
    else if row.tweet_count == 0
    then ok (record f { rollups = delete (of_bucket b) f.rollups })
    else if fits_int row.engagement_likes_sum
    then ok (record f { rollups = put_rollup b row f.rollups })
    else err data_error

-- The loop over the affected buckets.
unfoldable pub rebuild_all : List Bucket → Feed → Result Feed
unfolding rebuild_rollup_bucket
rebuild_all [] f = ok f
rebuild_all (b ∷ buckets) f = rebuild_rollup_bucket b f >>= rebuild_all buckets

-- The columns that hold every value of the document.
abbrev pub fits_feed : SocialMediaDocument → String → Bool
fits_feed d hash =
    fits_varchar 32 d.platform
    && (fits_varchar 64 d.original_tweet_id
        && (fits_varchar 64 d.author_id
            && (fits_varchar 100 d.author_handle
                && (fits_int d.engagement_likes
                    && (fits_int d.engagement_retweets
                        && (fits_nullable 64 d.conversation_id && fits_varchar 64 hash))))))

abbrev pub new_row : ℕ → SocialMediaDocument → String → ℕ → FeedRow
new_row id d hash captured_at = record {
  insight_id = id;
  platform = take_text 32 d.platform;
  original_tweet_id = take_text 64 d.original_tweet_id;
  author_id = take_text 64 d.author_id;
  author_handle = take_text 100 d.author_handle;
  text_content = d.text_content;
  engagement_likes = d.engagement_likes;
  engagement_retweets = d.engagement_retweets;
  conversation_id = cut_nullable 64 d.conversation_id;
  sentiment_label = d.sentiment_label;
  content_text_hash = take_text 64 hash;
  source_created_at = d.source_created_at;
  ingested_at = captured_at;
  first_seen_at = captured_at;
  last_seen_at = captured_at;
  updated_at = captured_at;
}

-- ON CONFLICT (original_tweet_id) DO UPDATE SET
abbrev pub merged_row : SocialMediaDocument → String → ℕ → ℕ → FeedRow → FeedRow
merged_row d hash captured_at now r = record r {
  platform = take_text 32 d.platform;
  author_id = take_text 64 d.author_id;
  author_handle = take_text 100 d.author_handle;
  text_content = d.text_content;
  engagement_likes = max r.engagement_likes d.engagement_likes;
  engagement_retweets = max r.engagement_retweets d.engagement_retweets;
  conversation_id = coalesce (cut_nullable 64 d.conversation_id) r.conversation_id;
  sentiment_label = d.sentiment_label;
  content_text_hash = take_text 64 hash;
  source_created_at = coalesce r.source_created_at d.source_created_at;
  last_seen_at = max r.last_seen_at captured_at;
  updated_at = now;
}

-- The row with the stored key of a document.
abbrev pub is_object : SocialMediaDocument → FeedRow → Bool
is_object d r = str_eq r.original_tweet_id (take_text 64 d.original_tweet_id)

-- The canonical row, and the feed with it. A number is drawn also where the row is there.
unfoldable pub upsert_feed : SocialMediaDocument → String → ℕ → ℕ → Feed → FeedRow × Feed
upsert_feed d hash captured_at now f =
    let set = merged_row d hash captured_at now in
    let drawn = record f { next_insight = suc f.next_insight } in
    elim (find (is_object d) f.rows) [
      | some r ↦ (set r, record drawn { rows = update (is_object d) set f.rows })
      | none ↦
          let r = new_row f.next_insight d hash captured_at in
          (r, record drawn { rows = insert r f.rows })
    ]

-- What upsert_insight_record is told of the ingestion.
pub record Provenance : Type 0 where
  pub observation_key : Option String
  pub ingestion_task_id : Option ℕ
  pub task_generation : Option ℕ
  pub adapter_name : Option String
  pub adapter_version : Option String

abbrev pub has_parent : (ℕ → Bool) → Option ℕ → Bool
has_parent known none = true
has_parent known (some i) = known i

abbrev pub new_observation : ℕ → ℕ → String → SocialMediaDocument → Provenance → ℕ → Observation
new_observation id insight_id key d p captured_at = record {
  observation_id = id;
  observation_key = key;
  insight_id = insight_id;
  captured_at = captured_at;
  engagement_likes = d.engagement_likes;
  engagement_retweets = d.engagement_retweets;
  ingestion_task_id = p.ingestion_task_id;
  task_generation = p.task_generation;
  adapter_name = p.adapter_name;
  adapter_version = p.adapter_version;
}

-- The row that is stored for the values of an observation.
abbrev pub stored_observation : Observation → Observation
stored_observation o = record o {
  adapter_name = cut_nullable 100 o.adapter_name;
  adapter_version = cut_nullable 100 o.adapter_version;
}

-- INSERT INTO social_ingestion_observations ... ON CONFLICT (observation_key) DO NOTHING
unfoldable pub insert_observation : (ℕ → Bool) → Observation → Feed → Result Feed
insert_observation known o f =
    let drawn = record f { next_observation = suc f.next_observation } in
    if not (fits_nullable 100 o.adapter_name && fits_nullable 100 o.adapter_version)
    then err data_error
    else elim (find (λ q. str_eq q.observation_key o.observation_key) f.observations) [
      | some q ↦ ok drawn
      | none ↦
          if has_parent known o.ingestion_task_id
          then ok (record drawn { observations = insert (stored_observation o) f.observations })
          else err foreign_key_violation
    ]

-- WHERE insight_id = $1, and the key (insight_id, keyword)
abbrev pub of_insight : ℕ → Contribution → Bool
of_insight insight_id c = c.insight_id == insight_id

abbrev pub is_contribution : ℕ → String → Contribution → Bool
is_contribution insight_id keyword c = of_insight insight_id c && str_eq c.keyword keyword

abbrev pub raised_likes : ℕ → ℕ → Contribution → Contribution
raised_likes likes now c = record c {
  engagement_likes = max c.engagement_likes likes;
  updated_at = now;
}

abbrev pub new_contribution : ℕ → String → ℕ → ℕ → ℕ → Contribution
new_contribution insight_id keyword window likes now = record {
  insight_id = insight_id;
  keyword = keyword;
  window_timestamp = window;
  engagement_likes = likes;
  updated_at = now;
}

-- INSERT INTO keyword_rollup_contributions ... ON CONFLICT (insight_id, keyword) DO UPDATE
unfoldable pub put_contribution : ℕ → ℕ → ℕ → ℕ → String → List Contribution → List Contribution
put_contribution insight_id window likes now keyword contributions =
    elim (find (is_contribution insight_id keyword) contributions) [
      | none ↦ insert (new_contribution insight_id keyword window likes now) contributions
      | some c ↦ update (is_contribution insight_id keyword) (raised_likes likes now) contributions
    ]
