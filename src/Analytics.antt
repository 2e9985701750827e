-- ===== src/Analytics.antt =====
-- analytics_parser.py: the stored form of collected documents, with the tables of
-- schema_analytics.sql and migrations/0002_observations.sql that it writes.
pub mod Document
pub mod Persist
pub mod Stored
pub mod Upsert
pub mod Record
pub mod Rollups
pub mod Contributions
pub mod Agree
pub mod Retention
pub mod Again
use xingestionv.Prelude.{
  ℕ, zero, suc, ◌+◌, ◌*◌, Bool, true, false, Option, none, some, List, [], ◌∷◌, String, ◌==◌, ◌&&◌,
  take_text, drop_text, leb, str_eq, if◌then◌else◌,
}
use Prim.Native.Nat.{◌/◌}
use xingestionv.Schema.{second}

-- The values of SentimentLabel.
pub data SentimentLabel : Type 0 where
  pending positive negative neutral : SentimentLabel

-- A validated SocialMediaDocument. `insight_id`, `ingested_at` and `content_text_hash` are not read.
pub record SocialMediaDocument : Type 0 where
  pub platform : String
  pub original_tweet_id : String
  pub author_id : String
  pub author_handle : String
  pub text_content : String
  pub engagement_likes : ℕ
  pub engagement_retweets : ℕ
  pub sentiment_label : SentimentLabel
  pub conversation_id : Option String
  pub source_created_at : Option ℕ
  pub captured_at : Option ℕ

-- social_insights_feed
pub record FeedRow : Type 0 where
  pub insight_id : ℕ
  pub platform : String
  pub original_tweet_id : String
  pub author_id : String
  pub author_handle : String
  pub text_content : String
  pub engagement_likes : ℕ
  pub engagement_retweets : ℕ
  pub conversation_id : Option String
  pub sentiment_label : SentimentLabel
  pub content_text_hash : String
  pub source_created_at : Option ℕ
  pub ingested_at : ℕ
  pub first_seen_at : ℕ
  pub last_seen_at : ℕ
  pub updated_at : ℕ

-- social_ingestion_observations
pub record Observation : Type 0 where
  pub observation_id : ℕ
  pub observation_key : String
  pub insight_id : ℕ
  pub captured_at : ℕ
  pub engagement_likes : ℕ
  pub engagement_retweets : ℕ
  pub ingestion_task_id : Option ℕ
  pub task_generation : Option ℕ
  pub adapter_name : Option String
  pub adapter_version : Option String

-- keyword_rollup_contributions
pub record Contribution : Type 0 where
  pub insight_id : ℕ
  pub keyword : String
  pub window_timestamp : ℕ
  pub engagement_likes : ℕ
  pub updated_at : ℕ

-- keyword_hourly_rollups
pub record Rollup : Type 0 where
  pub keyword : String
  pub window_timestamp : ℕ
  pub tweet_count : ℕ
  pub engagement_likes_sum : ℕ

pub record Feed : Type 0 where
  pub rows : List FeedRow
  pub next_insight : ℕ
  pub observations : List Observation
  pub next_observation : ℕ
  pub contributions : List Contribution
  pub rollups : List Rollup

-- A keyword and an hour.
abbrev pub Bucket : Type 0
Bucket = String × ℕ

-- first_seen_at.replace(minute=0, second=0, microsecond=0), in UTC
abbrev pub hour_of : ℕ → ℕ
hour_of t = t / (3600 * second) * (3600 * second)

-- WHERE keyword = $1 AND window_timestamp = $2
abbrev pub in_bucket : Bucket → Contribution → Bool
in_bucket (keyword, window) c = str_eq c.keyword keyword && c.window_timestamp == window

abbrev pub of_bucket : Bucket → Rollup → Bool
of_bucket (keyword, window) r = str_eq r.keyword keyword && r.window_timestamp == window

-- What an INT column holds, of the numbers from 0.
abbrev pub fits_int : ℕ → Bool
fits_int n = leb n 2147483647

-- Nothing but spaces.
unfoldable pub all_spaces : String → Bool
all_spaces String.[] = true
all_spaces (String.◌∷◌ c s) =
    let rest = all_spaces s in if str_eq (String.◌∷◌ c "") " " then rest else false

-- What a VARCHAR(n) column takes: characters in excess must be spaces, and are cut.
unfoldable pub fits_varchar : ℕ → String → Bool
unfolding all_spaces
fits_varchar n s = all_spaces (drop_text n s)

abbrev pub fits_nullable : ℕ → Option String → Bool
fits_nullable n none = true
fits_nullable n (some s) = fits_varchar n s

-- What it then holds.
abbrev pub cut_nullable : ℕ → Option String → Option String
cut_nullable n none = none
cut_nullable n (some s) = some (take_text n s)
