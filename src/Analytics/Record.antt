-- ===== src/Analytics/Record.antt =====
-- upsert_insight_record of analytics_parser.py, over the statements of Analytics.Upsert. The hash and
-- the keywords of the text are arguments, and so is `isoformat` of a time. A keyword has at most 50
-- characters, so its column holds it.
use Prim.Native.Nat.{Ordering}
use Prim.Native.String.{compare, ◌++◌ as append}
use xingestionv.Prelude.{
  ℕ, Bool, true, false, not, ◌&&◌, ◌||◌, Option, none, some, List, [], ◌∷◌, ◌++◌, map, String, ◌==◌,
  ltb, str_eq, if◌then◌else◌,
}
use xingestionv.Schema.{Result, err, ◌>>=◌, data_error}
use xingestionv.Table.{select, delete, order_by}
use xingestionv.Analytics.{SocialMediaDocument, Contribution, Feed, Bucket, hour_of, FeedRow}
use xingestionv.Analytics.Upsert.{
  upsert_feed, fits_feed, Provenance, insert_observation, new_observation, of_insight,
  put_contribution, rebuild_all,
}

-- A set of buckets holds a bucket.
unfoldable pub has_bucket : Bucket → List Bucket → Bool
has_bucket b [] = false
has_bucket b (c ∷ rest) = str_eq c.0 b.0 && c.1 == b.1 || has_bucket b rest

-- {...}: a set, as a list that names each bucket once
unfoldable pub distinct : List Bucket → List Bucket
unfolding has_bucket
distinct [] = []
distinct (b ∷ rest) = let more = distinct rest in if has_bucket b rest then more else b ∷ more

abbrev pub text_before : String → String → Bool
text_before k l = elim (compare k l) [ Ordering.gt ↦ false | _ ↦ true ]

-- key=lambda item: (item[1], item[0])
abbrev pub bucket_before : Bucket → Bucket → Bool
bucket_before (k, w) (l, v) = ltb w v || w == v && text_before k l

abbrev pub bucket_of : Contribution → Bucket
bucket_of c = (c.keyword, c.window_timestamp)

-- NOT (keyword = ANY($2))
unfoldable pub is_among : String → List String → Bool
is_among keyword [] = false
is_among keyword (k ∷ rest) = str_eq k keyword || is_among keyword rest

abbrev pub dropped : ℕ → List String → Contribution → Bool
dropped insight_id keywords c = of_insight insight_id c && not (is_among c.keyword keywords)

-- executemany over the keywords
unfoldable pub put_contributions :
    ℕ → ℕ → ℕ → ℕ → List String → List Contribution → List Contribution
unfolding put_contribution
put_contributions insight_id window likes now [] contributions = contributions
put_contributions insight_id window likes now (k ∷ keywords) contributions =
    put_contributions insight_id window likes now keywords
      (put_contribution insight_id window likes now k contributions)

-- The contributions of an insight after the statements for its keywords.
unfoldable pub replace_contributions :
    ℕ → ℕ → ℕ → ℕ → List String → List Contribution → List Contribution
unfolding put_contributions is_among
replace_contributions insight_id window likes now [] contributions =
    delete (of_insight insight_id) contributions
replace_contributions insight_id window likes now (k ∷ keywords) contributions =
    delete (dropped insight_id (k ∷ keywords))
      (put_contributions insight_id window likes now (k ∷ keywords) contributions)

-- old_buckets | {(keyword, bucket) for keyword in keywords}
unfoldable pub affected : ℕ → ℕ → List String → List Contribution → List Bucket
unfolding distinct
affected insight_id window keywords contributions = distinct (
    map bucket_of (select (of_insight insight_id) contributions) ++ map (λ k. (k, window)) keywords)

-- The statements on contributions and rollups, for the canonical row.
unfoldable pub contribute : FeedRow → List String → ℕ → Feed → Result Feed
unfolding replace_contributions affected rebuild_all
contribute r keywords now f =
    rebuild_all
      (order_by bucket_before
        (affected r.insight_id (hour_of r.first_seen_at) keywords f.contributions))
      (record f {
        contributions =
            replace_contributions r.insight_id (hour_of r.first_seen_at) r.engagement_likes now
              keywords f.contributions;
      })

-- data.captured_at or datetime.now(timezone.utc)
abbrev pub captured : SocialMediaDocument → ℕ → ℕ
captured d utcnow = elim d.captured_at [ none ↦ utcnow | some t ↦ t ]

-- observation_key or f"..."
abbrev pub key_or : (ℕ → String) → SocialMediaDocument → ℕ → Option String → String
key_or isoformat d at key =
    let own =
      append d.platform (append ":" (append d.original_tweet_id (append ":" (isoformat at)))) in
    elim key [ none ↦ own | some k ↦ if str_eq k "" then own else k ]

-- upsert_insight_record. Where it raises, the transaction is rolled back.
unfoldable pub upsert_insight_record :
    (ℕ → Bool)
    → (ℕ → String)
    → Provenance
    → SocialMediaDocument
    → String
    → List String
    → ℕ
    → ℕ
    → Feed
    → Result Feed
unfolding upsert_feed insert_observation contribute
upsert_insight_record known isoformat p d hash keywords utcnow now f =
    let at = captured d utcnow in
    if not (fits_feed d hash)
    then err data_error
    else (let (r, f') = upsert_feed d hash at now f in
        insert_observation known
          (new_observation f'.next_observation r.insight_id
            (key_or isoformat d at p.observation_key) d p at)
          f'
        >>= contribute r (order_by text_before keywords) now)
