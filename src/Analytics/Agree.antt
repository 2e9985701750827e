-- ===== src/Analytics/Agree.antt =====
-- The hourly rollups and the contributions, under upsert_insight_record of analytics_parser.py.
use xingestionv.Prelude.{
  ℕ, ◌≡◌, ap, Bool, List, String, arith, Bool-cases, Option-cases, inl, inr, ◌&&◌, str_eq,
}
use xingestionv.Schema.{ok}
use xingestionv.Results.{Ok, Ok-map, Ok-bind, Ok_returned}
use xingestionv.Table.{find, order_by}
use xingestionv.Analytics.{
  SocialMediaDocument, FeedRow, Observation, Feed, Bucket, hour_of, fits_nullable,
}
use xingestionv.Analytics.Upsert.{
  Provenance, upsert_feed, insert_observation, new_observation, has_parent, fits_feed, is_object,
  rebuild_all,
}
use xingestionv.Analytics.Record.{
  has_bucket, text_before, bucket_before, affected, replace_contributions, contribute, captured,
  key_or, upsert_insight_record,
}
use xingestionv.Analytics.Rollups.{rollup_at, expected, RebuiltAll, rebuild_all-RebuiltAll}
use xingestionv.Analytics.Contributions.{has_bucket-order_by, replace_contributions-expected}

-- Every bucket has the rollup that its contributions give, and a bucket without them has none.
abbrev pub Agrees : Feed → Type 0
Agrees f = (b : Bucket) → rollup_at f.rollups b ≡ expected f.contributions b

contribute-Agrees :
    (r : FeedRow) (keywords : List String) (now : ℕ) (f : Feed)
    → Agrees f
    → Ok Agrees (contribute r keywords now f)
unfolding contribute
contribute-Agrees r keywords now f h =
    Ok-map
      (λ g.
        RebuiltAll (order_by bucket_before all) changed g
        × (g.contributions ≡ changed.contributions))
      Agrees (rebuild_all (order_by bucket_before all) changed) (λ g k b. agrees g b k)
      (rebuild_all-RebuiltAll (order_by bucket_before all) changed)
  where
    all : List Bucket
    all = affected r.insight_id (hour_of r.first_seen_at) keywords f.contributions

    changed : Feed
    changed = record f {
      contributions =
          replace_contributions r.insight_id (hour_of r.first_seen_at) r.engagement_likes now
            keywords f.contributions;
    }

    agrees :
        (g : Feed) (b : Bucket)
        → RebuiltAll (order_by bucket_before all) changed g
          × (g.contributions ≡ changed.contributions)
        → rollup_at g.rollups b ≡ expected g.contributions b
    agrees g b k = elim (Bool-cases (has_bucket b all)) [
      | inl y ↦
          ground (arith, k.0 b, y, has_bucket-order_by b all, ap (λ rows. expected rows b) k.1)
      | inr n ↦ ground (
        arith,
        k.0 b,
        n,
        has_bucket-order_by b all,
        ap (λ rows. expected rows b) k.1,
        h b,
        replace_contributions-expected r.insight_id (hour_of r.first_seen_at) r.engagement_likes now
            b keywords f.contributions n,
      )
    ]

-- The feed and the observations do not count.
upsert_feed-Agrees :
    (d : SocialMediaDocument) (hash : String) (at now : ℕ) (f : Feed)
    → Agrees f
    → Agrees (upsert_feed d hash at now f).1
unfolding upsert_feed
upsert_feed-Agrees d hash at now f h = elim (Option-cases (find (is_object d) f.rows)) [
  | inl e ↦ rw (e, upsert_feed) h
  | inr (r, e) ↦ rw (e, upsert_feed) h
]

insert_observation-Agrees :
    (known : ℕ → Bool) (o : Observation) (f : Feed)
    → Agrees f
    → Ok Agrees (insert_observation known o f)
unfolding insert_observation
insert_observation-Agrees known o f h =
    elim (Bool-cases (fits_nullable 100 o.adapter_name && fits_nullable 100 o.adapter_version)) [
      | inr n ↦ rw (n, insert_observation) tt
      | inl y ↦
          elim (Option-cases
            (find (λ q. str_eq q.observation_key o.observation_key) f.observations)) [
              | inr (q, e) ↦ rw (y, insert_observation, e) h
              | inl e ↦ elim (Bool-cases (has_parent known o.ingestion_task_id)) [
                | inl z ↦ rw (y, insert_observation, e, z) h
                | inr z ↦ rw (y, insert_observation, e, z) tt
              ]
            ]
    ]

module _ (known : ℕ → Bool) (isoformat : ℕ → String) (p : Provenance) (d : SocialMediaDocument)
    (hash : String) (keywords : List String) (utcnow now : ℕ) (f : Feed) where
  pub upserted-Agrees :
      Agrees f → Ok Agrees (upsert_insight_record known isoformat p d hash keywords utcnow now f)
  unfolding upsert_insight_record
  upserted-Agrees h = elim (Bool-cases (fits_feed d hash)) [
    | inr n ↦ rw (n, upsert_insight_record) tt
    | inl y ↦
        rw (y, upsert_insight_record)
          (Ok-bind Agrees Agrees (insert_observation known observed stored.1)
            (contribute stored.0 (order_by text_before keywords) now)
            (insert_observation-Agrees known observed stored.1
              (upsert_feed-Agrees d hash (captured d utcnow) now f h))
            (λ f' h'. contribute-Agrees stored.0 (order_by text_before keywords) now f' h'))
  ]
    where
      stored : FeedRow × Feed
      stored = upsert_feed d hash (captured d utcnow) now f

      observed : Observation
      observed =
          new_observation stored.1.next_observation stored.0.insight_id
            (key_or isoformat d (captured d utcnow) p.observation_key) d p (captured d utcnow)

  -- Where upsert_insight_record commits, the rollups agree with the contributions again: each bucket
  -- has the number of its contributions and the sum of their likes, and an empty bucket has no row.
  pub upsert_insight_record-Agrees :
      (g : Feed)
      → Agrees f
      → upsert_insight_record known isoformat p d hash keywords utcnow now f ≡ ok g
      → Agrees g
  upsert_insight_record-Agrees g h e =
      Ok_returned Agrees (upsert_insight_record known isoformat p d hash keywords utcnow now f) g
        (upserted-Agrees h) e
