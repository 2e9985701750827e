-- ===== src/Analytics/Again.antt =====
-- About repeated calls of upsert_insight_record of analytics_parser.py.
use xingestionv.Prelude.{
  ℕ, ◌≡◌, refl, ap, ◌∙◌, Bool, ◌&&◌, some, List, [], ◌∷◌, String, str_eq, eq_iff, arith, ◌==◌,
  Option-cases, Bool-cases, inl, inr,
}
use xingestionv.Schema.{ok}
use xingestionv.Results.{Ok, Ok-map, Ok-bind, Ok_returned}
use xingestionv.Table.{find, order_by}
use xingestionv.Table.Laws.{find-insert}
use xingestionv.Analytics.{
  SocialMediaDocument, FeedRow, Observation, Feed, Bucket, fits_int, fits_nullable,
}
use xingestionv.Analytics.Upsert.{
  Provenance, upsert_feed, insert_observation, stored_observation, new_observation, has_parent,
  fits_feed, is_object, aggregate, rebuild_rollup_bucket, rebuild_all,
}
use xingestionv.Analytics.Record.{text_before, contribute, captured, key_or, upsert_insight_record}

abbrev Same : Feed → Feed → Type 0
Same f g = g.observations ≡ f.observations

-- There is an observation with the key.
abbrev Observed : String → Feed → Type 0
Observed k f = (q : Observation) × (find (λ o. str_eq o.observation_key k) f.observations ≡ some q)

rebuild_rollup_bucket-Same : (b : Bucket) (f : Feed) → Ok (Same f) (rebuild_rollup_bucket b f)
unfolding rebuild_rollup_bucket
rebuild_rollup_bucket-Same b f =
    let row = aggregate b f.contributions in
    elim (Bool-cases (fits_int row.tweet_count)) [
      | inr n ↦ rw n tt
      | inl y ↦ rw y (elim (Bool-cases (row.tweet_count == 0)) [
        | inl z ↦ rw z refl
        | inr m ↦ rw m (elim (Bool-cases (fits_int row.engagement_likes_sum)) [
          | inl w ↦ rw w refl
          | inr w ↦ rw w tt
        ])
      ])
    ]

rebuild_all-Same : (bs : List Bucket) (f : Feed) → Ok (Same f) (rebuild_all bs f)
unfolding rebuild_all
rebuild_all-Same [] f = refl
rebuild_all-Same (b ∷ bs) f =
    Ok-bind (Same f) (Same f) (rebuild_rollup_bucket b f) (rebuild_all bs)
      (rebuild_rollup_bucket-Same b f)
      (λ g h. Ok-map (Same g) (Same f) (rebuild_all bs g) (λ g' k. k ∙ h) (rebuild_all-Same bs g))

contribute-Same :
    (r : FeedRow) (keywords : List String) (now : ℕ) (f : Feed)
    → Ok (Same f) (contribute r keywords now f)
unfolding contribute
contribute-Same r keywords now f = rebuild_all-Same _ _

upsert_feed-Same :
    (d : SocialMediaDocument) (hash : String) (at now : ℕ) (f : Feed)
    → Same f (upsert_feed d hash at now f).1
unfolding upsert_feed
upsert_feed-Same d hash at now f = elim (Option-cases (find (is_object d) f.rows)) [
  | inl e ↦ rw (e, upsert_feed) refl
  | inr (r, e) ↦ rw (e, upsert_feed) refl
]

insert_observation-Observed :
    (known : ℕ → Bool) (o : Observation) (f : Feed)
    → Ok (Observed o.observation_key) (insert_observation known o f)
unfolding insert_observation
insert_observation-Observed known o f =
    elim (Bool-cases (fits_nullable 100 o.adapter_name && fits_nullable 100 o.adapter_version)) [
      | inr n ↦ rw (n, insert_observation) tt
      | inl y ↦
          elim (Option-cases
            (find (λ q. str_eq q.observation_key o.observation_key) f.observations)) [
              | inr (q, e) ↦ rw (y, insert_observation, e) (q, e)
              | inl e ↦ elim (Bool-cases (has_parent known o.ingestion_task_id)) [
                | inr z ↦ rw (y, insert_observation, e, z) tt
                | inl z ↦
                    rw (y, insert_observation, e, z)
                      (
                        stored_observation o,
                        ground (
                          arith,
                          find-insert (λ q. str_eq q.observation_key o.observation_key)
                              (stored_observation o) f.observations,
                          eq_iff o.observation_key o.observation_key,
                        ),
                      )
              ]
            ]
    ]

insert_observation-Same :
    (known : ℕ → Bool) (o : Observation) (f : Feed)
    → Observed o.observation_key f
    → Ok (Same f) (insert_observation known o f)
unfolding insert_observation
insert_observation-Same known o f (q, e) =
    elim (Bool-cases (fits_nullable 100 o.adapter_name && fits_nullable 100 o.adapter_version)) [
      | inr n ↦ rw (n, insert_observation) tt
      | inl y ↦ rw (y, insert_observation, e) refl
    ]

module _ (known : ℕ → Bool) (isoformat : ℕ → String) (p : Provenance) (d : SocialMediaDocument)
    (hash : String) (keywords : List String) (utcnow now : ℕ) where
  -- The key of the observation.
  abbrev key : String
  key = key_or isoformat d (captured d utcnow) p.observation_key

  module _ (f : Feed) where
    abbrev stored : FeedRow × Feed
    stored = upsert_feed d hash (captured d utcnow) now f

    abbrev observed : Observation
    observed =
        new_observation stored.1.next_observation stored.0.insight_id key d p (captured d utcnow)

    upserted-Observed :
        Ok (Observed key) (upsert_insight_record known isoformat p d hash keywords utcnow now f)
    unfolding upsert_insight_record
    upserted-Observed = elim (Bool-cases (fits_feed d hash)) [
      | inr n ↦ rw (n, upsert_insight_record) tt
      | inl y ↦
          rw (y, upsert_insight_record)
            (Ok-bind (Observed key) (Observed key) (insert_observation known observed stored.1)
              (contribute stored.0 (order_by text_before keywords) now)
              (insert_observation-Observed known observed stored.1)
              (λ g h.
                Ok-map (Same g) (Observed key)
                  (contribute stored.0 (order_by text_before keywords) now g)
                  (λ g' s. (h.0, ap (find (λ o. str_eq o.observation_key key)) s ∙ h.1))
                  (contribute-Same stored.0 (order_by text_before keywords) now g)))
    ]

    upserted-Same :
        Observed key f
        → Ok (Same f) (upsert_insight_record known isoformat p d hash keywords utcnow now f)
    unfolding upsert_insight_record
    upserted-Same (q, e) = elim (Bool-cases (fits_feed d hash)) [
      | inr n ↦ rw (n, upsert_insight_record) tt
      | inl y ↦
          let before : Same f stored.1 = upsert_feed-Same d hash (captured d utcnow) now f in
          rw (y, upsert_insight_record)
            (Ok-bind (Same f) (Same f) (insert_observation known observed stored.1)
              (contribute stored.0 (order_by text_before keywords) now)
              (Ok-map (Same stored.1) (Same f) (insert_observation known observed stored.1)
                (λ g s. s ∙ before)
                (insert_observation-Same known observed stored.1
                  (q, ap (find (λ o. str_eq o.observation_key key)) before ∙ e)))
              (λ g h.
                Ok-map (Same g) (Same f) (contribute stored.0 (order_by text_before keywords) now g)
                  (λ g' s. s ∙ h) (contribute-Same stored.0 (order_by text_before keywords) now g)))
    ]

-- A document is observed once: where upsert_insight_record has stored one, a second call for the same
-- key of an observation, with any document, times and clocks, adds no observation and changes none.
pub observed_once :
    (known known' : ℕ → Bool) (isoformat : ℕ → String) (p p' : Provenance)
    (d d' : SocialMediaDocument) (hash hash' : String) (keywords keywords' : List String)
    (utcnow now utcnow' now' : ℕ) (f g g' : Feed)
    → key_or isoformat d' (captured d' utcnow') p'.observation_key
      ≡ key_or isoformat d (captured d utcnow) p.observation_key
    → upsert_insight_record known isoformat p d hash keywords utcnow now f ≡ ok g
    → upsert_insight_record known' isoformat p' d' hash' keywords' utcnow' now' g ≡ ok g'
    → g'.observations ≡ g.observations
observed_once known known' isoformat p p' d d' hash hash' keywords keywords' utcnow now utcnow' now'
      f g g' e first second =
    Ok_returned (Same g)
      (upsert_insight_record known' isoformat p' d' hash' keywords' utcnow' now' g) g'
      (upserted-Same known' isoformat p' d' hash' keywords' utcnow' now' g (
        rw e (
          Ok_returned (Observed (key_or isoformat d (captured d utcnow) p.observation_key))
            (upsert_insight_record known isoformat p d hash keywords utcnow now f) g
            (upserted-Observed known isoformat p d hash keywords utcnow now f) first)))
      second
