-- ===== src/Analytics/Rollups.antt =====
-- The rollup of a bucket after it is rebuilt.
use xingestionv.Prelude.{
  ◌≡◌, refl, ap, ◌∙◌, Bool, true, Option, none, some, List, [], ◌∷◌, arith, Bool-cases,
  Option-cases, inl, inr, ◌==◌, ==_iff, ◌&&◌, str_eq, eq_iff, if◌then◌else◌,
}
use mathlib.Core.Option
use xingestionv.Results.{Ok, Ok-map, Ok-bind}
use xingestionv.Table.{find, update, delete, count, insert}
use xingestionv.Table.Laws.{find-insert, find-update, find-delete, find-IsTrue, find-eq-none}
use xingestionv.Analytics.{Contribution, Rollup, Feed, Bucket, in_bucket, of_bucket, fits_int}
use xingestionv.Analytics.Upsert.{aggregate, put_rollup, rebuild_rollup_bucket, rebuild_all}
use xingestionv.Analytics.Record.{has_bucket}

-- Two buckets are the same.
abbrev pub same_bucket : Bucket → Bucket → Bool
same_bucket c b = str_eq c.0 b.0 && c.1 == b.1

-- The rollup of a bucket, as the table has it and as the contributions give it.
abbrev pub rollup_at : List Rollup → Bucket → Option Rollup
rollup_at rollups b = find (of_bucket b) rollups

abbrev pub expected : List Contribution → Bucket → Option Rollup
expected contributions b =
    if count (in_bucket b) contributions == 0 then none else some (aggregate b contributions)

-- The rows that one bucket's test accepts are of that bucket, and of no other.
of_bucket-same :
    (b c : Bucket) (r : Rollup) → of_bucket c r ≡ true → of_bucket b r ≡ same_bucket c b
of_bucket-same b c r h = ground (
  arith,
  eq_iff r.keyword c.0,
  eq_iff r.keyword b.0,
  eq_iff c.0 b.0,
  ==_iff r.window_timestamp c.1,
  ==_iff r.window_timestamp b.1,
  ==_iff c.1 b.1,
)

of_bucket-other :
    (b c : Bucket) (r : Rollup) → of_bucket b r ≡ true → of_bucket c r ≡ same_bucket c b
of_bucket-other b c r h = ground (
  arith,
  eq_iff r.keyword c.0,
  eq_iff r.keyword b.0,
  eq_iff c.0 b.0,
  ==_iff r.window_timestamp c.1,
  ==_iff r.window_timestamp b.1,
  ==_iff c.1 b.1,
)

-- A rollup takes the numbers of another row of its bucket.
replaced :
    (c : Bucket) (row r : Rollup)
    → of_bucket c row ≡ true
    → of_bucket c r ≡ true
    → record r { tweet_count = row.tweet_count; engagement_likes_sum = row.engagement_likes_sum }
      ≡ row
replaced c row r h k =
    let k1 : r.keyword ≡ row.keyword =
      ground (arith, eq_iff r.keyword c.0, eq_iff row.keyword c.0) in
    let k2 : r.window_timestamp ≡ row.window_timestamp =
      ground (arith, ==_iff r.window_timestamp c.1, ==_iff row.window_timestamp c.1) in
    λ i. record {
      keyword = k1 i;
      window_timestamp = k2 i;
      tweet_count = row.tweet_count;
      engagement_likes_sum = row.engagement_likes_sum;
    }

module _ (c b : Bucket) (rollups : List Rollup) where
  rollup_at-delete :
      rollup_at (delete (of_bucket c) rollups) b
      ≡ (if same_bucket c b then none else rollup_at rollups b)
  rollup_at-delete =
      find-delete (of_bucket b) (of_bucket c) (same_bucket c b) rollups
        (λ r h. of_bucket-other b c r h)

  rollup_at-same : same_bucket c b ≡ true → rollup_at rollups c ≡ none → rollup_at rollups b ≡ none
  rollup_at-same y e =
      find-eq-none (of_bucket b) (of_bucket c) rollups e (λ r h. of_bucket-other b c r h ∙ y)

  rollup_at-insert :
      (row : Rollup)
      → of_bucket c row ≡ true
      → rollup_at rollups c ≡ none
      → rollup_at (insert row rollups) b
        ≡ (if same_bucket c b then some row else rollup_at rollups b)
  rollup_at-insert row h e = elim (Bool-cases (same_bucket c b)) [
    | inl y ↦
        ground (
          arith,
          find-insert (of_bucket b) row rollups,
          rollup_at-same y e,
          of_bucket-same b c row h,
        )
    | inr n ↦ elim (Option-cases (rollup_at rollups b)) [
      | inl k ↦ ground (arith, find-insert (of_bucket b) row rollups, of_bucket-same b c row h)
      | inr (r, k) ↦ ground (arith, find-insert (of_bucket b) row rollups)
    ]
  ]

  rollup_at-update :
      (row old : Rollup)
      → of_bucket c row ≡ true
      → rollup_at rollups c ≡ some old
      → rollup_at
          (update
            (of_bucket c)
            (λ r. record r {
              tweet_count = row.tweet_count;
              engagement_likes_sum = row.engagement_likes_sum;
            })
            rollups)
          b
        ≡ (if same_bucket c b then some row else rollup_at rollups b)
  rollup_at-update row old h e = elim (Option-cases (rollup_at rollups b)) [
    | inl k ↦ elim (Bool-cases (same_bucket c b)) [
      | inl y ↦ absurd (ground (arith, absent y k))
      | inr n ↦ ground (arith, moved)
    ]
    | inr (r, k) ↦ ground (
      arith,
      moved,
      k,
      of_bucket-other b c r (find-IsTrue (of_bucket b) rollups r k),
      replaced c row r h,
    )
  ]
    where
      moved :
          find (of_bucket b) (
            update
              (of_bucket c)
              (λ r. record r {
                tweet_count = row.tweet_count;
                engagement_likes_sum = row.engagement_likes_sum;
              })
              rollups)
          ≡ Option.map
              (λ r.
                if of_bucket c r
                then record r {
                  tweet_count = row.tweet_count;
                  engagement_likes_sum = row.engagement_likes_sum;
                }
                else r)
              (rollup_at rollups b)
      moved = find-update (of_bucket b) (of_bucket c) _ rollups (λ r. refl)

      absent : same_bucket c b ≡ true → rollup_at rollups b ≡ none → rollup_at rollups c ≡ none
      absent y k =
          find-eq-none (of_bucket c) (of_bucket b) rollups k (λ r z. of_bucket-same b c r z ∙ y)

  rollup_at-put :
      (row : Rollup)
      → of_bucket c row ≡ true
      → rollup_at (put_rollup c row rollups) b
        ≡ (if same_bucket c b then some row else rollup_at rollups b)
  unfolding put_rollup
  rollup_at-put row h = elim (Option-cases (rollup_at rollups c)) [
    | inl e ↦ rw (e, put_rollup) (rollup_at-insert row h e)
    | inr (old, e) ↦ rw (e, put_rollup) (rollup_at-update row old h e)
  ]

own_bucket : (c : Bucket) (rows : List Contribution) → of_bucket c (aggregate c rows) ≡ true
unfolding aggregate
own_bucket c rows = ground (arith, eq_iff c.0 c.0, ==_iff c.1 c.1)

pub same_bucket-eq : (c b : Bucket) → same_bucket c b ≡ true → c ≡ b
same_bucket-eq c b y =
    let k : c.0 ≡ b.0 = ground (arith, eq_iff c.0 b.0) in
    let w : c.1 ≡ b.1 = ground (arith, ==_iff c.1 b.1) in λ i. (k i, w i)

expected-same :
    (c b : Bucket) (rows : List Contribution)
    → same_bucket c b ≡ true
    → expected rows c ≡ expected rows b
expected-same c b rows y = ap (expected rows) (same_bucket-eq c b y)

-- A rebuilt bucket has the rollup that the contributions give, and the others have what they had.
abbrev pub Rebuilt : Bucket → Feed → Feed → Type 0
Rebuilt c f g =
    (b : Bucket)
    → rollup_at g.rollups b
      ≡ (if same_bucket c b then expected f.contributions c else rollup_at f.rollups b)

rebuild_rollup_bucket-Rebuilt :
    (c : Bucket) (f : Feed)
    → Ok (λ g. Rebuilt c f g × (g.contributions ≡ f.contributions)) (rebuild_rollup_bucket c f)
unfolding rebuild_rollup_bucket
rebuild_rollup_bucket-Rebuilt c f = elim (Bool-cases (fits_int row.tweet_count)) [
  | inr n ↦ rw (n, rebuild_rollup_bucket) tt
  | inl y ↦ elim (Bool-cases (row.tweet_count == 0)) [
    | inl z ↦ rw (y, rebuild_rollup_bucket, z) (λ b. rollup_at-delete c b f.rollups, refl)
    | inr z ↦ elim (Bool-cases (fits_int row.engagement_likes_sum)) [
      | inl u ↦
          rw (y, rebuild_rollup_bucket, z, u)
            (λ b. rollup_at-put c b f.rollups row (own_bucket c f.contributions), refl)
      | inr u ↦ rw (y, rebuild_rollup_bucket, z, u) tt
    ]
  ]
]
  where
    row : Rollup
    row = aggregate c f.contributions

-- After the loop, the buckets of its list have the rollups that the contributions give.
abbrev pub RebuiltAll : List Bucket → Feed → Feed → Type 0
RebuiltAll bs f g =
    (b : Bucket)
    → rollup_at g.rollups b
      ≡ (if has_bucket b bs then expected f.contributions b else rollup_at f.rollups b)

pub rebuild_all-RebuiltAll :
    (bs : List Bucket) (f : Feed)
    → Ok (λ g. RebuiltAll bs f g × (g.contributions ≡ f.contributions)) (rebuild_all bs f)
unfolding rebuild_all has_bucket
rebuild_all-RebuiltAll [] f = (λ b. refl, refl)
rebuild_all-RebuiltAll (c ∷ bs) f =
    Ok-bind (λ g. Rebuilt c f g × (g.contributions ≡ f.contributions)) _ (rebuild_rollup_bucket c f)
      (rebuild_all bs) (rebuild_rollup_bucket-Rebuilt c f)
      (λ g h.
        Ok-map _ _ (rebuild_all bs g)
          (λ g' k. (
            λ b. ground (
              arith,
              k.0 b,
              h.0 b,
              ap (λ rows. expected rows b) h.1,
              expected-same c b f.contributions,
            ),
            k.1 ∙ h.1,
          ))
          (rebuild_all-RebuiltAll bs g))
