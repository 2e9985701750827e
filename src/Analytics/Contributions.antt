-- ===== src/Analytics/Contributions.antt =====
-- The statements on the contributions of an insight leave the buckets alone that are not affected.
use xingestionv.Prelude.{
  ℕ, ◌≡◌, refl, sym, ap, ◌∙◌, Bool, true, false, none, List, [], ◌∷◌, ◌++◌, map, String, arith,
  Bool-cases, Option-cases, inl, inr, ◌&&◌, ◌||◌,
}
use xingestionv.Table.{find, select, count, order_by, place}
use xingestionv.Table.Laws.{
  find-insert, find-update, find-eq-none, select-update_other, select-delete_other,
  select-insert_other, count-select,
}
use xingestionv.Analytics.{Contribution, Bucket, in_bucket}
use xingestionv.Analytics.Upsert.{
  aggregate, sum_likes, of_insight, is_contribution, raised_likes, new_contribution,
  put_contribution,
}
use xingestionv.Analytics.Record.{
  has_bucket, distinct, bucket_before, bucket_of, dropped, put_contributions, replace_contributions,
  affected,
}
use xingestionv.Analytics.Rollups.{same_bucket, same_bucket-eq, expected}

neither : (x y : Bool) → x || y ≡ false → (x ≡ false) × (y ≡ false)
neither true y h = absurd (ground arith)
neither false y h = (refl, h)

-- Sets of buckets.
has_bucket-append :
    (b : Bucket) (xs ys : List Bucket)
    → has_bucket b (xs ++ ys) ≡ has_bucket b xs || has_bucket b ys
unfolding has_bucket
has_bucket-append b [] ys = refl
has_bucket-append b (x ∷ xs) ys = ground (arith, has_bucket-append b xs ys)

has_bucket-same :
    (b c : Bucket) (xs : List Bucket) → same_bucket c b ≡ true → has_bucket b xs ≡ has_bucket c xs
has_bucket-same b c xs y = ap (λ (z : Bucket). has_bucket z xs) (sym (same_bucket-eq c b y))

has_bucket-distinct : (b : Bucket) (xs : List Bucket) → has_bucket b (distinct xs) ≡ has_bucket b xs
unfolding has_bucket distinct
has_bucket-distinct b [] = refl
has_bucket-distinct b (x ∷ xs) = ground (arith, has_bucket-distinct b xs, has_bucket-same b x xs)

has_bucket-place :
    (b x : Bucket) (xs : List Bucket)
    → has_bucket b (place bucket_before x xs) ≡ same_bucket x b || has_bucket b xs
unfolding has_bucket place
has_bucket-place b x [] = ground arith
has_bucket-place b x (y ∷ ys) = elim (Bool-cases (bucket_before x y)) [
  | inl h ↦ rw h refl
  | inr h ↦ rw h (ground (arith, has_bucket-place b x ys))
]

pub has_bucket-order_by :
    (b : Bucket) (xs : List Bucket) → has_bucket b (order_by bucket_before xs) ≡ has_bucket b xs
unfolding has_bucket order_by
has_bucket-order_by b [] = refl
has_bucket-order_by b (x ∷ xs) =
    ground (arith, has_bucket-place b x (order_by bucket_before xs), has_bucket-order_by b xs)

-- The insight has no row in the bucket.
abbrev Clear : ℕ → Bucket → List Contribution → Type 0
Clear id b rows = find (λ c. of_insight id c && in_bucket b c) rows ≡ none

buckets-Clear :
    (id : ℕ) (b : Bucket) (rows : List Contribution)
    → has_bucket b (map bucket_of (select (of_insight id) rows)) ≡ false
    → Clear id b rows
unfolding has_bucket select find
buckets-Clear id b [] h = refl
buckets-Clear id b (c ∷ rows) h = ground (arith, buckets-Clear id b rows)

expected-select :
    (b : Bucket) (xs ys : List Contribution)
    → select (in_bucket b) xs ≡ select (in_bucket b) ys
    → expected xs b ≡ expected ys b
unfolding aggregate
expected-select b xs ys e = ground (
  arith,
  ap (λ (rows : List Contribution). count (λ c. true) rows) e,
  ap sum_likes e,
  count-select (in_bucket b) xs,
  count-select (in_bucket b) ys,
)

module _ (id window likes now : ℕ) (b : Bucket) where
  -- One keyword, of another bucket.
  put_contribution-other :
      (k : String) (rows : List Contribution)
      → same_bucket (k, window) b ≡ false
      → Clear id b rows
      → Clear id b (put_contribution id window likes now k rows)
        × (select (in_bucket b) (put_contribution id window likes now k rows)
            ≡ select (in_bucket b) rows)
  unfolding put_contribution
  put_contribution-other k rows n h = elim (Option-cases (find (is_contribution id k) rows)) [
    | inl e ↦
        rw (e, put_contribution)
          (
            ground (
              arith,
              find-insert (λ c. of_insight id c && in_bucket b c)
                  (new_contribution id k window likes now) rows,
            ),
            select-insert_other (in_bucket b) (new_contribution id k window likes now) rows n,
          )
    | inr (c, e) ↦
        rw (e, put_contribution)
          (
            ground (
              arith,
              find-update (λ c. of_insight id c && in_bucket b c) (is_contribution id k)
                  (raised_likes likes now) rows (λ a. refl),
            ),
            select-update_other (in_bucket b) (is_contribution id k) (raised_likes likes now) rows
                (λ a. refl) (find-eq-none _ _ rows h (λ a y. ground arith)),
          )
  ]

  put_contributions-other :
      (ks : List String) (rows : List Contribution)
      → has_bucket b (map (λ k. (k, window)) ks) ≡ false
      → Clear id b rows
      → Clear id b (put_contributions id window likes now ks rows)
        × (select (in_bucket b) (put_contributions id window likes now ks rows)
            ≡ select (in_bucket b) rows)
  unfolding put_contributions has_bucket
  put_contributions-other [] rows n h = (h, refl)
  put_contributions-other (k ∷ ks) rows n h =
      let (c, e) = put_contribution-other k rows (ground arith) h in
      let (d, e') =
        put_contributions-other ks (put_contribution id window likes now k rows) (ground arith) c in
      (d, e' ∙ e)

  affected_split :
      (ks : List String) (rows : List Contribution)
      → has_bucket b (affected id window ks rows) ≡ false
      → Clear id b rows × (has_bucket b (map (λ k. (k, window)) ks) ≡ false)
  unfolding affected
  affected_split ks rows n =
      let olds : List Bucket = map bucket_of (select (of_insight id) rows) in
      let news : List Bucket = map (λ k. (k, window)) ks in
      let (l, r) =
        neither (has_bucket b olds) (has_bucket b news)
          (sym (has_bucket-append b olds news) ∙ sym (has_bucket-distinct b (olds ++ news)) ∙ n) in
      (buckets-Clear id b rows l, r)

  replace_contributions-other :
      (ks : List String) (rows : List Contribution)
      → has_bucket b (affected id window ks rows) ≡ false
      → select (in_bucket b) (replace_contributions id window likes now ks rows)
        ≡ select (in_bucket b) rows
  unfolding replace_contributions
  replace_contributions-other [] rows n =
      select-delete_other (in_bucket b) (of_insight id) rows (affected_split [] rows n).0
  replace_contributions-other (k ∷ ks) rows n =
      let (c, m) = affected_split (k ∷ ks) rows n in
      let (d, e) = put_contributions-other (k ∷ ks) rows m c in
      select-delete_other (in_bucket b) (dropped id (k ∷ ks)) _
        (find-eq-none _ _ _ d (λ a y. ground arith))
      ∙ e

  -- A bucket that is not affected has the rollup that it had.
  pub replace_contributions-expected :
      (ks : List String) (rows : List Contribution)
      → has_bucket b (affected id window ks rows) ≡ false
      → expected (replace_contributions id window likes now ks rows) b ≡ expected rows b
  replace_contributions-expected ks rows n =
      expected-select b _ rows (replace_contributions-other ks rows n)
