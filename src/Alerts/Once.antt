-- ===== src/Alerts/Once.antt =====
-- About the alerts of process_velocity_spike_detection of analytics_alerts.py.
use xingestionv.Prelude.{
  ℕ, suc, ◌+◌, ◌≡◌, refl, ◌∙◌, ap, ℤ, pos, ltb_ℤ, Bool, true, false, ◌&&◌, ◌==◌, ==_iff, List, [],
  ◌∷◌, String, str_eq, eq_iff, arith, Bool-cases, inl, inr, if◌then◌else◌,
}
use xingestionv.Schema.{ok}
use xingestionv.Table.{select, insert, count}
use xingestionv.Table.Laws.{count-insert}
use xingestionv.Table.Members.{order_by-count}
use xingestionv.Analytics.{Rollup, fits_int}
use xingestionv.Alerts.{
  Alert, Alerts, is_recent, has_keyword, volume, group_keys, louder, spikes, spiking, new_alert,
  insert_alerts, process_velocity_spike_detection,
}

abbrev pub one_if : Bool → ℕ
one_if true = 1
one_if false = 0

count-group_keys :
    (k : String) (rows : List Rollup)
    → count (λ l. str_eq l k) (group_keys rows) ≡ one_if (has_keyword k rows)
unfolding group_keys count has_keyword
count-group_keys k [] = refl
count-group_keys k (r ∷ rows) = elim (Bool-cases (str_eq r.keyword k)) [
  | inl y ↦
      let e : r.keyword ≡ k = (eq_iff r.keyword k).0 y in
      ground (arith, count-group_keys k rows, ap (λ (l : String). has_keyword l rows) e)
  | inr n ↦ ground (arith, count-group_keys k rows)
]

count-select :
    (k : String) (p : String → Bool) (keys : List String)
    → count (λ l. str_eq l k) (select p keys) ≡ (if p k then count (λ l. str_eq l k) keys else 0)
unfolding select count
count-select k p [] = ground arith
count-select k p (l ∷ keys) = elim (Bool-cases (str_eq l k)) [
  | inl y ↦ let e : l ≡ k = (eq_iff l k).0 y in ground (arith, count-select k p keys, ap p e)
  | inr n ↦ ground (arith, count-select k p keys)
]

-- The rows about a keyword with this volume.
abbrev pub reports : String → ℕ → Alert → Bool
reports k v a = str_eq a.keyword k && a.observed_volume == v

abbrev stored : ℤ → List Rollup → ℕ → String → Alerts → Alerts
stored threshold recent now l a = record {
  rows = insert (new_alert a.next_alert l (volume l recent) threshold now) a.rows;
  next_alert = suc a.next_alert;
}

module _ (threshold : ℤ) (recent : List Rollup) (now : ℕ) (k : String) where
  reports-new_alert :
      (i : ℕ) (l : String)
      → reports k (volume k recent) (new_alert i l (volume l recent) threshold now) ≡ str_eq l k
  reports-new_alert i l = elim (Bool-cases (str_eq l k)) [
    | inr n ↦ ground arith
    | inl y ↦
        let e : l ≡ k = (eq_iff l k).0 y in
        ground (
          arith,
          ap (λ (m : String). volume m recent) e,
          ==_iff (volume l recent) (volume k recent),
        )
  ]

  -- Rows that a new alert satisfies exactly when it is about `k`.
  module _ (p : Alert → Bool)
      (about : (i : ℕ) (l : String)
        → p (new_alert i l (volume l recent) threshold now) ≡ str_eq l k) where
    count-insert_alerts :
        (keywords : List String) (a : Alerts)
        → (insert_alerts threshold recent now keywords a).0 ≡ ok true
        → count p (insert_alerts threshold recent now keywords a).1.rows
          ≡ count p a.rows + count (λ l. str_eq l k) keywords
    unfolding insert_alerts count
    count-insert_alerts [] a h = omega arith
    count-insert_alerts (l ∷ keywords) a h = elim (Bool-cases (fits_int (volume l recent))) [
      | inr n ↦ absurd (ground arith)
      | inl y ↦
          rw y
            (count-insert_alerts keywords (stored threshold recent now l a) (ground arith) ∙ added)
    ]
      where
        added :
            count p (stored threshold recent now l a).rows + count (λ m. str_eq m k) keywords
            ≡ count p a.rows + count (λ m. str_eq m k) (l ∷ keywords)
        added = ground (
          arith,
          count-insert p (new_alert a.next_alert l (volume l recent) threshold now) a.rows,
          about a.next_alert l,
        )

  count-spiking :
      count (λ l. str_eq l k) (spiking threshold recent)
      ≡ one_if (has_keyword k recent && ltb_ℤ threshold (pos (volume k recent)))
  unfolding spiking
  count-spiking =
      order_by-count (louder recent) (λ l. str_eq l k)
        (select (spikes threshold recent) (group_keys recent))
      ∙ count-select k (spikes threshold recent) (group_keys recent)
      ∙ ground (arith, count-group_keys k recent)

-- Where process_velocity_spike_detection returns, the keyword `k` has one new alert where it has a
-- recent rollup and its recent rollups sum up to more than the threshold, and no new alert
-- otherwise; and that alert reports the sum.
pub process_velocity_spike_detection_lem :
    (threshold : ℤ) (now : ℕ) (rollups : List Rollup) (a : Alerts) (k : String)
    → (process_velocity_spike_detection threshold now rollups a).0 ≡ ok true
    → (count
          (λ b. str_eq b.keyword k)
          (process_velocity_spike_detection threshold now rollups a).1.rows
        ≡ count (λ b. str_eq b.keyword k) a.rows
          + one_if (
              has_keyword k (select (is_recent now) rollups)
              && ltb_ℤ threshold (pos (volume k (select (is_recent now) rollups)))))
      × (count
            (reports k (volume k (select (is_recent now) rollups)))
            (process_velocity_spike_detection threshold now rollups a).1.rows
          ≡ count (reports k (volume k (select (is_recent now) rollups))) a.rows
            + one_if (
                has_keyword k (select (is_recent now) rollups)
                && ltb_ℤ threshold (pos (volume k (select (is_recent now) rollups)))))
unfolding process_velocity_spike_detection
process_velocity_spike_detection_lem threshold now rollups a k h = (
  counted (λ b. str_eq b.keyword k) (λ i l. refl),
  counted (reports k (volume k recent)) (reports-new_alert threshold recent now k),
)
  where
    recent : List Rollup
    recent = select (is_recent now) rollups

    counted :
        (p : Alert → Bool)
        → ((i : ℕ) (l : String) → p (new_alert i l (volume l recent) threshold now) ≡ str_eq l k)
        → count p (process_velocity_spike_detection threshold now rollups a).1.rows
          ≡ count p a.rows
            + one_if (has_keyword k recent && ltb_ℤ threshold (pos (volume k recent)))
    counted p about =
        count-insert_alerts threshold recent now k p about (spiking threshold recent) a h
        ∙ ap (λ (n : ℕ). count p a.rows + n) (count-spiking threshold recent now k)
