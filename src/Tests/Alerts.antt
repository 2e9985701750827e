-- ===== src/Tests/Alerts.antt =====
-- The alerts on concrete rollups.
use xingestionv.Prelude.{str_eq, ℕ, ◌+◌, ◌≡◌, refl, pos, List, [], ◌∷◌, String, ltb_ℤ, ◌&&◌}
use xingestionv.Table.{select, count, insert, order_by}
use xingestionv.Analytics.{Rollup}
use xingestionv.Alerts.{
  Alert, Alerts, is_recent, has_keyword, volume, process_velocity_spike_detection,
}
use xingestionv.Alerts.Once.{one_if, reports, process_velocity_spike_detection_lem}

abbrev rollup : String → ℕ → ℕ → Rollup
rollup keyword window n = record {
  keyword = keyword;
  window_timestamp = window;
  tweet_count = n;
  engagement_likes_sum = 0;
}

-- An old rollup does not count.
abbrev rollups : List Rollup
rollups =
    rollup "cats" 7200000000 4
    ∷ rollup "dogs" 7200000000 2
    ∷ rollup "cats" 3600000000 2
    ∷ rollup "dogs" 0 9
    ∷ []

abbrev none_yet : Alerts
none_yet = record { rows = []; next_alert = 1 }

process_velocity_spike_detection_lem_example :
    (count
        (λ (b : Alert). str_eq b.keyword "cats")
        (process_velocity_spike_detection (pos 5) 7200000000 rollups none_yet).1.rows
      ≡ count (λ (b : Alert). str_eq b.keyword "cats") []
        + one_if (
            has_keyword "cats" (select (is_recent 7200000000) rollups)
            && ltb_ℤ (pos 5) (pos (volume "cats" (select (is_recent 7200000000) rollups)))))
    × (count
          (reports "cats" (volume "cats" (select (is_recent 7200000000) rollups)))
          (process_velocity_spike_detection (pos 5) 7200000000 rollups none_yet).1.rows
        ≡ count (reports "cats" (volume "cats" (select (is_recent 7200000000) rollups))) []
          + one_if (
              has_keyword "cats" (select (is_recent 7200000000) rollups)
              && ltb_ℤ (pos 5) (pos (volume "cats" (select (is_recent 7200000000) rollups)))))
unfolding process_velocity_spike_detection select order_by insert
process_velocity_spike_detection_lem_example =
    process_velocity_spike_detection_lem (pos 5) 7200000000 rollups none_yet "cats" refl
