-- ===== src/Alerts.antt =====
-- process_velocity_spike_detection of analytics_alerts.py, over the hourly rollups.
pub mod Once
use xingestionv.Prelude.{
  ℕ, suc, ◌+◌, ◌*◌, ℤ, pos, ltb_ℤ, Bool, true, false, not, ◌||◌, List, [], ◌∷◌, map, String, str_eq,
  leb, ltb, if◌then◌else◌,
}
use xingestionv.Schema.{second, Result, ok, err, data_error}
use xingestionv.Table.{select, insert, order_by}
use xingestionv.Analytics.{Rollup, fits_int}

-- system_operational_alerts
pub record Alert : Type 0 where
  pub alert_id : ℕ
  pub keyword : String
  pub observed_volume : ℕ
  pub threshold_limit : ℤ
  pub triggered_at : ℕ

pub record Alerts : Type 0 where
  pub rows : List Alert
  pub next_alert : ℕ

-- WHERE window_timestamp >= NOW() - INTERVAL '1 hour'
abbrev pub is_recent : ℕ → Rollup → Bool
is_recent now r = leb now (r.window_timestamp + 3600 * second)

unfoldable pub has_keyword : String → List Rollup → Bool
has_keyword k [] = false
has_keyword k (r ∷ rows) = str_eq r.keyword k || has_keyword k rows

-- SUM(tweet_count) of the group of a keyword
unfoldable pub volume : String → List Rollup → ℕ
volume k [] = 0
volume k (r ∷ rows) =
    let rest = volume k rows in if str_eq r.keyword k then r.tweet_count + rest else rest

-- GROUP BY keyword: the keyword of each group
unfoldable pub group_keys : List Rollup → List String
unfolding has_keyword
group_keys [] = []
group_keys (r ∷ rows) =
    let rest = group_keys rows in if has_keyword r.keyword rows then rest else r.keyword ∷ rest

-- ORDER BY total_volume DESC
abbrev pub louder : List Rollup → String → String → Bool
louder rows k l = leb (volume l rows) (volume k rows)

-- HAVING SUM(tweet_count) > $1
abbrev pub spikes : ℤ → List Rollup → String → Bool
spikes threshold rows k = ltb_ℤ threshold (pos (volume k rows))

-- The keywords that the SELECT returns, of the recent rows.
unfoldable pub spiking : ℤ → List Rollup → List String
unfolding group_keys volume
spiking threshold recent =
    order_by (louder recent) (select (spikes threshold recent) (group_keys recent))

abbrev pub new_alert : ℕ → String → ℕ → ℤ → ℕ → Alert
new_alert id k v threshold now = record {
  alert_id = id;
  keyword = k;
  observed_volume = v;
  threshold_limit = threshold;
  triggered_at = now;
}

-- The loop over the records. Each INSERT is a transaction of its own, and raises where the volume
-- does not fit its column.
unfoldable pub insert_alerts : ℤ → List Rollup → ℕ → List String → Alerts → Result Bool × Alerts
unfolding volume
insert_alerts threshold recent now [] a = (ok true, a)
insert_alerts threshold recent now (k ∷ keywords) a =
    if fits_int (volume k recent)
    then insert_alerts threshold recent now keywords (record {
      rows = insert (new_alert a.next_alert k (volume k recent) threshold now) a.rows;
      next_alert = suc a.next_alert;
    })
    else (err data_error, a)

-- process_velocity_spike_detection
unfoldable pub process_velocity_spike_detection :
    ℤ → ℕ → List Rollup → Alerts → Result Bool × Alerts
unfolding spiking insert_alerts
process_velocity_spike_detection threshold now rollups a =
    let recent = select (is_recent now) rollups in
    insert_alerts threshold recent now (spiking threshold recent) a
