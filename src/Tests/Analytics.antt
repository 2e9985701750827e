-- ===== src/Tests/Analytics.antt =====
-- The storing of documents on concrete tools, items and tables.
use xingestionv.Prelude.{
  take_text, drop_text, ℕ, ◌+◌, ◌≡◌, refl, ℤ, pos, true, false, Option, none, some, List, [], ◌∷◌,
  String,
}
use xingestionv.Json.{Json, Fields, int, str, end, field}
use xingestionv.Schema.{Result, ok, err, data_error}
use xingestionv.Results.{Ok_returned}
use xingestionv.Table.{find, order_by, select, count, delete, insert, update}
use xingestionv.Analytics.{
  SocialMediaDocument, Feed, Contribution, pending, all_spaces, fits_varchar,
}
use xingestionv.Analytics.Document.{TextTools, Readers, document_of}
use xingestionv.Analytics.Upsert.{Provenance}
use xingestionv.Analytics.Record.{upsert_insight_record}
use xingestionv.Analytics.Agree.{Agrees, upserted-Agrees, upsert_insight_record-Agrees}
use xingestionv.Analytics.Again.{observed_once}
use xingestionv.Analytics.Retention.{purge_feed, purge_feed-breaks_Agrees}
use xingestionv.Analytics.Persist.{Moment, persist_documents}
use xingestionv.Analytics.Stored.{
  persist_documents-Agrees, is_valid, is_invalid, persist_documents_counted, long_author_stops,
}
use xingestionv.Capabilities.{AcquisitionPlan}
use xingestionv.Capabilities.Values.{get}
use xingestionv.Worker.Pages.{Collected}
use xingestionv.Worker.Execute.{execute_collected, execute_collected_adds_up}
use xingestionv.Tests.Planning.{py, search_task, request, route}

-- Every text that is not empty has the keyword "cats".
abbrev tools : TextTools
tools = record {
  collapse = λ s. s;
  upper = λ s. s;
  casefold = λ s. s;
  drop_links = λ s. s;
  keep_alnum = λ s. s;
  sha256_hex = λ s. "0";
  words = λ s. "cats" ∷ "this" ∷ [];
  is_decimal = λ s. false;
}

abbrev as_text : Json → Option String
as_text (str s) = some s
as_text _ = none

abbrev as_int : Json → Option ℤ
as_int (int n) = some n
as_int _ = none

abbrev as_time : Json → Option ℕ
as_time (int (pos n)) = some n
as_time _ = none

abbrev rd : Readers
rd = record { read_text = as_text; read_int = as_int; read_time = as_time }

abbrev isoformat : ℕ → String
isoformat t = "now"

abbrev item_by : String → Fields
item_by author = field "original_tweet_id" (str "7") (
    field "author_id" (str author) (
      field "author_handle" (str "@ann")
        (field "text_content" (str "Tags:more cats") (field "engagement_likes" (int (pos 3)) end))))

abbrev document_by : String → SocialMediaDocument
document_by author = record {
  platform = "x";
  original_tweet_id = "7";
  author_id = author;
  author_handle = "ann";
  text_content = "more cats";
  engagement_likes = 3;
  engagement_retweets = 0;
  sentiment_label = pending;
  conversation_id = none;
  source_created_at = none;
  captured_at = none;
}

document_read : document_of py tools rd (item_by "9") ≡ ok (document_by "9")
unfolding document_of drop_text
document_read = refl

abbrev no_provenance : Provenance
no_provenance = record {
  observation_key = none;
  ingestion_task_id = none;
  task_generation = none;
  adapter_name = none;
  adapter_version = none;
}

abbrev empty_feed : Feed
empty_feed = record {
  rows = [];
  next_insight = 1;
  observations = [];
  next_observation = 1;
  contributions = [];
  rollups = [];
}

empty-Agrees : Agrees empty_feed
unfolding find count
empty-Agrees b = refl

abbrev upserted : Result Feed
upserted =
    upsert_insight_record (λ i. true) isoformat no_provenance (document_by "9") "0" ("cats" ∷ [])
      5000000 5000000 empty_feed

abbrev stored_feed : Feed
stored_feed = elim upserted [ err e ↦ empty_feed | ok g ↦ g ]

upserted_ok : upserted ≡ ok stored_feed
unfolding upsert_insight_record find order_by select count delete insert fits_varchar drop_text
upserted_ok = refl

upsert_insight_record-Agrees_example : Agrees stored_feed
upsert_insight_record-Agrees_example =
    upsert_insight_record-Agrees (λ i. true) isoformat no_provenance (document_by "9") "0"
      ("cats" ∷ []) 5000000 5000000 empty_feed stored_feed empty-Agrees upserted_ok

stored-Agrees : Agrees stored_feed
stored-Agrees =
    Ok_returned Agrees upserted stored_feed
      (upserted-Agrees (λ i. true) isoformat no_provenance (document_by "9") "0" ("cats" ∷ [])
        5000000 5000000 empty_feed empty-Agrees)
      upserted_ok

abbrev first_contribution : Contribution
first_contribution = record {
  insight_id = 1;
  keyword = "cats";
  window_timestamp = 0;
  engagement_likes = 3;
  updated_at = 5000000;
}

-- A day later the only row is outdated, and the bucket of its keyword keeps its rollup.
purge_feed-breaks_Agrees_example : ¬ Agrees (purge_feed 1 90000000000000 stored_feed)
unfolding upsert_insight_record find order_by select count delete insert fits_varchar drop_text
purge_feed-breaks_Agrees_example =
    purge_feed-breaks_Agrees 1 90000000000000 stored_feed ("cats", 0) first_contribution
      stored-Agrees refl

abbrev moments : ℕ → Moment
moments k = record { utcnow = 5000000; now = 5000000; known = λ i. true; since = λ f. f }

-- The second item has no author.
abbrev items : List Fields
items = item_by "9" ∷ field "original_tweet_id" (str "8") end ∷ []

abbrev persisted : Result (ℕ × ℕ) × Feed
persisted = persist_documents py tools rd isoformat search_task moments 0 items 0 0 empty_feed

persisted_counts : persisted.0 ≡ ok (1, 1)
unfolding persist_documents drop_text find order_by select count delete insert fits_varchar
persisted_counts = refl

persist_documents-Agrees_example : Agrees persisted.1
persist_documents-Agrees_example =
    persist_documents-Agrees py tools rd isoformat search_task moments items 0 0 0 empty_feed
      (λ k g h. h) empty-Agrees

persist_documents_counted_example :
    (1 ≡ count (is_valid py tools rd isoformat search_task moments) items)
    × (1 ≡ count (is_invalid py tools rd isoformat search_task moments) items)
persist_documents_counted_example =
    persist_documents_counted py tools rd isoformat search_task moments items 0 empty_feed 1 1
      persisted_counts

abbrev long_author : String
long_author = "aaaaaaaaaaaaaaaaaaaaaaaaaaaaaaaaaaaaaaaaaaaaaaaaaaaaaaaaaaaaaaaaaaaaaa"

long_author_stops_example :
    persist_documents py tools rd isoformat search_task moments 0
      (item_by long_author ∷ items)
      0
      0
      empty_feed
    ≡ (err data_error, empty_feed)
unfolding document_of drop_text all_spaces
long_author_stops_example =
    long_author_stops py tools rd isoformat search_task moments (item_by long_author) items 0 0 0
      empty_feed (document_by long_author) refl refl

abbrev cats_plan : AcquisitionPlan
cats_plan = record {
  request = request;
  route = route;
  effective_page_size = pos 20;
  effective_max_pages = pos 1;
  warnings = [];
}

abbrev got : Collected
got = record { items = items; adapters = []; next_cursor = none }

abbrev executed : Result Fields × Feed
executed =
    execute_collected py tools rd isoformat search_task moments cats_plan "cats" "Latest" got
      empty_feed

abbrev executed_metadata : Fields
executed_metadata = elim executed.0 [ err e ↦ end | ok metadata ↦ metadata ]

execute_collected_adds_up_example :
    (stored : ℕ) × (rejected : ℕ) × (get "items_stored" executed_metadata ≡ some (int (pos stored)))
    × (get "items_rejected" executed_metadata ≡ some (int (pos rejected)))
    × (get "items_collected" executed_metadata ≡ some (int (pos (stored + rejected))))
unfolding execute_collected drop_text find order_by select count delete insert fits_varchar
execute_collected_adds_up_example =
    execute_collected_adds_up py tools rd isoformat search_task moments cats_plan "cats" "Latest"
      got empty_feed executed_metadata refl

-- The document comes again, from another author and with other keywords.
abbrev upserted_again : Result Feed
upserted_again =
    upsert_insight_record (λ i. false) isoformat no_provenance (document_by "8") "1" ("dogs" ∷ [])
      6000000 6000000 stored_feed

abbrev again_feed : Feed
again_feed = elim upserted_again [ err e ↦ empty_feed | ok g ↦ g ]

observed_once_example : again_feed.observations ≡ stored_feed.observations
unfolding upsert_insight_record find order_by select count delete insert update fits_varchar
    drop_text take_text
observed_once_example =
    observed_once (λ i. true) (λ i. false) isoformat no_provenance no_provenance (document_by "9")
      (document_by "8") "0" "1" ("cats" ∷ []) ("dogs" ∷ []) 5000000 5000000 6000000 6000000
      empty_feed stored_feed again_feed refl upserted_ok refl
