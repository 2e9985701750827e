-- ===== src/Analytics/Document.antt =====
-- SocialMediaDocument of analytics_parser.py: its validators, the hash and the keywords of its text.
-- What pydantic reads in a value is given by `Readers`, what Python and its libraries do to a text by
-- `TextTools`.
use Prim.Native.String.{count as count_chars}
use text.Mathlib.Text.{starts_with}
use xingestionv.Prelude.{
  ℕ, ℤ, pos, Bool, not, ◌&&◌, Option, none, some, List, [], ◌∷◌, String, leb, str_eq, if◌then◌else◌,
  drop_text,
}
use xingestionv.Json.{Json, Fields, null, str, int}
use xingestionv.Schema.{Result, ok, err, ◌>>=◌, value_error}
use xingestionv.Capabilities.{Builtins}
use xingestionv.Capabilities.Values.{get, get_or, to_text, has_name}
use xingestionv.Analytics.{
  SentimentLabel, pending, positive, negative, neutral, SocialMediaDocument,
}

-- `collapse` is " ".join(text.replace("\u00a0", " ").split()), `drop_links` the substitution of
-- compute_clean_text_hash, `keep_alnum` its join of the letters and digits, and `words` the set of
-- the matches in extract_keywords.
pub record TextTools : Type 0 where
  pub collapse : String → String
  pub upper : String → String
  pub casefold : String → String
  pub drop_links : String → String
  pub keep_alnum : String → String
  pub sha256_hex : String → String
  pub words : String → List String
  pub is_decimal : String → Bool

-- How pydantic reads a value as a text, a number or a time, `none` where it refuses.
pub record Readers : Type 0 where
  pub read_text : Json → Option String
  pub read_int : Json → Option ℤ
  pub read_time : Json → Option ℕ

-- text[len(prefix):].strip() where the text starts with the prefix
abbrev pub without : Builtins → String → String → String
without py prefix text =
    if starts_with text prefix then py.strip (drop_text (count_chars prefix) text) else text

-- The loop over the prefixes.
unfoldable pub without_all : Builtins → List String → String → String
without_all py [] text = text
without_all py (p ∷ prefixes) text = without_all py prefixes (without py p text)

-- "" if value is None else str(value)
abbrev pub plain_text : Builtins → Json → String
plain_text py null = ""
plain_text py v = to_text py v

-- normalize_text_content
unfoldable pub normalize_text_content : Builtins → TextTools → Json → String
unfolding without_all
normalize_text_content py tools v =
    without_all py ("RT @" ∷ "Source:" ∷ "Metadata:" ∷ "Tags:" ∷ "Posted via" ∷ [])
      (tools.collapse (plain_text py v))

-- normalize_author_handle
abbrev pub bare_handle : String → String
bare_handle handle = if starts_with handle "@" then drop_text 1 handle else handle

unfoldable pub normalize_author_handle : Builtins → Json → String
normalize_author_handle py null = ""
normalize_author_handle py v = bare_handle (py.strip (to_text py v))

abbrev pub label_of : String → Result SentimentLabel
label_of s =
    if str_eq s "PENDING"
    then ok pending
    else if str_eq s "POSITIVE"
    then ok positive
    else if str_eq s "NEGATIVE"
    then ok negative
    else if str_eq s "NEUTRAL"
    then ok neutral
    else err value_error

-- normalize_sentiment_label
unfoldable pub normalize_sentiment_label : Builtins → TextTools → Json → Result SentimentLabel
normalize_sentiment_label py tools null = ok pending
normalize_sentiment_label py tools v = label_of (tools.upper (py.strip (to_text py v)))

-- Field(min_length=..., max_length=...), where there is a maximum
abbrev pub sized : ℕ → Option ℕ → String → Result String
sized least most s =
    if leb least (count_chars s)
    then elim most [
      | none ↦ ok s
      | some n ↦ if leb (count_chars s) n then ok s else err value_error
    ]
    else err value_error

abbrev pub required {ℓ} : {A : Type ℓ} → Option A → Result A
required none = err value_error
required (some a) = ok a

-- A field without a default, and one with it.
abbrev pub needed : String → Fields → Result Json
needed name item = required (get name item)

-- Field(default=0, ge=0)
abbrev pub counted : Option ℤ → Result ℕ
counted (some (pos n)) = ok n
counted _ = err value_error

abbrev pub count_field : Readers → String → Fields → Result ℕ
count_field rd name item = counted (rd.read_int (get_or name (int (pos 0)) item))

-- An Optional field, whose default is None.
abbrev pub optional {ℓ} : {A : Type ℓ} → (Json → Option A) → Json → Result (Option A)
optional read null = ok none
optional read v = elim (read v) [ none ↦ err value_error | some a ↦ ok (some a) ]

abbrev pub sized_optional : Option String → Result (Option String)
sized_optional none = ok none
sized_optional (some s) = sized 0 (some 128) s >>= (λ t. ok (some t))

abbrev pub sentiment_field : Builtins → TextTools → Fields → Result SentimentLabel
sentiment_field py tools item = elim (get "sentiment_label" item) [
  | none ↦ ok pending
  | some v ↦ normalize_sentiment_label py tools v
]

-- SocialMediaDocument(**item); a ValidationError is a ValueError.
unfoldable pub document_of : Builtins → TextTools → Readers → Fields → Result SocialMediaDocument
unfolding get normalize_text_content normalize_author_handle normalize_sentiment_label
document_of py tools rd item = do
  insight_id ← optional rd.read_int (get_or "insight_id" null item)
  platform ← required (rd.read_text (get_or "platform" (str "x") item)) >>= sized 1 (some 32)
  tweet ← needed "original_tweet_id" item >>= (λ v. required (rd.read_text v)) >>= sized 1 (some 64)
  author ← needed "author_id" item >>= (λ v. required (rd.read_text v)) >>= sized 1 (some 128)
  raw_handle ← needed "author_handle" item
  handle ← sized 1 (some 100) (normalize_author_handle py raw_handle)
  raw_text ← needed "text_content" item
  text ← sized 1 none (normalize_text_content py tools raw_text)
  likes ← count_field rd "engagement_likes" item
  retweets ← count_field rd "engagement_retweets" item
  label ← sentiment_field py tools item
  conversation ← optional rd.read_text (get_or "conversation_id" null item) >>= sized_optional
  created ← optional rd.read_time (get_or "source_created_at" null item)
  captured ← optional rd.read_time (get_or "captured_at" null item)
  ingested ← optional rd.read_time (get_or "ingested_at" null item)
  hash ← optional rd.read_text (get_or "content_text_hash" null item)
  ok (record {
    platform = platform;
    original_tweet_id = tweet;
    author_id = author;
    author_handle = handle;
    text_content = text;
    engagement_likes = likes;
    engagement_retweets = retweets;
    sentiment_label = label;
    conversation_id = conversation;
    source_created_at = created;
    captured_at = captured;
  })

-- compute_clean_text_hash
unfoldable pub compute_clean_text_hash : Builtins → TextTools → SocialMediaDocument → String
compute_clean_text_hash py tools d =
    let clean = tools.keep_alnum (tools.drop_links (tools.casefold d.text_content)) in
    tools.sha256_hex (if str_eq clean "" then py.strip (tools.casefold d.text_content) else clean)

-- _STOP_WORDS
abbrev pub stop_words : List String
stop_words = "this" ∷ "that" ∷ "with" ∷ "from" ∷ "they" ∷ "have" ∷ "your" ∷ "their" ∷ "about" ∷ []

unfoldable pub keep_words : TextTools → List String → List String
unfolding has_name
keep_words tools [] = []
keep_words tools (w ∷ rest) =
    let more = keep_words tools rest in
    if not (has_name w stop_words) && not (tools.is_decimal w) then w ∷ more else more

-- extract_keywords
unfoldable pub extract_keywords : TextTools → String → List String
unfolding keep_words
extract_keywords tools text = keep_words tools (tools.words (tools.casefold text))
