-- ===== src/Queue.antt =====
-- RedisStreamQueue of xingestion/control_plane.py, and the fields that publish_claimed of
-- xingestion/outbox.py sends. Redis enters by its answers, and the decoding of bytes is an argument.
pub mod RoundTrip
use xingestionv.Prelude.{
  ℕ, ℤ, Option, none, some, List, [], ◌∷◌, ◌++◌, String, str_eq, if◌then◌else◌, decimal,
}
use xingestionv.Schema.{Result, ok, err, ◌>>=◌, value_error, key_error}
use xingestionv.Capabilities.{Builtins}
use xingestionv.Outbox.{ClaimedOutboxEvent}

pub record StreamDelivery : Type 0 where
  pub message_id : String
  pub task_id : ℤ
  pub generation : ℤ

-- A value of an answer: a str, or bytes.
pub data Wire : Type 0 where
  text : String → Wire
  bytes : List ℕ → Wire

-- The number of an entry, and its fields in order.
abbrev pub Entry : Type 0
Entry = Wire × List (Wire × Wire)

-- The mapping that publish_claimed gives to XADD.
unfoldable pub entry_fields : ClaimedOutboxEvent → List (String × String)
entry_fields event =
    ("task_id", decimal event.task_id)
    ∷ ("generation", decimal event.generation)
    ∷ ("event_type", event.event_type)
    ∷ []

-- normalized[name], of a mapping whose later pairs replace the earlier ones
unfoldable pub last_value : String → List (String × String) → Option String
last_value name [] = none
last_value name ((n, v) ∷ rest) =
    let later = last_value name rest in
    elim later [ some w ↦ some w | none ↦ if str_eq n name then some v else none ]

abbrev pub item_of : String → List (String × String) → Result String
item_of name fields = elim (last_value name fields) [ none ↦ err key_error | some v ↦ ok v ]

-- int(normalized[name])
abbrev pub int_item : Builtins → String → List (String × String) → Result ℤ
int_item py name fields =
    item_of name fields
    >>= (λ v. elim (py.int_of_text v) [ none ↦ err value_error | some n ↦ ok n ])

module _ (py : Builtins) (decode : List ℕ → Option String) where
  -- text(value)
  unfoldable pub wire_text : Wire → Result String
  wire_text (text s) = ok s
  wire_text (bytes b) = elim (decode b) [ none ↦ err value_error | some s ↦ ok s ]

  -- {text(k): text(v) for k, v in fields.items()}
  unfoldable pub normalize : List (Wire × Wire) → Result (List (String × String))
  unfolding wire_text
  normalize [] = ok []
  normalize ((k, v) ∷ fields) = do
    name ← wire_text k
    value ← wire_text v
    rest ← normalize fields
    ok ((name, value) ∷ rest)

  -- _decode_delivery
  unfoldable pub decode_delivery : Entry → Result StreamDelivery
  unfolding normalize last_value
  decode_delivery (number, fields) = do
    normalized ← normalize fields
    message_id ← wire_text number
    task_id ← int_item py "task_id" normalized
    generation ← int_item py "generation" normalized
    ok (record { message_id = message_id; task_id = task_id; generation = generation })

  unfoldable pub decode_all : List Entry → Result (List StreamDelivery)
  unfolding decode_delivery
  decode_all [] = ok []
  decode_all (e ∷ entries) = do d ← decode_delivery e; rest ← decode_all entries; ok (d ∷ rest)

  -- read_new, on the answer to XREADGROUP: the entries of each stream
  unfoldable pub read_new : List (Wire × List Entry) → Result (List StreamDelivery)
  unfolding decode_all
  read_new [] = ok []
  read_new ((stream, messages) ∷ streams) = do
    here ← decode_all messages
    rest ← read_new streams
    ok (here ++ rest)

  -- reclaim, on the answer to XAUTOCLAIM: `none` where it is empty or has no second part
  unfoldable pub reclaim : Option (List Entry) → Result (List StreamDelivery)
  unfolding decode_all
  reclaim none = ok []
  reclaim (some messages) = decode_all messages
