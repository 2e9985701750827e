-- ===== src/Queue/RoundTrip.antt =====
-- About the fields that publish_claimed of xingestion/outbox.py sends and RedisStreamQueue decodes.
use xingestionv.Prelude.{ℕ, pos, ◌≡◌, refl, Option, some, List, [], ◌∷◌, String, decimal}
use xingestionv.Schema.{ok}
use xingestionv.Capabilities.{Builtins}
use xingestionv.Outbox.{ClaimedOutboxEvent}
use xingestionv.Queue.{Wire, entry_fields, last_value, wire_text, normalize, decode_delivery}

module _ (py : Builtins) (decode : List ℕ → Option String) where
  -- The answer of Redis stands for the texts, as texts or as bytes.
  pub data Stands : List (Wire × Wire) → List (String × String) → Type 0 where
    nothing : Stands [] []
    pair :
        {k v : Wire} {name value : String} {fields : List (Wire × Wire)}
        {texts : List (String × String)}
        → wire_text py decode k ≡ ok name
        → wire_text py decode v ≡ ok value
        → Stands fields texts
        → Stands ((k, v) ∷ fields) ((name, value) ∷ texts)

  normalize-Stands :
      {fields : List (Wire × Wire)} {texts : List (String × String)}
      → Stands fields texts
      → normalize py decode fields ≡ ok texts
  unfolding normalize
  normalize-Stands nothing = refl
  normalize-Stands (pair a b s) = rw (a, b, normalize-Stands s) refl

  -- An entry whose fields stand for those that publish_claimed sends is decoded to the number and
  -- the generation of the event, whatever its values were sent as, where `int` reads the digits of
  -- these numbers.
  pub decode_delivery-entry_fields :
      (event : ClaimedOutboxEvent) (number : Wire) (fields : List (Wire × Wire))
      (message_id : String)
      → wire_text py decode number ≡ ok message_id
      → Stands fields (entry_fields event)
      → py.int_of_text (decimal event.task_id) ≡ some (pos event.task_id)
      → py.int_of_text (decimal event.generation) ≡ some (pos event.generation)
      → decode_delivery py decode (number, fields)
        ≡ ok (record {
          message_id = message_id;
          task_id = pos event.task_id;
          generation = pos event.generation;
        })
  unfolding decode_delivery entry_fields last_value
  decode_delivery-entry_fields event number fields message_id n s t g =
      rw (normalize-Stands s, n, t, g) refl
