-- ===== src/Json.antt =====
-- JSON documents: the task payloads and the JSONB columns. Numbers are integers.
use xingestionv.Prelude.{ℕ, ℤ, pos, Bool, String}

mutual
  pub data Json : Type 0 where
    null : Json
    bool : Bool → Json
    int : ℤ → Json
    str : String → Json
    arr : Items → Json
    obj : Fields → Json

  pub data Items : Type 0 where
    nil : Items
    cons : Json → Items → Items

  pub data Fields : Type 0 where
    end : Fields
    field : String → Json → Fields → Fields

-- jsonb_build_object('task_id', id, 'generation', generation)
abbrev pub ready_payload : ℕ → ℕ → Fields
ready_payload task_id generation =
    field "task_id" (int (pos task_id)) (field "generation" (int (pos generation)) end)
