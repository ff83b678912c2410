-- ===== src/Model/Documents.antt =====
-- What `json.Unmarshal` stores in an `interface{}`. The entries of an object have distinct names.
use shieldgate.Base.{Bool, Text}

mutual
  pub data Json : Type 0 where
    json_null : Json
    json_bool : Bool → Json
    json_number json_string : Text → Json
    json_array : Items → Json
    json_object : Entries → Json

  pub data Items : Type 0 where
    no_items : Items
    item : Json → Items → Items

  pub data Entries : Type 0 where
    no_entries : Entries
    entry : Text → Json → Entries → Entries
