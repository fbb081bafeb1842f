-- ===== src/Message/Json.antt =====
-- `serde_json::Value` as msg3_parser.rs reads it, and `find_json_string`.
use qq_analyzer.Base.{[], Bool, if◌then◌else◌}
use qq_analyzer.Text.{Text, text_eq, trim}
use qq_analyzer.Text.Find.{or_text}

-- An object is the list of its entries, in the order in which the map yields them.
mutual
  pub data Json : Type 0 where
    null : Json
    boolean : Bool → Json
    number : Text → Json
    string : Text → Json
    array : JsonItems → Json
    object : JsonEntries → Json

  pub data JsonItems : Type 0 where
    no_items : JsonItems
    item : Json → JsonItems → JsonItems

  pub data JsonEntries : Type 0 where
    no_entries : JsonEntries
    entry : Text → Json → JsonEntries → JsonEntries

-- `if let Some(Value::String(text)) = map.get(key)`, and the text trimmed.
abbrev pub string_of : Json → Text
string_of (string text) = trim text
string_of _ = []

abbrev pub own_string : Text → JsonEntries → Text
own_string key no_entries = []
own_string key (entry k value more) =
    let rest = own_string key more in if text_eq k key then string_of value else rest

unfoldable mutual
  pub find_json_string : Json → Text → Text
  find_json_string (object entries) key =
      or_text (own_string key entries) (find_in_entries entries key)
  find_json_string (array items) key = find_in_items items key
  find_json_string _ key = []

  pub find_in_items : JsonItems → Text → Text
  find_in_items no_items key = []
  find_in_items (item child more) key =
      or_text (find_json_string child key) (find_in_items more key)

  pub find_in_entries : JsonEntries → Text → Text
  find_in_entries no_entries key = []
  find_in_entries (entry k child more) key =
      or_text (find_json_string child key) (find_in_entries more key)
