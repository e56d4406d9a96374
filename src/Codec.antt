-- ===== src/Codec.antt =====
-- src/pybus/_codec.py and src/pybus/serializer.py: the values of a payload and their wire form.
-- A date or time object is a constructor of its own; its ISO text and the JSON text of a value are
-- the standard library's, and enter as the parameter `Stdlib`.
pub mod Dict
use pybus.Prelude.{Bool, Option, String, if◌then◌else◌, is_some, some, ℕ}
use pybus.Prelude.Int.{pos, ℤ}

-- A wall-clock reading in microseconds, with the UTC offset in minutes if it is aware.
pub record DateTime : Type 0 where
  pub wall : ℕ
  pub offset : Option ℤ

mutual
  -- What a payload or a header may hold. `real` is a float, by its JSON literal.
  pub data Value : Type 0 where
    null : Value
    bool : Bool → Value
    int : ℤ → Value
    real : String → Value
    text : String → Value
    datetime : DateTime → Value
    date : ℕ → Value
    time : DateTime → Value
    uuid : ℕ → Value
    list : Items → Value
    tuple : Items → Value
    dict : Fields → Value

  pub data Items : Type 0 where
    nil : Items
    cons : Value → Items → Items

  pub data Fields : Type 0 where
    end : Fields
    field : String → Value → Fields → Fields

-- `isoformat`, `fromisoformat`, `str(UUID)`, `UUID(text)`, `json.dumps` and `int(text)`; `none` is a
-- ValueError.
pub record Stdlib : Type 0 where
  pub datetime_text : DateTime → String
  pub date_text : ℕ → String
  pub time_text : DateTime → String
  pub uuid_text : ℕ → String
  pub parse_datetime : String → Option DateTime
  pub parse_date : String → Option ℕ
  pub parse_time : String → Option DateTime
  pub parse_uuid : String → Option ℕ
  pub json_dumps : Value → Option String
  pub parse_int : String → Option ℤ

abbrev pub type_key : String
type_key = "__pybus_type__"

abbrev pub value_key : String
value_key = "value"

-- `{_TYPE_KEY: kind, _VALUE_KEY: body}`
abbrev pub tagged : String → String → Value
tagged kind body = dict (field type_key (text kind) (field value_key (text body) end))

-- `value.replace(tzinfo=timezone.utc)` on a naive value
abbrev pub assume_utc : DateTime → DateTime
assume_utc d = if is_some d.offset then d else record d { offset = some (pos 0) }

module _ (lib : Stdlib) where
  unfoldable mutual
    pub encode_value : Value → Value
    encode_value (datetime d) = tagged "datetime" (lib.datetime_text (assume_utc d))
    encode_value (date d) = tagged "date" (lib.date_text d)
    encode_value (time t) = tagged "time" (lib.time_text t)
    encode_value (uuid u) = tagged "uuid" (lib.uuid_text u)
    encode_value (dict fields) = dict (encode_fields fields)
    encode_value (list items) = list (encode_items items)
    encode_value (tuple items) = list (encode_items items)
    encode_value (null) = null
    encode_value (bool b) = bool b
    encode_value (int n) = int n
    encode_value (real r) = real r
    encode_value (text s) = text s

    pub encode_items : Items → Items
    encode_items nil = nil
    encode_items (cons v rest) = cons (encode_value v) (encode_items rest)

    pub encode_fields : Fields → Fields
    encode_fields end = end
    encode_fields (field key v rest) = field key (encode_value v) (encode_fields rest)

  -- `JsonSerializer.dumps`; `none` is a SerializationError.
  unfoldable pub dumps : Value → Option String
  dumps v = lib.json_dumps (encode_value v)
