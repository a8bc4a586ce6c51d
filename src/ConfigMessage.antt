-- ===== src/ConfigMessage.antt =====
-- The messages of configs: controller/configset/proto/controller-config.go, and the conversions of
-- whole sets in controller/configset/proto/configset.go. Ids and encodings are lists of bytes.
pub mod Encoding
pub mod Json
pub mod Validity
mod Tests
use controllerbus.Common.{
  ℕ, Bool, true, false, ◌&&◌, ◌||◌, not, Option, none, some, List, [], ◌∷◌, ◌++◌, ◌==◌, is_empty,
  insert, if◌then◌else◌,
}

pub data Result (A : Type 0) : Type 0 where
  ok : A → Result A
  err : ℕ → Result A

infixl 5 ◌>>=◌
abbrev pub ◌>>=◌ : {A B : Type 0} → Result A → (A → Result B) → Result B
ok a >>= f = f a
err e >>= f = err e

-- ErrControllerConfigIdEmpty
abbrev pub err_id_empty : ℕ
err_id_empty = 1

-- The message ControllerConfig.
pub record ConfigMessage : Type 0 where
  pub id : List ℕ
  pub config : List ℕ
  pub rev : ℕ

-- Whether the bytes are taken for JSON: the first is a brace.
unfoldable pub is_json : List ℕ → Bool
is_json [] = false
is_json (b ∷ bs) = b == b'{'

-- What the code asks of the config objects and their types. `construct` is the object that the
-- constructor makes which the bus finds for an id.
pub record ConfigTypes (C : Type 0) : Type 0 where
  pub config_id : C → List ℕ
  pub marshal_json : C → Result (List ℕ)
  pub marshal_vt : C → Result (List ℕ)
  pub construct : List ℕ → Result C
  pub unmarshal_json : C → List ℕ → Result C
  pub unmarshal_vt : C → List ℕ → Result C

-- A config with its revision.
pub record ResolvedConfig (C : Type 0) : Type 0 where
  pub conf : C
  pub conf_rev : ℕ

module _ {C : Type 0} (t : ConfigTypes C) where
  unfoldable pub new_controller_config : Bool → ResolvedConfig C → Result ConfigMessage
  new_controller_config use_json c = do
    conf_data ← (if use_json then t.marshal_json c.conf else t.marshal_vt c.conf)
    ok (record { id = t.config_id c.conf; config = conf_data; rev = c.conf_rev })

  -- JSON or a protocol message; without any data the object stays as it was constructed.
  unfoldable pub parse_config : List ℕ → C → Result C
  unfolding is_json
  parse_config config_data cf =
      if is_empty config_data
      then ok cf
      else if is_json config_data
      then t.unmarshal_json cf config_data
      else t.unmarshal_vt cf config_data

  unfoldable pub resolve : ConfigMessage → Result (ResolvedConfig C)
  unfolding parse_config
  resolve m = if is_empty m.id then err err_id_empty else (do
    cf ← t.construct m.id
    parsed ← parse_config m.config cf
    ok (record { conf = parsed; conf_rev = m.rev }))

  unfoldable pub new_config_set_map :
      Bool → List (ℕ × ResolvedConfig C) → Result (List (ℕ × ConfigMessage))
  new_config_set_map use_json [] = ok []
  new_config_set_map use_json ((k, c) ∷ cs) = do
    m ← new_controller_config use_json c
    ms ← new_config_set_map use_json cs
    ok ((k, m) ∷ ms)

  unfoldable pub resolve_map : List (ℕ × ConfigMessage) → Result (List (ℕ × ResolvedConfig C))
  resolve_map [] = ok []
  resolve_map ((k, m) ∷ ms) = do c ← resolve m; cs ← resolve_map ms; ok ((k, c) ∷ cs)

  -- The message that ApplyConfig stores is returned too.
  unfoldable pub apply_config :
      ℕ
      → C
      → ℕ
      → Bool
      → List (ℕ × ConfigMessage)
      → Result (ConfigMessage × List (ℕ × ConfigMessage))
  apply_config id conf rev use_json set = do
    ctrl_conf ← new_controller_config use_json (record { conf = conf; conf_rev = rev })
    ok (ctrl_conf, insert id ctrl_conf set)

-- `parse_error` is the error that jsoniter.ParseBytes leaves in the iterator that it makes of the
-- bytes.
module _ (parse_error : List ℕ → Option ℕ) where
  unfoldable pub validate : ConfigMessage → Result Unit
  unfolding is_json
  validate m =
      if is_empty m.id
      then err err_id_empty
      else if is_json m.config
      then elim (parse_error m.config) [ some e ↦ err e | none ↦ ok tt ]
      else ok tt

  unfoldable pub validate_map : List (ℕ × ConfigMessage) → Result Unit
  validate_map [] = ok tt
  validate_map ((k, m) ∷ ms) = do _ ← validate m; validate_map ms

-- The keys of the JSON form, and the values that stand under them. `json_object` has the
-- text that stands raw from an open brace on: the writer does not look into it.
pub data JsonKey : Type 0 where
  key_id key_rev key_revision key_config : JsonKey
  key_other : ℕ → JsonKey

pub data JsonValue : Type 0 where
  json_string : List ℕ → JsonValue
  json_number : ℕ → JsonValue
  json_object : List ℕ → JsonValue
  json_null : JsonValue

-- What MarshalProtoJSON does: it writes fields, sets an error, or panics.
pub data Marshaled : Type 0 where
  written : List (JsonKey × JsonValue) → Marshaled
  marshal_error : ℕ → Marshaled
  marshal_panics : Marshaled

unfoldable pub last_byte : ℕ → List ℕ → ℕ
last_byte b [] = b
last_byte b (c ∷ cs) = last_byte c cs

unfoldable pub marshal_id : (JsonKey → Bool) → ConfigMessage → List (JsonKey × JsonValue)
marshal_id has_field m =
    if not (is_empty m.id) || has_field key_id then (key_id, json_string m.id) ∷ [] else []

unfoldable pub marshal_rev : (JsonKey → Bool) → ConfigMessage → List (JsonKey × JsonValue)
marshal_rev has_field m =
    if not (m.rev == 0) || has_field key_rev then (key_rev, json_number m.rev) ∷ [] else []

-- `parse_error` is the error that jsoniter.ParseBytes leaves in the iterator that it makes of the
-- bytes, and `encode` base64.
module _ (parse_error : List ℕ → Option ℕ) (encode : List ℕ → List ℕ) where
  unfoldable pub marshal_config : List ℕ → List (JsonKey × JsonValue) → Marshaled
  unfolding last_byte
  marshal_config [] fields = marshal_panics
  marshal_config (b ∷ bs) fields =
      if b == b'{' && last_byte b bs == b'}'
      then elim (parse_error (b ∷ bs)) [
        | some e ↦ marshal_error e
        | none ↦ written (fields ++ (key_config, json_object (b ∷ bs)) ∷ [])
      ]
      else written (fields ++ (key_config, json_string (encode (b ∷ bs))) ∷ [])

  unfoldable pub marshal_proto_json : (JsonKey → Bool) → ConfigMessage → Marshaled
  unfolding marshal_config marshal_id marshal_rev
  marshal_proto_json has_field m =
      if not (is_empty m.config) || has_field key_config
      then marshal_config m.config (marshal_id has_field m ++ marshal_rev has_field m)
      else written (marshal_id has_field m ++ marshal_rev has_field m)

-- ErrControllerConfigIdEmpty has its own code; this one is for a config value of another type.
abbrev pub err_json_type : ℕ
err_json_type = 2

-- How the state of the JSON reader reads a value as a string or a number, and base64's decoder.
-- `skip_and_return` is SkipAndReturnBytes at raw text: the object that it reads, or the error of the
-- text, also of what is left of it where the next field or the end is expected.
pub record JsonReader : Type 0 where
  pub read_string : JsonValue → Result (List ℕ)
  pub read_uint64 : JsonValue → Result ℕ
  pub decode : List ℕ → Result (List ℕ)
  pub skip_and_return : List ℕ → Result (List ℕ)

module _ (r : JsonReader) where
  unfoldable pub unmarshal_config : JsonValue → ConfigMessage → Result ConfigMessage
  unmarshal_config json_null m = ok m
  unmarshal_config (json_string text) m = do
    encoded ← r.read_string (json_string text)
    bytes ← r.decode encoded
    ok (record m { config = bytes })
  unmarshal_config (json_object text) m = do
    bytes ← r.skip_and_return text
    ok (record m { config = bytes })
  unmarshal_config (json_number n) m = err err_json_type

  unfoldable pub unmarshal_field : JsonKey → JsonValue → ConfigMessage → Result ConfigMessage
  unfolding unmarshal_config
  unmarshal_field key_id value m = do text ← r.read_string value; ok (record m { id = text })
  unmarshal_field key_rev value m = do n ← r.read_uint64 value; ok (record m { rev = n })
  unmarshal_field key_revision value m = do n ← r.read_uint64 value; ok (record m { rev = n })
  unmarshal_field key_config value m = unmarshal_config value m
  unmarshal_field (key_other k) value m = ok m

  -- The loop over the fields; no key is empty.
  unfoldable pub unmarshal_proto_json :
      List (JsonKey × JsonValue) → ConfigMessage → Result ConfigMessage
  unfolding unmarshal_field
  unmarshal_proto_json [] m = ok m
  unmarshal_proto_json ((key, value) ∷ fields) m = do
    m' ← unmarshal_field key value m
    unmarshal_proto_json fields m'
