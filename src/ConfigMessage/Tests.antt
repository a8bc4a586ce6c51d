-- ===== src/ConfigMessage/Tests.antt =====
-- Configs of one type, whose JSON is in braces and whose message is its number.
use controllerbus.Common.{
  ℕ, zero, suc, true, false, Option, none, some, List, [], ◌∷◌, ◌≡◌, refl, insert, ◌==◌,
  if◌then◌else◌, ◌&&◌, sym, subst,
}
use controllerbus.ConfigMessage.{
  Result, ok, err, ConfigMessage, ConfigTypes, ResolvedConfig, new_controller_config, apply_config,
  new_config_set_map, written, marshal_proto_json, last_byte, JsonKey, JsonValue, json_string,
  json_number, json_object, json_null, key_id, key_rev, key_config, JsonReader, resolve_map,
  validate_map, unmarshal_proto_json, is_json,
}
use controllerbus.ConfigMessage.Encoding.{IsEncoding, ok-eq, new_config_set_map-resolve_map}
use controllerbus.ConfigMessage.Json.{
  IsReader, empty_message, marshal_proto_json-unmarshal_proto_json,
}
use controllerbus.ConfigMessage.Validity.{
  new_config_set_map-validate_map, apply_config-validate_map,
}

-- A config is an amount; the message of none is empty, and any other begins with a tag.
unfoldable decode_json : List ℕ → Result ℕ
decode_json (b ∷ n ∷ rest) = ok n
decode_json (b ∷ []) = err 9
decode_json [] = err 9

unfoldable encode_vt : ℕ → List ℕ
encode_vt zero = []
encode_vt (suc n) = 8 ∷ suc n ∷ []

unfoldable decode_vt : ℕ → List ℕ → Result ℕ
decode_vt c [] = ok c
decode_vt c (tag ∷ n ∷ rest) = ok n
decode_vt c (tag ∷ []) = err 9

abbrev amounts : ConfigTypes ℕ
amounts = record {
  config_id = λ c. 7 ∷ [];
  marshal_json = λ c. ok (b'{' ∷ c ∷ b'}' ∷ []);
  marshal_vt = λ c. ok (encode_vt c);
  construct = λ id. ok 0;
  unmarshal_json = λ c bytes. decode_json bytes;
  unmarshal_vt = decode_vt;
}

json-back :
    (c : ℕ) (bytes : List ℕ) → ok (b'{' ∷ c ∷ b'}' ∷ []) ≡ ok bytes → decode_json bytes ≡ ok c
unfolding decode_json
json-back c bytes e = rw (← ok-eq e) refl

json-starts : (c : ℕ) (bytes : List ℕ) → ok (b'{' ∷ c ∷ b'}' ∷ []) ≡ ok bytes → is_json bytes ≡ true
unfolding is_json
json-starts c bytes e = rw (← ok-eq e) refl

vt-back : (c : ℕ) (bytes : List ℕ) → ok (encode_vt c) ≡ ok bytes → decode_vt 0 bytes ≡ ok c
unfolding encode_vt decode_vt
vt-back zero bytes e = rw (← ok-eq e) refl
vt-back (suc n) bytes e = rw (← ok-eq e) refl

vt-starts : (c : ℕ) (bytes : List ℕ) → ok (encode_vt c) ≡ ok bytes → is_json bytes ≡ false
unfolding encode_vt is_json
vt-starts zero bytes e = rw (← ok-eq e) refl
vt-starts (suc n) bytes e = rw (← ok-eq e) refl

vt-none : (c : ℕ) → decode_vt c [] ≡ ok c
unfolding decode_vt
vt-none c = refl

amounts-IsEncoding : IsEncoding amounts
amounts-IsEncoding = record {
  id_given = λ c. refl;
  new_object = λ c. 0;
  found = λ c. refl;
  json_decoded = json-back;
  json_brace = json-starts;
  vt_decoded = vt-back;
  vt_no_brace = vt-starts;
  vt_empty = vt-none;
}

abbrev two_amounts : List (ℕ × ResolvedConfig ℕ)
two_amounts = (1, record { conf = 0; conf_rev = 4 }) ∷ (2, record { conf = 3; conf_rev = 5 }) ∷ []

abbrev amount_message : List ℕ → ℕ → ConfigMessage
amount_message bytes r = record { id = 7 ∷ []; config = bytes; rev = r }

abbrev two_messages : List (ℕ × ConfigMessage)
two_messages = (1, amount_message [] 4) ∷ (2, amount_message (8 ∷ 3 ∷ []) 5) ∷ []

two-made : new_config_set_map amounts false two_amounts ≡ ok two_messages
unfolding new_config_set_map new_controller_config encode_vt
two-made = refl

new_config_set_map-resolve_map_example : resolve_map amounts two_messages ≡ ok two_amounts
new_config_set_map-resolve_map_example =
    new_config_set_map-resolve_map amounts amounts-IsEncoding false two_amounts two_messages
      two-made

-- The parser wants a closing brace.
unfoldable unclosed : List ℕ → Option ℕ
unfolding last_byte
unclosed [] = some 6
unclosed (b ∷ bs) = if last_byte b bs == b'}' then none else some 6

json-closed :
    (c : ℕ) (bytes : List ℕ) → ok (b'{' ∷ c ∷ b'}' ∷ []) ≡ ok bytes → unclosed bytes ≡ none
unfolding unclosed
json-closed c bytes e = rw (← ok-eq e) refl

-- The first config is replaced by an encoding as JSON.
abbrev other_messages : List (ℕ × ConfigMessage)
other_messages =
    (1, amount_message (b'{' ∷ 6 ∷ b'}' ∷ []) 8) ∷ (2, amount_message (8 ∷ 3 ∷ []) 5) ∷ []

two-valid : validate_map unclosed two_messages ≡ ok tt
two-valid =
    new_config_set_map-validate_map amounts amounts-IsEncoding unclosed json-closed false
      two_amounts two_messages two-made

config-applied :
    apply_config amounts 1 6 8 true two_messages
    ≡ ok (amount_message (b'{' ∷ 6 ∷ b'}' ∷ []) 8, other_messages)
unfolding apply_config new_controller_config insert
config-applied = refl

apply_config-validate_map_example : validate_map unclosed other_messages ≡ ok tt
apply_config-validate_map_example =
    apply_config-validate_map amounts amounts-IsEncoding unclosed json-closed 1 6 8 true
      two_messages other_messages (amount_message (b'{' ∷ 6 ∷ b'}' ∷ []) 8) two-valid config-applied

-- Reading and decoding that change nothing.
read_text : JsonValue → Result (List ℕ)
read_text (json_string text) = ok text
read_text (json_number n) = err 3
read_text (json_object bytes) = err 3
read_text json_null = ok []

read_number : JsonValue → Result ℕ
read_number (json_string text) = err 3
read_number (json_number n) = ok n
read_number (json_object bytes) = err 3
read_number json_null = ok 0

-- The only object that is read is the empty one.
read_empty_object : List ℕ → Result (List ℕ)
read_empty_object (b ∷ c ∷ []) = if b == b'{' && c == b'}' then ok (b ∷ c ∷ []) else err 4
read_empty_object text = err 4

IsEmptyObject : List ℕ → Type 0
IsEmptyObject text = text ≡ b'{' ∷ b'}' ∷ []

abbrev plain : JsonReader
plain = record {
  read_string = read_text;
  read_uint64 = read_number;
  decode = ok;
  skip_and_return = read_empty_object;
}

plain-IsReader : IsReader IsEmptyObject plain
unfolding read_text read_number read_empty_object IsEmptyObject
plain-IsReader = record {
  reads_string = λ text. refl;
  reads_uint64 = λ n. refl;
  reads_object = λ text e. subst (λ (l : List ℕ). read_empty_object l ≡ ok l) (sym e) refl;
}

abbrev fields : List (JsonKey × JsonValue)
fields =
    (key_id, json_string (7 ∷ []))
    ∷ (key_rev, json_number 5)
    ∷ (key_config, json_object (b'{' ∷ b'}' ∷ []))
    ∷ []

fields-written :
    marshal_proto_json unclosed (λ l. l) (λ k. false) (amount_message (b'{' ∷ b'}' ∷ []) 5)
    ≡ written fields
unfolding marshal_proto_json unclosed
fields-written = refl

empty_object : IsEmptyObject (b'{' ∷ b'}' ∷ [])
unfolding IsEmptyObject
empty_object = refl

marshal_proto_json-unmarshal_proto_json_example :
    unmarshal_proto_json plain fields empty_message ≡ ok (amount_message (b'{' ∷ b'}' ∷ []) 5)
marshal_proto_json-unmarshal_proto_json_example =
    marshal_proto_json-unmarshal_proto_json IsEmptyObject plain plain-IsReader unclosed (λ l. l)
      (λ bytes. refl) (λ k. false) (amount_message (b'{' ∷ b'}' ∷ []) 5) fields (λ e. empty_object)
      fields-written
