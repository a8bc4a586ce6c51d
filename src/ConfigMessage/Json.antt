-- ===== src/ConfigMessage/Json.antt =====
-- The JSON form of a config's message, written and read: controller/configset/proto/controller-config.go.
use controllerbus.Common.{
  ℕ, Bool, true, false, ◌&&◌, ◌||◌, not, Option, List, [], ◌∷◌, ◌++◌, ◌==◌, is_empty, if◌then◌else◌,
  ◌≡◌, refl, sym, ap, ◌∙◌, inl, inr, Bool-cases, Option-cases, arith,
}
use controllerbus.ConfigMessage.{
  Result, ok, err, ◌>>=◌, ConfigMessage, JsonKey, key_id, key_rev, key_config, JsonValue,
  json_string, json_number, json_object, written, marshal_error, marshal_panics, last_byte,
  marshal_config, marshal_id, marshal_rev, marshal_proto_json, JsonReader, unmarshal_field,
  unmarshal_proto_json,
}

-- The message before anything is read.
abbrev pub empty_message : ConfigMessage
empty_message = record { id = []; config = []; rev = 0 }

written-eq : {xs ys : List (JsonKey × JsonValue)} → written xs ≡ written ys → xs ≡ ys
written-eq e = cc

no-fields :
    {C : Type 0} {e : ℕ} {ys : List (JsonKey × JsonValue)} → marshal_error e ≡ written ys → C
no-fields e = cc

no-panic : {C : Type 0} {ys : List (JsonKey × JsonValue)} → marshal_panics ≡ written ys → C
no-panic e = cc

bind-bind :
    {A B C : Type 0} (r : Result A) (f : A → Result C) (g : A → Result B) (h : B → Result C)
    → ((a : A) → f a ≡ (g a >>= h))
    → (r >>= f) ≡ ((r >>= g) >>= h)
bind-bind (ok a) f g h e = e a
bind-bind (err x) f g h e = refl

hidden_zero : (n : ℕ) (b : Bool) → (not (n == 0) || b) ≡ false → n ≡ 0
hidden_zero n b h = ground arith

-- Whether the bytes are written as they are: the first and the last are braces.
abbrev pub raw_form : List ℕ → Bool
raw_form [] = false
raw_form (b ∷ bs) = b == b'{' && last_byte b bs == b'}'

-- What is promised of the reader: a string and a number are read as they are, and so is a text that
-- is one JSON object.
pub record IsReader (IsObject : List ℕ → Type 0) (r : JsonReader) : Type 0 where
  pub reads_string : (text : List ℕ) → r.read_string (json_string text) ≡ ok text
  pub reads_uint64 : (n : ℕ) → r.read_uint64 (json_number n) ≡ ok n
  pub reads_object : (text : List ℕ) → IsObject text → r.skip_and_return text ≡ ok text

module _ (IsObject : List ℕ → Type 0) (r : JsonReader) (p : IsReader IsObject r) where
  unmarshal-append :
      (xs ys : List (JsonKey × JsonValue)) (m : ConfigMessage)
      → unmarshal_proto_json r (xs ++ ys) m
        ≡ (unmarshal_proto_json r xs m >>= unmarshal_proto_json r ys)
  unfolding unmarshal_proto_json
  unmarshal-append [] ys m = refl
  unmarshal-append ((key, value) ∷ xs) ys m =
      bind-bind (unmarshal_field r key value m) _ _ _ (λ m'. unmarshal-append xs ys m')

  id-read :
      (id : List ℕ) (b : Bool)
      → unmarshal_proto_json r
          (if not (is_empty id) || b then (key_id, json_string id) ∷ [] else [])
          empty_message
        ≡ ok (record empty_message { id = id })
  unfolding unmarshal_proto_json
  id-read [] true = rw (p.reads_string []) refl
  id-read [] false = refl
  id-read (c ∷ cs) b = rw (p.reads_string (c ∷ cs)) refl

  rev-read :
      (id : List ℕ) (rev : ℕ) (b : Bool)
      → unmarshal_proto_json r
          (if not (rev == 0) || b then (key_rev, json_number rev) ∷ [] else [])
          (record empty_message { id = id })
        ≡ ok (record { id = id; config = []; rev = rev })
  unfolding unmarshal_proto_json
  rev-read id rev b = elim (Bool-cases (not (rev == 0) || b)) [
    | inl shown ↦ rw shown (rw (p.reads_uint64 rev) refl)
    | inr hidden ↦
        let with_rev : ℕ → ConfigMessage = λ n. record { id = id; config = []; rev = n } in
        rw hidden (ap (λ (n : ℕ). ok (with_rev n)) (sym (hidden_zero rev b hidden)))
  ]

  id_rev-read :
      (has_field : JsonKey → Bool) (m : ConfigMessage)
      → unmarshal_proto_json r (marshal_id has_field m ++ marshal_rev has_field m) empty_message
        ≡ ok (record m { config = [] })
  unfolding marshal_id marshal_rev
  id_rev-read has_field m =
      unmarshal-append (marshal_id has_field m) (marshal_rev has_field m) empty_message
      ∙ ap
          (λ (res : Result ConfigMessage). res >>= unmarshal_proto_json r (marshal_rev has_field m))
          (id-read m.id (has_field key_id))
      ∙ rev-read m.id m.rev (has_field key_rev)

  -- The config is read after the fields before it.
  config-last :
      (value : JsonValue) (config : List ℕ) (before : List (JsonKey × JsonValue))
      → (m : ConfigMessage)
      → unmarshal_proto_json r before empty_message ≡ ok (record m { config = [] })
      → unmarshal_proto_json r ((key_config, value) ∷ []) (record m { config = [] })
        ≡ ok (record m { config = config })
      → unmarshal_proto_json r (before ++ (key_config, value) ∷ []) empty_message
        ≡ ok (record m { config = config })
  config-last value config before m read last =
      unmarshal-append before ((key_config, value) ∷ []) empty_message
      ∙ ap
          (λ (res : Result ConfigMessage).
            res >>= unmarshal_proto_json r ((key_config, value) ∷ []))
          read
      ∙ last

  module _ (parse_error : List ℕ → Option ℕ) (encode : List ℕ → List ℕ)
      (decodes : (bytes : List ℕ) → r.decode (encode bytes) ≡ ok bytes) where
    config-read :
        (config : List ℕ) (before fields : List (JsonKey × JsonValue)) (m : ConfigMessage)
        → unmarshal_proto_json r before empty_message ≡ ok (record m { config = [] })
        → (raw_form config ≡ true → IsObject config)
        → marshal_config parse_error encode config before ≡ written fields
        → unmarshal_proto_json r fields empty_message ≡ ok (record m { config = config })
    unfolding marshal_config unmarshal_proto_json
    config-read [] before fields m read object e = no-panic e
    config-read (b ∷ bs) before fields m read object e =
        elim (Bool-cases (b == b'{' && last_byte b bs == b'}')) [
          | inr text ↦ rw (← written-eq (rw text at e)) (
              config-last (json_string (encode (b ∷ bs))) (b ∷ bs) before m read
                (rw (p.reads_string (encode (b ∷ bs))) (rw (decodes (b ∷ bs)) refl)))
          | inl braces ↦ elim (Option-cases (parse_error (b ∷ bs))) [
            | inr (x, bad) ↦ no-fields (rw bad at (rw braces at e))
            | inl good ↦ rw (← written-eq (rw good at (rw braces at e))) (
                config-last (json_object (b ∷ bs)) (b ∷ bs) before m read
                  (rw (p.reads_object (b ∷ bs) (object braces)) refl))
          ]
        ]

    hidden_empty : (config : List ℕ) (b : Bool) → (not (is_empty config) || b) ≡ false → config ≡ []
    hidden_empty [] b h = refl
    hidden_empty (c ∷ cs) b h = cc

    -- A config's message that is written as JSON, without an error or a panic, is read back as
    -- it was, whichever fields are asked for and whether its config is JSON or not, where a
    -- config whose first and last bytes are braces is one JSON object, base64 is decoded, and
    -- strings, numbers and an object's text are read as they are.
    pub marshal_proto_json-unmarshal_proto_json :
        (has_field : JsonKey → Bool) (m : ConfigMessage) (fields : List (JsonKey × JsonValue))
        → (raw_form m.config ≡ true → IsObject m.config)
        → marshal_proto_json parse_error encode has_field m ≡ written fields
        → unmarshal_proto_json r fields empty_message ≡ ok m
    unfolding marshal_proto_json
    marshal_proto_json-unmarshal_proto_json has_field m fields object e =
        let read = id_rev-read has_field m in
        elim (Bool-cases (not (is_empty m.config) || has_field key_config)) [
          | inl shown ↦ config-read m.config _ fields m read object (rw shown at e)
          | inr hidden ↦
              let with_config : List ℕ → ConfigMessage = λ l. record m { config = l } in
              rw (← written-eq (rw hidden at e)) read
              ∙ ap (λ (l : List ℕ). ok (with_config l))
                  (sym (hidden_empty m.config (has_field key_config) hidden))
        ]
