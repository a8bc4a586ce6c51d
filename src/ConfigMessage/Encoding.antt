-- ===== src/ConfigMessage/Encoding.antt =====
-- Configs that are encoded and resolved again: controller/configset/proto.
use controllerbus.Common.{ℕ, Bool, true, false, List, [], ◌∷◌, is_empty, ◌≡◌, refl, sym, ◌∙◌}
use controllerbus.ConfigMessage.{
  Result, ok, err, ◌>>=◌, ConfigMessage, ConfigTypes, ResolvedConfig, is_json,
  new_controller_config, parse_config, resolve, new_config_set_map, resolve_map,
}

-- What the encodings of the config types promise: a config's id is not empty and the bus finds its
-- type; what was encoded is decoded onto a new object; JSON begins with a brace and a protocol message
-- does not; decoding an empty message changes nothing.
pub record IsEncoding {C : Type 0} (t : ConfigTypes C) : Type 0 where
  pub id_given : (c : C) → is_empty (t.config_id c) ≡ false
  pub new_object : C → C
  pub found : (c : C) → t.construct (t.config_id c) ≡ ok (new_object c)
  pub json_decoded :
      (c : C) (bytes : List ℕ)
      → t.marshal_json c ≡ ok bytes
      → t.unmarshal_json (new_object c) bytes ≡ ok c
  pub json_brace : (c : C) (bytes : List ℕ) → t.marshal_json c ≡ ok bytes → is_json bytes ≡ true
  pub vt_decoded :
      (c : C) (bytes : List ℕ)
      → t.marshal_vt c ≡ ok bytes
      → t.unmarshal_vt (new_object c) bytes ≡ ok c
  pub vt_no_brace : (c : C) (bytes : List ℕ) → t.marshal_vt c ≡ ok bytes → is_json bytes ≡ false
  pub vt_empty : (c : C) → t.unmarshal_vt c [] ≡ ok c

-- The parts of a bind that succeeds.
pub bind-ok :
    {A B : Type 0} (r : Result A) (f : A → Result B) {b : B}
    → (r >>= f) ≡ ok b
    → (a : A) × (r ≡ ok a) × (f a ≡ ok b)
bind-ok (ok a) f e = (a, refl, e)
bind-ok (err x) f e = cc

false_true : {A : Type 0} → false ≡ true → A
false_true e = cc

pub ok-eq : {A : Type 0} {a b : A} → ok a ≡ ok b → a ≡ b
ok-eq e = cc

module _ {C : Type 0} (t : ConfigTypes C) (p : IsEncoding t) where
  json-parsed :
      (c : C) (bytes : List ℕ)
      → t.marshal_json c ≡ ok bytes
      → parse_config t bytes (p.new_object c) ≡ ok c
  unfolding parse_config is_json
  json-parsed c [] e = false_true (p.json_brace c [] e)
  json-parsed c (b ∷ bs) e = rw (p.json_brace c (b ∷ bs) e) (p.json_decoded c (b ∷ bs) e)

  vt-parsed :
      (c : C) (bytes : List ℕ)
      → t.marshal_vt c ≡ ok bytes
      → parse_config t bytes (p.new_object c) ≡ ok c
  unfolding parse_config is_json
  vt-parsed c [] e = sym (p.vt_empty (p.new_object c)) ∙ p.vt_decoded c [] e
  vt-parsed c (b ∷ bs) e = rw (p.vt_no_brace c (b ∷ bs) e) (p.vt_decoded c (b ∷ bs) e)

  resolved :
      (c : ResolvedConfig C) (m : ConfigMessage) (bytes : List ℕ)
      → ok (record { id = t.config_id c.conf; config = bytes; rev = c.conf_rev }) ≡ ok m
      → parse_config t bytes (p.new_object c.conf) ≡ ok c.conf
      → resolve t m ≡ ok c
  unfolding resolve
  resolved c m bytes same parsed =
      rw (← ok-eq same) (rw (p.id_given c.conf) (rw (p.found c.conf) (rw parsed refl)))

  encoded :
      (use_json : Bool) (c : ResolvedConfig C) (m : ConfigMessage)
      → new_controller_config t use_json c ≡ ok m
      → resolve t m ≡ ok c
  unfolding new_controller_config
  encoded true c m e =
      let (bytes, made, same) = bind-ok (t.marshal_json c.conf) _ e in
      resolved c m bytes same (json-parsed c.conf bytes made)
  encoded false c m e =
      let (bytes, made, same) = bind-ok (t.marshal_vt c.conf) _ e in
      resolved c m bytes same (vt-parsed c.conf bytes made)

  -- A set of configs that is encoded without an error, each as JSON or each as a message, is
  -- resolved to the same configs and revisions, where the encodings of the config types are
  -- decoded and the bus finds the types.
  pub new_config_set_map-resolve_map :
      (use_json : Bool) (set : List (ℕ × ResolvedConfig C)) (ms : List (ℕ × ConfigMessage))
      → new_config_set_map t use_json set ≡ ok ms
      → resolve_map t ms ≡ ok set
  unfolding new_config_set_map resolve_map
  new_config_set_map-resolve_map use_json [] ms e = rw (← ok-eq e) refl
  new_config_set_map-resolve_map use_json ((k, c) ∷ set) ms e =
      let (m, first, rest) = bind-ok (new_controller_config t use_json c) _ e in
      let (ms', others, same) = bind-ok (new_config_set_map t use_json set) _ rest in
      rw (← ok-eq same) (
        rw (encoded use_json c m first)
          (rw (new_config_set_map-resolve_map use_json set ms' others) refl))
