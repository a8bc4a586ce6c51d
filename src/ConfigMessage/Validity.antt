-- ===== src/ConfigMessage/Validity.antt =====
-- The check of messages, controller/configset/proto, and what the encoder makes.
use controllerbus.Common.{
  ℕ, Bool, true, false, Option, none, List, [], ◌∷◌, ◌≡◌, refl, inl, inr, Bool-cases, insert, ap,
  ◌==◌,
}
use controllerbus.ConfigMessage.{
  ok, ConfigMessage, ConfigTypes, ResolvedConfig, new_controller_config, new_config_set_map,
  apply_config, validate, validate_map,
}
use controllerbus.ConfigMessage.Encoding.{IsEncoding, bind-ok, ok-eq}

module _ {C : Type 0} (t : ConfigTypes C) (p : IsEncoding t) (parse_error : List ℕ → Option ℕ)
    (parsed : (c : C) (bytes : List ℕ)
      → t.marshal_json c ≡ ok bytes
      → parse_error bytes ≡ none) where
  made-valid :
      (use_json : Bool) (c : ResolvedConfig C) (m : ConfigMessage)
      → new_controller_config t use_json c ≡ ok m
      → validate parse_error m ≡ ok tt
  unfolding new_controller_config validate
  made-valid true c m e =
      let (bytes, made, same) = bind-ok (t.marshal_json c.conf) _ e in
      rw (← ok-eq same) (
        rw (p.id_given c.conf)
          (rw (p.json_brace c.conf bytes made) (rw (parsed c.conf bytes made) refl)))
  made-valid false c m e =
      let (bytes, made, same) = bind-ok (t.marshal_vt c.conf) _ e in
      rw (← ok-eq same) (rw (p.id_given c.conf) (rw (p.vt_no_brace c.conf bytes made) refl))

  -- What the encoder makes is valid.
  pub new_config_set_map-validate_map :
      (use_json : Bool) (set : List (ℕ × ResolvedConfig C)) (ms : List (ℕ × ConfigMessage))
      → new_config_set_map t use_json set ≡ ok ms
      → validate_map parse_error ms ≡ ok tt
  unfolding new_config_set_map validate_map
  new_config_set_map-validate_map use_json [] ms e = rw (← ok-eq e) refl
  new_config_set_map-validate_map use_json ((k, c) ∷ set) ms e =
      let (m, first, rest) = bind-ok (new_controller_config t use_json c) _ e in
      let (ms', others, same) = bind-ok (new_config_set_map t use_json set) _ rest in
      rw (← ok-eq same) (
        rw (made-valid use_json c m first)
          (new_config_set_map-validate_map use_json set ms' others))

  -- A set that is valid stays so when a config is stored in it.
  insert-valid :
      (k : ℕ) (m : ConfigMessage) (ms : List (ℕ × ConfigMessage))
      → validate parse_error m ≡ ok tt
      → validate_map parse_error ms ≡ ok tt
      → validate_map parse_error (insert k m ms) ≡ ok tt
  unfolding insert validate_map
  insert-valid k m [] good valid = rw good refl
  insert-valid k m ((j, n) ∷ ms) good valid =
      let (_, head, rest) = bind-ok (validate parse_error n) _ valid in
      elim (Bool-cases (j == k)) [
        | inl same ↦ rw same (rw good rest)
        | inr other ↦ rw other (rw head (insert-valid k m ms good rest))
      ]

  -- A set of messages that passes Validate passes it after ApplyConfig has stored the encoding
  -- of a config in it, where the encodings of the config types are as promised and the parser
  -- accepts the JSON of a config.
  pub apply_config-validate_map :
      (id : ℕ) (c : C) (rev : ℕ) (use_json : Bool) (ms ms' : List (ℕ × ConfigMessage))
      → (m : ConfigMessage) → validate_map parse_error ms ≡ ok tt
      → apply_config t id c rev use_json ms ≡ ok (m, ms')
      → validate_map parse_error ms' ≡ ok tt
  unfolding apply_config
  apply_config-validate_map id c rev use_json ms ms' m valid e =
      let (n, made, same) =
        bind-ok (new_controller_config t use_json (record { conf = c; conf_rev = rev })) _ e in
      rw (← ap (λ (q : ConfigMessage × List (ℕ × ConfigMessage)). q.1) (ok-eq same))
        (insert-valid id n ms (made-valid use_json _ n made) valid)
