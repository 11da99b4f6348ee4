-- ===== src/Config/Durations.antt =====
-- `Duration.UnmarshalYAML` of kconf/config.go.
-- What `node.Decode` gives is an argument: `none` where it fails.
use kinz.Base.{◌≡◌, refl, List, ℕ, ℤ, Option, none, some}
use kinz.Config.{Config, Loaded, loaded, failed, invalid, kinz_write_timeout, apply_var}

pub data RawValue : Type 0 where
  int_value : ℤ → RawValue
  string_value : List ℕ → RawValue
  other_value : RawValue

pub data DurationError : Type 0 where
  decode_error invalid_value : DurationError
  invalid_duration : List ℕ → DurationError

-- The duration, or an error that leaves it as it was.
pub data Unmarshalled : Type 0 where
  assigned : ℤ → Unmarshalled
  refused : DurationError → Unmarshalled

module _ (parse_duration : List ℕ → Option ℤ) where
  abbrev pub parsed_or : List ℕ → Option ℤ → Unmarshalled
  parsed_or v none = refused (invalid_duration v)
  parsed_or v (some d) = assigned d

  unfoldable pub unmarshal_yaml : Option RawValue → Unmarshalled
  unmarshal_yaml none = refused decode_error
  unmarshal_yaml (some (int_value n)) = assigned n
  unmarshal_yaml (some (string_value v)) = parsed_or v (parse_duration v)
  unmarshal_yaml (some other_value) = refused invalid_value

  -- What a text in the file is to the setting, if it is what the variable KINZ_WRITETIMEOUT makes
  -- of the same text.
  abbrev pub as_setting : Config → List ℕ → Unmarshalled → Loaded
  as_setting cfg v (assigned d) = loaded (record cfg { write_timeout = d })
  as_setting cfg v (refused e) = failed (invalid kinz_write_timeout v)

  -- A text is the same duration, or none, in the file and in the variable.
  pub unmarshal_yaml-apply_var :
      (cfg : Config) (v : List ℕ)
      → as_setting cfg v (unmarshal_yaml (some (string_value v)))
        ≡ apply_var kinz_write_timeout
            (some v)
            parse_duration
            (λ d c. record c { write_timeout = d })
            (loaded cfg)
  unfolding unmarshal_yaml apply_var
  unmarshal_yaml-apply_var cfg v = by_parse (parse_duration v)
    where
      by_parse :
          (o : Option ℤ)
          → as_setting cfg v (parsed_or v o) ≡ elim o as (λ _. Loaded) [
            | none ↦ failed (invalid kinz_write_timeout v)
            | some d ↦ loaded (record cfg { write_timeout = d })
          ]
      by_parse none = refl
      by_parse (some d) = refl
