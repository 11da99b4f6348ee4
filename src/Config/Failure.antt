-- ===== src/Config/Failure.antt =====
-- Why `Load` of kconf/config.go fails.
use kinz.Base.{ℕ, ◌≡◌, refl, List, Option, Option-cases, none, some, ℤ, ◌⊎◌, inl, inr, arith}
use kinz.Config.{
  Config, default, Key, kinz_name, kinz_host, kinz_port, kinz_max_conn, kinz_max_packet_size,
  kinz_worker_pool_size, kinz_max_worker_task_len, kinz_write_queue_size, kinz_write_timeout,
  ConfigError, parse_config, read_config, invalid, Loaded, loaded, failed, ReadFile, content,
  not_exist, read_error, parse_uint32, atoi, apply_var, apply_env, load,
}

apply_var-failed {ℓ} :
    {A : Type ℓ} (key : Key) (v : Option (List ℕ)) (parse : List ℕ → Option A)
    (assign : A → Config → Config) (l : Loaded) (e : ConfigError)
    → apply_var key v parse assign l ≡ failed e
    → (l ≡ failed e) ⊎ ((w : List ℕ) × (v ≡ some w) × (parse w ≡ none) × (e ≡ invalid key w))
unfolding apply_var
apply_var-failed key v parse assign (failed x) e h = inl h
apply_var-failed key none parse assign (loaded cfg) e h = inl h
apply_var-failed key (some w) parse assign (loaded cfg) e h = elim (Option-cases (parse w)) [
  | inl p ↦ inr (w, refl, p, ground (arith, h, p))
  | inr (a, p) ↦ ground (arith, h, p)
]

module _ (parse_duration : List ℕ → Option ℤ) (lookup_env : Key → Option (List ℕ)) where
  -- A value that the variable may not have; a name and a host may be anything.
  abbrev pub Unreadable : Key → List ℕ → Type 0
  Unreadable kinz_name v = some v ≡ none
  Unreadable kinz_host v = some v ≡ none
  Unreadable kinz_port v = atoi v ≡ none
  Unreadable kinz_max_conn v = atoi v ≡ none
  Unreadable kinz_max_packet_size v = parse_uint32 v ≡ none
  Unreadable kinz_worker_pool_size v = parse_uint32 v ≡ none
  Unreadable kinz_max_worker_task_len v = parse_uint32 v ≡ none
  Unreadable kinz_write_queue_size v = atoi v ≡ none
  Unreadable kinz_write_timeout v = parse_duration v ≡ none

  -- A variable is to blame: it is set, and its value does not parse.
  pub record Blamed (e : ConfigError) : Type 0 where
    pub key : Key
    pub value : List ℕ
    pub error_lem : e ≡ invalid key value
    pub is_set : lookup_env key ≡ some value
    pub unreadable : Unreadable key value

  or_blame {ℓ} :
      {A : Type ℓ} (key : Key) (parse : List ℕ → Option A) (assign : A → Config → Config)
      (l : Loaded) (e : ConfigError)
      → ((w : List ℕ) → parse w ≡ none → Unreadable key w)
      → (l ≡ failed e → Blamed e)
      → apply_var key (lookup_env key) parse assign l ≡ failed e
      → Blamed e
  or_blame key parse assign l e bad before h =
      elim (apply_var-failed key (lookup_env key) parse assign l e h) [
        | inl earlier ↦ before earlier
        | inr (w, is, p, err) ↦ record {
          key = key;
          value = w;
          error_lem = err;
          is_set = is;
          unreadable = bad w p;
        }
      ]

  loaded_not_failed : {cfg : Config} {e : ConfigError} → loaded cfg ≡ failed e → Blamed e
  loaded_not_failed h = cc

  apply_env-failed :
      (cfg : Config) (e : ConfigError)
      → apply_env parse_duration lookup_env cfg ≡ failed e
      → Blamed e
  unfolding apply_env
  apply_env-failed cfg e =
      or_blame kinz_write_timeout parse_duration (λ v c. record c { write_timeout = v }) _ e
        (λ w p. p)
        (or_blame kinz_write_queue_size atoi (λ v c. record c { write_queue_size = v }) _ e
          (λ w p. p)
          (or_blame kinz_max_worker_task_len parse_uint32
            (λ v c. record c { max_worker_task_len = v }) _ e (λ w p. p)
            (or_blame kinz_worker_pool_size parse_uint32 (λ v c. record c { worker_pool_size = v })
              _ e (λ w p. p)
              (or_blame kinz_max_packet_size parse_uint32 (λ v c. record c { max_packet_size = v })
                _ e (λ w p. p)
                (or_blame kinz_max_conn atoi (λ v c. record c { max_conn = v }) _ e (λ w p. p)
                  (or_blame kinz_port atoi (λ v c. record c { port = v }) _ e (λ w p. p)
                    (or_blame kinz_host some (λ v c. record c { host = v }) _ e (λ w p. p)
                      (or_blame kinz_name some (λ v c. record c { name = v }) (loaded cfg) e
                        (λ w p. p) (λ h. loaded_not_failed h)))))))))

  -- Load fails only for a reason: the file is there and cannot be read, or cannot be parsed, or a
  -- variable is set to a value that does not parse, and then the error names that variable and the
  -- value. A file that does not exist is none.
  pub load-failed :
      (unmarshal : List ℕ → Config → Option Config) (file : Option ReadFile) (e : ConfigError)
      → load parse_duration lookup_env unmarshal file ≡ failed e
      → ((e ≡ read_config) × (file ≡ some read_error))
        ⊎ (((e ≡ parse_config)
              × (file_data : List ℕ) × (file ≡ some (content file_data))
              × (unmarshal file_data default ≡ none))
            ⊎ Blamed e)
  unfolding load
  load-failed unmarshal none e h = inr (inr (apply_env-failed default e h))
  load-failed unmarshal (some (content file_data)) e h = by_parse (unmarshal file_data default) refl
    where
      by_parse :
          (o : Option Config)
          → unmarshal file_data default ≡ o
          → ((e ≡ read_config) × (some (content file_data) ≡ some read_error))
            ⊎ (((e ≡ parse_config)
                  × (d : List ℕ) × (some (content file_data) ≡ some (content d))
                  × (unmarshal d default ≡ none))
                ⊎ Blamed e)
      by_parse none p = inr (inl (ground (arith, h, p), file_data, refl, p))
      by_parse (some cfg) p = inr (inr (apply_env-failed cfg e (ground (arith, h, p))))
  load-failed unmarshal (some not_exist) e h = inr (inr (apply_env-failed default e h))
  load-failed unmarshal (some read_error) e h = inl (ground (arith, h), refl)
