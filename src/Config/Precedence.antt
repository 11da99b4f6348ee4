-- ===== src/Config/Precedence.antt =====
-- Which source of a setting wins in kconf/config.go.
use kinz.Base.{ℕ, ◌≡◌, refl, ap, sym, ◌∙◌, List, Option, none, some, some-inj, ℤ}
use kinz.Config.{
  Config, default, Key, kinz_name, kinz_host, kinz_port, kinz_max_conn, kinz_max_packet_size,
  kinz_worker_pool_size, kinz_max_worker_task_len, kinz_write_queue_size, kinz_write_timeout,
  Loaded, loaded, ReadFile, content, not_exist, read_error, parse_uint32, atoi, apply_var,
  apply_env, load,
}

-- A variable that is set wins over the value before; it must parse.
abbrev pub setting {ℓ} : {A : Type ℓ} → Option (List ℕ) → (List ℕ → Option A) → A → Option A
setting none parse before = some before
setting (some v) parse before = parse v

apply_var-set {ℓ} :
    {A : Type ℓ} (key : Key) (v : Option (List ℕ)) (parse : List ℕ → Option A)
    (assign : A → Config → Config) (before a : A) (cfg : Config)
    → setting v parse before ≡ some a
    → assign before cfg ≡ cfg
    → apply_var key v parse assign (loaded cfg) ≡ loaded (assign a cfg)
unfolding apply_var
apply_var-set key none parse assign before a cfg e same =
    ap loaded (sym same ∙ ap (λ x. assign x cfg) (some-inj e))
apply_var-set key (some v) parse assign before a cfg e same = rw (e, apply_var) refl

module _ (parse_duration : List ℕ → Option ℤ) (lookup_env : Key → Option (List ℕ)) where
  -- Each setting of `after` is that of its variable, or that of `before` if it is unset.
  pub record Overrides (before after : Config) : Type 0 where
    pub name_lem : setting (lookup_env kinz_name) some before.name ≡ some after.name
    pub host_lem : setting (lookup_env kinz_host) some before.host ≡ some after.host
    pub port_lem : setting (lookup_env kinz_port) atoi before.port ≡ some after.port
    pub max_conn_lem : setting (lookup_env kinz_max_conn) atoi before.max_conn ≡ some after.max_conn
    pub max_packet_size_lem :
        setting (lookup_env kinz_max_packet_size) parse_uint32 before.max_packet_size
        ≡ some after.max_packet_size
    pub worker_pool_size_lem :
        setting (lookup_env kinz_worker_pool_size) parse_uint32 before.worker_pool_size
        ≡ some after.worker_pool_size
    pub max_worker_task_len_lem :
        setting (lookup_env kinz_max_worker_task_len) parse_uint32 before.max_worker_task_len
        ≡ some after.max_worker_task_len
    pub write_queue_size_lem :
        setting (lookup_env kinz_write_queue_size) atoi before.write_queue_size
        ≡ some after.write_queue_size
    pub write_timeout_lem :
        setting (lookup_env kinz_write_timeout) parse_duration before.write_timeout
        ≡ some after.write_timeout

  abbrev step_name : Loaded → Loaded
  step_name = apply_var kinz_name (lookup_env kinz_name) some (λ v c. record c { name = v })

  abbrev step_host : Loaded → Loaded
  step_host = apply_var kinz_host (lookup_env kinz_host) some (λ v c. record c { host = v })

  abbrev step_port : Loaded → Loaded
  step_port = apply_var kinz_port (lookup_env kinz_port) atoi (λ v c. record c { port = v })

  abbrev step_max_conn : Loaded → Loaded
  step_max_conn =
      apply_var kinz_max_conn (lookup_env kinz_max_conn) atoi (λ v c. record c { max_conn = v })

  abbrev step_max_packet_size : Loaded → Loaded
  step_max_packet_size =
      apply_var kinz_max_packet_size (lookup_env kinz_max_packet_size) parse_uint32
        (λ v c. record c { max_packet_size = v })

  abbrev step_worker_pool_size : Loaded → Loaded
  step_worker_pool_size =
      apply_var kinz_worker_pool_size (lookup_env kinz_worker_pool_size) parse_uint32
        (λ v c. record c { worker_pool_size = v })

  abbrev step_max_worker_task_len : Loaded → Loaded
  step_max_worker_task_len =
      apply_var kinz_max_worker_task_len (lookup_env kinz_max_worker_task_len) parse_uint32
        (λ v c. record c { max_worker_task_len = v })

  abbrev step_write_queue_size : Loaded → Loaded
  step_write_queue_size =
      apply_var kinz_write_queue_size (lookup_env kinz_write_queue_size) atoi
        (λ v c. record c { write_queue_size = v })

  abbrev step_write_timeout : Loaded → Loaded
  step_write_timeout =
      apply_var kinz_write_timeout (lookup_env kinz_write_timeout) parse_duration
        (λ v c. record c { write_timeout = v })

  apply_env-Overrides :
      (before after : Config)
      → Overrides before after
      → apply_env parse_duration lookup_env before ≡ loaded after
  unfolding apply_env
  apply_env-Overrides before after o =
      ap
        (λ (l : Loaded). step_write_timeout (
          step_write_queue_size (
            step_max_worker_task_len (
              step_worker_pool_size
                (step_max_packet_size (step_max_conn (step_port (step_host l))))))))
        (apply_var-set kinz_name (lookup_env kinz_name) some (λ v c. record c { name = v })
          before.name after.name (before) o.name_lem refl)
      ∙ ap
          (λ (l : Loaded). step_write_timeout (
            step_write_queue_size (
              step_max_worker_task_len
                (step_worker_pool_size (step_max_packet_size (step_max_conn (step_port l)))))))
          (apply_var-set kinz_host (lookup_env kinz_host) some (λ v c. record c { host = v })
            before.host after.host (record before { name = after.name }) o.host_lem refl)
      ∙ ap
          (λ (l : Loaded). step_write_timeout (
            step_write_queue_size (
              step_max_worker_task_len
                (step_worker_pool_size (step_max_packet_size (step_max_conn l))))))
          (apply_var-set kinz_port (lookup_env kinz_port) atoi (λ v c. record c { port = v })
            before.port after.port (record before { name = after.name; host = after.host })
            o.port_lem refl)
      ∙ ap
          (λ (l : Loaded). step_write_timeout (
            step_write_queue_size
              (step_max_worker_task_len (step_worker_pool_size (step_max_packet_size l)))))
          (apply_var-set kinz_max_conn (lookup_env kinz_max_conn) atoi
            (λ v c. record c { max_conn = v }) before.max_conn after.max_conn
            (record before { name = after.name; host = after.host; port = after.port })
            o.max_conn_lem refl)
      ∙ ap
          (λ (l : Loaded).
            step_write_timeout
              (step_write_queue_size (step_max_worker_task_len (step_worker_pool_size l))))
          (apply_var-set kinz_max_packet_size (lookup_env kinz_max_packet_size) parse_uint32
            (λ v c. record c { max_packet_size = v }) before.max_packet_size after.max_packet_size
            (record before {
              name = after.name;
              host = after.host;
              port = after.port;
              max_conn = after.max_conn;
            })
            o.max_packet_size_lem refl)
      ∙ ap (λ (l : Loaded). step_write_timeout (step_write_queue_size (step_max_worker_task_len l)))
          (apply_var-set kinz_worker_pool_size (lookup_env kinz_worker_pool_size) parse_uint32
            (λ v c. record c { worker_pool_size = v }) before.worker_pool_size
            after.worker_pool_size
            (record before {
              name = after.name;
              host = after.host;
              port = after.port;
              max_conn = after.max_conn;
              max_packet_size = after.max_packet_size;
            })
            o.worker_pool_size_lem refl)
      ∙ ap (λ (l : Loaded). step_write_timeout (step_write_queue_size l))
          (apply_var-set kinz_max_worker_task_len (lookup_env kinz_max_worker_task_len) parse_uint32
            (λ v c. record c { max_worker_task_len = v }) before.max_worker_task_len
            after.max_worker_task_len
            (record before {
              name = after.name;
              host = after.host;
              port = after.port;
              max_conn = after.max_conn;
              max_packet_size = after.max_packet_size;
              worker_pool_size = after.worker_pool_size;
            })
            o.max_worker_task_len_lem refl)
      ∙ ap (λ (l : Loaded). step_write_timeout l)
          (apply_var-set kinz_write_queue_size (lookup_env kinz_write_queue_size) atoi
            (λ v c. record c { write_queue_size = v }) before.write_queue_size
            after.write_queue_size
            (record before {
              name = after.name;
              host = after.host;
              port = after.port;
              max_conn = after.max_conn;
              max_packet_size = after.max_packet_size;
              worker_pool_size = after.worker_pool_size;
              max_worker_task_len = after.max_worker_task_len;
            })
            o.write_queue_size_lem refl)
      ∙ apply_var-set kinz_write_timeout (lookup_env kinz_write_timeout) parse_duration
          (λ v c. record c { write_timeout = v }) before.write_timeout after.write_timeout
          (record before {
            name = after.name;
            host = after.host;
            port = after.port;
            max_conn = after.max_conn;
            max_packet_size = after.max_packet_size;
            worker_pool_size = after.worker_pool_size;
            max_worker_task_len = after.max_worker_task_len;
            write_queue_size = after.write_queue_size;
          })
          o.write_timeout_lem refl

  -- The configuration that the variables are applied to, if the file can be read.
  abbrev pub before_env : (List ℕ → Config → Option Config) → Option ReadFile → Option Config
  before_env unmarshal none = some default
  before_env unmarshal (some (content file_data)) = unmarshal file_data default
  before_env unmarshal (some not_exist) = some default
  before_env unmarshal (some read_error) = none

  -- Load succeeds if the file, when there is one, can be read and parsed, and every variable that is
  -- set parses. Then each setting is that of its variable; if that is not set, it is what the file
  -- makes of the defaults, or the default if there is no file.
  pub load_lem :
      (unmarshal : List ℕ → Config → Option Config) (file : Option ReadFile) (before after : Config)
      → before_env unmarshal file ≡ some before
      → Overrides before after
      → load parse_duration lookup_env unmarshal file ≡ loaded after
  unfolding load
  load_lem unmarshal none before after e o =
      ap (apply_env parse_duration lookup_env) (some-inj e) ∙ apply_env-Overrides before after o
  load_lem unmarshal (some (content file_data)) before after e o =
      rw (e, load) (apply_env-Overrides before after o)
  load_lem unmarshal (some not_exist) before after e o =
      ap (apply_env parse_duration lookup_env) (some-inj e) ∙ apply_env-Overrides before after o
  load_lem unmarshal (some read_error) before after e o = cc
