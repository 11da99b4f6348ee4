-- ===== src/Config/Tests.antt =====
-- Runs of kconf/config.go.
use kinz.Base.{ℕ, ◌≡◌, ◌⊎◌, refl, List, [], ◌∷◌, Option, none, some, pos, negsuc}
use kinz.Config.{
  Config, default, Key, kinz_name, kinz_host, kinz_port, kinz_max_conn, kinz_max_packet_size,
  kinz_worker_pool_size, kinz_max_worker_task_len, kinz_write_queue_size, kinz_write_timeout,
  parse_config, read_config, invalid, loaded, failed, content, read_error, digits, unsigned,
  parse_uint32, atoi, apply_var, apply_env, load,
}
use kinz.Config.Precedence.{Overrides, load_lem}
use kinz.Config.Failure.{Blamed, load-failed}

minus_twelve : atoi (b'-' ∷ b'1' ∷ b'2' ∷ []) ≡ some (negsuc 11)
unfolding atoi unsigned digits
minus_twelve = refl

not_a_number : parse_uint32 (b'-' ∷ b'1' ∷ []) ≡ none
unfolding parse_uint32 unsigned digits
not_a_number = refl

-- A variable for the port, of this text, and no others.
abbrev port_only : List ℕ → Key → Option (List ℕ)
port_only text kinz_name = none
port_only text kinz_host = none
port_only text kinz_port = some text
port_only text kinz_max_conn = none
port_only text kinz_max_packet_size = none
port_only text kinz_worker_pool_size = none
port_only text kinz_max_worker_task_len = none
port_only text kinz_write_queue_size = none
port_only text kinz_write_timeout = none

-- A duration is read as a number, and a file changes the limit and the port.
abbrev from_file : List ℕ → Config → Option Config
from_file text cfg = some (record cfg { max_conn = pos 7; port = pos 1 })

abbrev port_80 : Key → Option (List ℕ)
port_80 = port_only (b'8' ∷ b'0' ∷ [])

abbrev expected : Config
expected = record default { max_conn = pos 7; port = pos 80 }

expected-Overrides :
    Overrides atoi port_80 (record default { max_conn = pos 7; port = pos 1 }) expected
unfolding atoi unsigned digits
expected-Overrides = record {
  name_lem = refl;
  host_lem = refl;
  port_lem = refl;
  max_conn_lem = refl;
  max_packet_size_lem = refl;
  worker_pool_size_lem = refl;
  max_worker_task_len_lem = refl;
  write_queue_size_lem = refl;
  write_timeout_lem = refl;
}

load_lem_example : load atoi port_80 from_file (some (content [])) ≡ loaded expected
load_lem_example =
    load_lem atoi port_80 from_file (some (content []))
      (record default { max_conn = pos 7; port = pos 1 }) expected refl expected-Overrides

abbrev port_x : Key → Option (List ℕ)
port_x = port_only (b'x' ∷ [])

port_x_fails : load atoi port_x from_file none ≡ failed (invalid kinz_port (b'x' ∷ []))
unfolding load apply_env apply_var atoi unsigned digits default
port_x_fails = refl

load-failed_example :
    ((invalid kinz_port (b'x' ∷ []) ≡ read_config) × (none ≡ some read_error))
    ⊎ (((invalid kinz_port (b'x' ∷ []) ≡ parse_config)
          × (file_data : List ℕ) × (none ≡ some (content file_data))
          × (from_file file_data default ≡ none))
        ⊎ Blamed atoi port_x (invalid kinz_port (b'x' ∷ [])))
load-failed_example =
    load-failed atoi port_x from_file none (invalid kinz_port (b'x' ∷ [])) port_x_fails
