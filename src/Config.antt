-- ===== src/Config.antt =====
-- kconf/config.go: the configuration, from defaults, a YAML file and KINZ_* variables.
-- Strings are lists of bytes. The YAML library is a parameter: `unmarshal` gives the configuration
-- that it makes of the file and the one before, or fails. `time.ParseDuration` is one too, since
-- its fractions are floating-point numbers. `strconv.Atoi` and `strconv.ParseUint` are modelled.
-- The children: Numbers has the two parsers, Precedence which source of a value wins,
-- Failure why loading fails, Durations the YAML form of a duration.
pub mod Numbers
pub mod Precedence
pub mod Failure
pub mod Durations
mod Tests
use kinz.Base.{
  ℕ, zero, suc, ◌+◌, ◌-◌, ◌*◌, ◌^◌, ◌≡◌, Bool, true, false, ◌&&◌, List, [], ◌∷◌, Option, none, some,
  ℤ, pos, negsuc, ltb, leb, ◌==◌, if◌then◌else◌,
}

pub record Config : Type 0 where
  pub name : List ℕ
  pub host : List ℕ
  pub port : ℤ
  pub max_conn : ℤ
  pub max_packet_size : ℕ
  pub worker_pool_size : ℕ
  pub max_worker_task_len : ℕ
  pub write_queue_size : ℤ
  pub write_timeout : ℤ

unfoldable pub default : Config
default = record {
  name = b'K' ∷ b'i' ∷ b'n' ∷ b'z' ∷ b'S' ∷ b'e' ∷ b'r' ∷ b'v' ∷ b'e' ∷ b'r' ∷ [];
  host = b'0' ∷ b'.' ∷ b'0' ∷ b'.' ∷ b'0' ∷ b'.' ∷ b'0' ∷ [];
  port = pos 8999;
  max_conn = pos 1024;
  max_packet_size = 4096;
  worker_pool_size = 10;
  max_worker_task_len = 1024;
  write_queue_size = pos 256;
  write_timeout = pos 5000000000;
}

-- The variables, by the field that they set.
pub data Key : Type 0 where
  kinz_name kinz_host kinz_port kinz_max_conn kinz_max_packet_size kinz_worker_pool_size : Key
  kinz_max_worker_task_len kinz_write_queue_size kinz_write_timeout : Key

pub data ConfigError : Type 0 where
  parse_config read_config : ConfigError
  invalid : Key → List ℕ → ConfigError

pub data Loaded : Type 0 where
  loaded : Config → Loaded
  failed : ConfigError → Loaded

-- What `os.ReadFile` says.
pub data ReadFile : Type 0 where
  content : List ℕ → ReadFile
  not_exist read_error : ReadFile

unfoldable pub digits : List ℕ → ℕ → Option ℕ
digits [] n = some n
digits (c ∷ cs) n =
    let rest = digits cs (10 * n + (c - b'0')) in if leb b'0' c && leb c b'9' then rest else none

-- A number without a sign; the empty string is none.
unfoldable pub unsigned : List ℕ → Option ℕ
unfolding digits
unsigned [] = none
unsigned (c ∷ cs) = digits (c ∷ cs) 0

abbrev pub below : ℕ → Option ℕ → Option ℕ
below max none = none
below max (some n) = if ltb n max then some n else none

-- `strconv.ParseUint(v, 10, 32)`.
unfoldable pub parse_uint32 : List ℕ → Option ℕ
unfolding unsigned
parse_uint32 v = below (2 ^ 32) (unsigned v)

abbrev pub as_pos : Option ℕ → Option ℤ
as_pos none = none
as_pos (some n) = some (pos n)

abbrev pub as_neg : Option ℕ → Option ℤ
as_neg none = none
as_neg (some zero) = some (pos zero)
as_neg (some (suc n)) = some (negsuc n)

-- `strconv.Atoi`, of a 64-bit int.
unfoldable pub atoi : List ℕ → Option ℤ
unfolding unsigned
atoi [] = none
atoi (c ∷ cs) =
    let signed = as_neg (below (2 ^ 63 + 1) (unsigned cs)) in
    let positive = as_pos (below (2 ^ 63) (unsigned cs)) in
    let bare = as_pos (below (2 ^ 63) (unsigned (c ∷ cs))) in
    if c == b'-' then signed else if c == b'+' then positive else bare

-- One variable: unset, it changes nothing; set to what does not parse, it fails.
unfoldable pub apply_var {ℓ} :
    {A : Type ℓ}
    → Key
    → Option (List ℕ)
    → (List ℕ → Option A)
    → (A → Config → Config)
    → Loaded
    → Loaded
apply_var key v parse assign (failed e) = failed e
apply_var key none parse assign (loaded cfg) = loaded cfg
apply_var key (some v) parse assign (loaded cfg) = elim (parse v) [
  | none ↦ failed (invalid key v)
  | some a ↦ loaded (assign a cfg)
]

module _ (parse_duration : List ℕ → Option ℤ) (lookup_env : Key → Option (List ℕ)) where
  unfoldable pub apply_env : Config → Loaded
  unfolding apply_var parse_uint32 atoi
  apply_env cfg =
      let a =
        apply_var kinz_name (lookup_env kinz_name) some (λ v c. record c { name = v })
          (loaded cfg) in
      let b = apply_var kinz_host (lookup_env kinz_host) some (λ v c. record c { host = v }) a in
      let d = apply_var kinz_port (lookup_env kinz_port) atoi (λ v c. record c { port = v }) b in
      let e =
        apply_var kinz_max_conn (lookup_env kinz_max_conn) atoi (λ v c. record c { max_conn = v })
          d in
      let f =
        apply_var kinz_max_packet_size (lookup_env kinz_max_packet_size) parse_uint32
          (λ v c. record c { max_packet_size = v }) e in
      let g =
        apply_var kinz_worker_pool_size (lookup_env kinz_worker_pool_size) parse_uint32
          (λ v c. record c { worker_pool_size = v }) f in
      let h =
        apply_var kinz_max_worker_task_len (lookup_env kinz_max_worker_task_len) parse_uint32
          (λ v c. record c { max_worker_task_len = v }) g in
      let i =
        apply_var kinz_write_queue_size (lookup_env kinz_write_queue_size) atoi
          (λ v c. record c { write_queue_size = v }) h in
      apply_var kinz_write_timeout (lookup_env kinz_write_timeout) parse_duration
        (λ v c. record c { write_timeout = v }) i

  -- `Load`: `file` is none for the empty path.
  unfoldable pub load : (List ℕ → Config → Option Config) → Option ReadFile → Loaded
  unfolding apply_env default
  load unmarshal none = apply_env default
  load unmarshal (some (content file_data)) = elim (unmarshal file_data default) [
    | none ↦ failed parse_config
    | some cfg ↦ apply_env cfg
  ]
  load unmarshal (some not_exist) = apply_env default
  load unmarshal (some read_error) = failed read_config
