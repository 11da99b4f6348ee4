-- ===== src/Server/Setup.antt =====
-- `NewServer` of knet/server.go and its options: which configuration a server uses, and whom its
-- options change.
-- A configuration is known by its place in the store, which the options write to through the
-- server's pointer. A pointer that WithConfig is given points into the store.
pub mod Sharing
use kinz.Base.{
  ℕ, zero, suc, ◌+◌, Bool, List, [], ◌∷◌, ◌++◌, Option, none, some, ℤ, length, get_or, set,
}
use kinz.Codec.{TlvPack, new_tlv_pack_with_order, little_endian}
use kinz.ConnManager.{ConnManager, new_conn_manager}
use kinz.Pool.{Pool, new_pool}
use kinz.Config.{Config, default}

abbrev pub Store : Type 0
Store = List Config

pub data ServerOption : Type 0 where
  with_config : ℕ → ServerOption
  with_max_conn : ℤ → ServerOption
  with_name : List ℕ → ServerOption
  with_tls : ℕ → ServerOption

-- The fields that NewServer sets; a TLS configuration is a number.
pub record Made : Type 0 where
  pub cfg : ℕ
  pub tls_config : Option ℕ
  pub conn_mgr : ConnManager ℕ
  pub pool : Pool
  pub codec : TlvPack

-- A server under construction: its pointer and its TLS configuration.
pub record Draft : Type 0 where
  pub cfg : ℕ
  pub tls_config : Option ℕ

abbrev pub config_at : Store → ℕ → Config
config_at store p = get_or store p default

abbrev pub apply_option : ServerOption → Store → Draft → Store × Draft
apply_option (with_config p) store s = (store, record s { cfg = p })
apply_option (with_max_conn n) store s =
    (set store s.cfg (record (config_at store s.cfg) { max_conn = n }), s)
apply_option (with_name name) store s =
    (set store s.cfg (record (config_at store s.cfg) { name = name }), s)
apply_option (with_tls tls) store s = (store, record s { tls_config = some tls })

abbrev pub apply_options : List ServerOption → Store → Draft → Store × Draft
apply_options [] store s = (store, s)
apply_options (opt ∷ opts) store s =
    let (store', s') = apply_option opt store s in apply_options opts store' s'

-- `kconf.Default()` is a fresh configuration at the end of the store.
unfoldable pub make_server : Store → List ServerOption → Store × Made
unfolding default new_conn_manager new_pool new_tlv_pack_with_order
make_server store opts =
    let (store', s) =
      apply_options opts (store ++ default ∷ [])
        (record { cfg = length store; tls_config = none }) in
    let cfg = config_at store' s.cfg in
    (
      store',
      record {
        cfg = s.cfg;
        tls_config = s.tls_config;
        conn_mgr = new_conn_manager cfg.max_conn;
        pool = new_pool cfg.worker_pool_size cfg.max_worker_task_len;
        codec = new_tlv_pack_with_order (some little_endian) cfg.max_packet_size;
      },
    )

-- `Name()`, which reads the configuration when it is called.
unfoldable pub server_name : Store → Made → List ℕ
unfolding default
server_name store s = (config_at store s.cfg).name
