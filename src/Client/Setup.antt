-- ===== src/Client/Setup.antt =====
-- `NewClient` of knet/client.go, its options (also those of knet/options.go) and its setters.
-- A TLS configuration and a hook of the application are values of any type. `none` is a nil codec or
-- hook. The child Settled has what the settings are after any options and calls.
pub mod Settled
use kinz.Base.{ℕ, List, [], ◌∷◌, Option, none, some, ℤ, pos}
use kinz.Codec.{TlvPack, new_tlv_pack_with_order, little_endian}
use kinz.ConnManager.{ConnManager, new_conn_manager}
use kinz.Pool.{Pool, new_pool}
use kinz.Config.{Config, default}
use kinz.Client.Backoff.{Floats, ReconnectPolicy, default_reconnect, with_reconnect}

-- The fields of Client that the options and the setters write.
pub record Settings (F Tls Hook : Type 0) : Type 0 where
  pub name : List ℕ
  pub reconnect : ReconnectPolicy F
  pub tls_config : Option Tls
  pub codec : Option TlvPack
  pub on_conn_start : Option Hook
  pub on_conn_stop : Option Hook

-- What NewClient makes.
pub record Made (F Tls Hook : Type 0) : Type 0 where
  pub cfg : Config
  pub settings : Settings F Tls Hook
  pub conn_mgr : ConnManager ℕ
  pub msg_handler : Pool

pub data ClientOption (F Tls : Type 0) : Type 0 where
  with_codec_client : Option TlvPack → ClientOption F Tls
  with_name_client : List ℕ → ClientOption F Tls
  with_reconnect_option : ℤ → ℤ → F → ClientOption F Tls
  with_tls_client : Tls → ClientOption F Tls

module _ {F Tls Hook : Type 0} where
  abbrev pub set_codec : Option TlvPack → Settings F Tls Hook → Settings F Tls Hook
  set_codec codec c = record c { codec = codec }

  abbrev pub set_name : List ℕ → Settings F Tls Hook → Settings F Tls Hook
  set_name name c = record c { name = name }

  -- What `WithTLSClient` sets.
  abbrev pub set_tls_config : Tls → Settings F Tls Hook → Settings F Tls Hook
  set_tls_config tls c = record c { tls_config = some tls }

  abbrev pub set_on_conn_start : Option Hook → Settings F Tls Hook → Settings F Tls Hook
  set_on_conn_start f c = record c { on_conn_start = f }

  abbrev pub set_on_conn_stop : Option Hook → Settings F Tls Hook → Settings F Tls Hook
  set_on_conn_stop f c = record c { on_conn_stop = f }

-- `if c.codec == nil { … }`.
abbrev pub codec_or : TlvPack → Option TlvPack → TlvPack
codec_or t none = t
codec_or t (some codec) = codec

module _ {F Tls Hook : Type 0} (fl : Floats F) where
  abbrev pub apply_option : ClientOption F Tls → Settings F Tls Hook → Settings F Tls Hook
  apply_option (with_codec_client codec) c = set_codec codec c
  apply_option (with_name_client name) c = set_name name c
  apply_option (with_reconnect_option initial max multiplier) c = record c {
    reconnect = with_reconnect fl initial max multiplier c.reconnect;
  }
  apply_option (with_tls_client tls) c = set_tls_config tls c

  abbrev pub apply_options : List (ClientOption F Tls) → Settings F Tls Hook → Settings F Tls Hook
  apply_options [] c = c
  apply_options (opt ∷ opts) c = apply_options opts (apply_option opt c)

  abbrev pub initial_settings : Settings F Tls Hook
  initial_settings = record {
    name = b'K' ∷ b'i' ∷ b'n' ∷ b'z' ∷ b'C' ∷ b'l' ∷ b'i' ∷ b'e' ∷ b'n' ∷ b't' ∷ [];
    reconnect = default_reconnect fl;
    tls_config = none;
    codec = none;
    on_conn_start = none;
    on_conn_stop = none;
  }

  -- No option sets the message handler.
  unfoldable pub make_client : List ℕ → ℤ → List (ClientOption F Tls) → Made F Tls Hook
  unfolding default default_reconnect new_conn_manager new_pool new_tlv_pack_with_order
  make_client ip port opts =
      let cfg = record default { host = ip; port = port } in
      let c = apply_options opts initial_settings in
      let own_codec = new_tlv_pack_with_order (some little_endian) cfg.max_packet_size in
      record {
        cfg = cfg;
        settings = set_codec (some (codec_or own_codec c.codec)) c;
        conn_mgr = new_conn_manager (pos 1);
        msg_handler = new_pool cfg.worker_pool_size cfg.max_worker_task_len;
      }

-- A call of a setter.
pub data SetterCall (Hook : Type 0) : Type 0 where
  sets_codec : Option TlvPack → SetterCall Hook
  sets_name : List ℕ → SetterCall Hook
  sets_on_conn_start : Option Hook → SetterCall Hook
  sets_on_conn_stop : Option Hook → SetterCall Hook

module _ {F Tls Hook : Type 0} where
  abbrev pub call_setter : SetterCall Hook → Settings F Tls Hook → Settings F Tls Hook
  call_setter (sets_codec codec) c = set_codec codec c
  call_setter (sets_name name) c = set_name name c
  call_setter (sets_on_conn_start f) c = set_on_conn_start f c
  call_setter (sets_on_conn_stop f) c = set_on_conn_stop f c

  abbrev pub call_setters : List (SetterCall Hook) → Settings F Tls Hook → Settings F Tls Hook
  call_setters [] c = c
  call_setters (call ∷ calls) c = call_setters calls (call_setter call c)

-- `CallOnConnStart` and the hook of `CallOnConnStop`: the hook that is set is called, if any.
module _ {Hook S : Type 0} where
  abbrev pub call_hook : (Hook → S → S) → Option Hook → S → S
  call_hook apply none s = s
  call_hook apply (some f) s = apply f s

module _ {F Tls Hook S : Type 0} where
  unfoldable pub call_on_conn_start : (Hook → S → S) → Settings F Tls Hook → S → S
  call_on_conn_start apply c s = call_hook apply c.on_conn_start s

  unfoldable pub call_on_conn_stop : (Hook → S → S) → Settings F Tls Hook → S → S
  call_on_conn_stop apply c s = call_hook apply c.on_conn_stop s
