-- ===== src/Client/Setup/Settled.antt =====
-- The settings of a client of knet/client.go after any options and calls of its setters: for each,
-- the last that was given counts.
use kinz.Base.{last_or, ℕ, ◌≡◌, refl, ap, ◌∙◌, List, [], ◌∷◌, Option, none, some, ℤ}
use kinz.Codec.{TlvPack, new_tlv_pack_with_order, little_endian}
use kinz.Config.{default}
use kinz.Client.Backoff.{Floats, default_reconnect, with_reconnect, with_all}
use kinz.Client.Setup.{
  Settings, ClientOption, with_codec_client, with_name_client, with_reconnect_option,
  with_tls_client, SetterCall, sets_codec, sets_name, sets_on_conn_start, sets_on_conn_stop,
  set_codec, set_name, set_on_conn_start, set_on_conn_stop, apply_options, call_setters, codec_or,
  initial_settings, make_client,
}

module _ {F Tls : Type 0} where
  abbrev pub names_of : List (ClientOption F Tls) → List (List ℕ)
  names_of [] = []
  names_of (with_name_client name ∷ opts) = name ∷ names_of opts
  names_of (with_codec_client codec ∷ opts) = names_of opts
  names_of (with_reconnect_option initial max multiplier ∷ opts) = names_of opts
  names_of (with_tls_client tls ∷ opts) = names_of opts

  abbrev pub codecs_of : List (ClientOption F Tls) → List (Option TlvPack)
  codecs_of [] = []
  codecs_of (with_name_client name ∷ opts) = codecs_of opts
  codecs_of (with_codec_client codec ∷ opts) = codec ∷ codecs_of opts
  codecs_of (with_reconnect_option initial max multiplier ∷ opts) = codecs_of opts
  codecs_of (with_tls_client tls ∷ opts) = codecs_of opts

  abbrev pub policies_of : List (ClientOption F Tls) → List (ℤ × ℤ × F)
  policies_of [] = []
  policies_of (with_name_client name ∷ opts) = policies_of opts
  policies_of (with_codec_client codec ∷ opts) = policies_of opts
  policies_of (with_reconnect_option initial max multiplier ∷ opts) =
      (initial, max, multiplier) ∷ policies_of opts
  policies_of (with_tls_client tls ∷ opts) = policies_of opts

abbrev pub kinz_client : List ℕ
kinz_client = b'K' ∷ b'i' ∷ b'n' ∷ b'z' ∷ b'C' ∷ b'l' ∷ b'i' ∷ b'e' ∷ b'n' ∷ b't' ∷ []

module _ {Hook : Type 0} where
  abbrev pub names_set : List (SetterCall Hook) → List (List ℕ)
  names_set [] = []
  names_set (sets_codec codec ∷ calls) = names_set calls
  names_set (sets_name name ∷ calls) = name ∷ names_set calls
  names_set (sets_on_conn_start f ∷ calls) = names_set calls
  names_set (sets_on_conn_stop f ∷ calls) = names_set calls

  abbrev pub codecs_set : List (SetterCall Hook) → List (Option TlvPack)
  codecs_set [] = []
  codecs_set (sets_codec codec ∷ calls) = codec ∷ codecs_set calls
  codecs_set (sets_name name ∷ calls) = codecs_set calls
  codecs_set (sets_on_conn_start f ∷ calls) = codecs_set calls
  codecs_set (sets_on_conn_stop f ∷ calls) = codecs_set calls

  abbrev pub starts_set : List (SetterCall Hook) → List (Option Hook)
  starts_set [] = []
  starts_set (sets_codec codec ∷ calls) = starts_set calls
  starts_set (sets_name name ∷ calls) = starts_set calls
  starts_set (sets_on_conn_start f ∷ calls) = f ∷ starts_set calls
  starts_set (sets_on_conn_stop f ∷ calls) = starts_set calls

module _ {F Tls Hook : Type 0} (fl : Floats F) where
  options_settle :
      (opts : List (ClientOption F Tls)) (c : Settings F Tls Hook)
      → ((apply_options fl opts c).name ≡ last_or c.name (names_of opts))
        × ((apply_options fl opts c).codec ≡ last_or c.codec (codecs_of opts))
        × ((apply_options fl opts c).reconnect ≡ with_all fl (policies_of opts) c.reconnect)
        × ((apply_options fl opts c).on_conn_start ≡ c.on_conn_start)
  options_settle [] c = (refl, refl, refl, refl)
  options_settle (with_codec_client codec ∷ opts) c = options_settle opts (set_codec codec c)
  options_settle (with_name_client name ∷ opts) c = options_settle opts (set_name name c)
  options_settle (with_reconnect_option initial max multiplier ∷ opts) c =
      options_settle opts
        (record c { reconnect = with_reconnect fl initial max multiplier c.reconnect })
  options_settle (with_tls_client tls ∷ opts) c =
      options_settle opts (record c { tls_config = some tls })

  setters_settle :
      (calls : List (SetterCall Hook)) (c : Settings F Tls Hook)
      → ((call_setters calls c).name ≡ last_or c.name (names_set calls))
        × ((call_setters calls c).codec ≡ last_or c.codec (codecs_set calls))
        × ((call_setters calls c).reconnect ≡ c.reconnect)
        × ((call_setters calls c).on_conn_start ≡ last_or c.on_conn_start (starts_set calls))
  setters_settle [] c = (refl, refl, refl, refl)
  setters_settle (sets_codec codec ∷ calls) c = setters_settle calls (set_codec codec c)
  setters_settle (sets_name name ∷ calls) c = setters_settle calls (set_name name c)
  setters_settle (sets_on_conn_start f ∷ calls) c = setters_settle calls (set_on_conn_start f c)
  setters_settle (sets_on_conn_stop f ∷ calls) c = setters_settle calls (set_on_conn_stop f c)

  -- A client that was made with any options, and on which any setters were called since: its name is
  -- the last that was set, or the last of the options, or "KinzClient"; so it is with its codec,
  -- where NewClient puts its own in the place of a nil codec of the options, which SetCodec does not;
  -- its reconnection policy is what the options make of the default, one after the other; and the
  -- hook that CallOnConnStart calls is the last that was set, if one was.
  pub make_client_lem :
      (ip : List ℕ) (port : ℤ) (opts : List (ClientOption F Tls)) (calls : List (SetterCall Hook))
      → let c = call_setters calls (make_client fl ip port opts).settings in
        let own = new_tlv_pack_with_order (some little_endian) 4096 in
        (c.name ≡ last_or (last_or kinz_client (names_of opts)) (names_set calls))
        × (c.codec
            ≡ last_or (some (codec_or own (last_or none (codecs_of opts)))) (codecs_set calls))
        × (c.reconnect ≡ with_all fl (policies_of opts) (default_reconnect fl))
        × (c.on_conn_start ≡ last_or none (starts_set calls))
  unfolding make_client default
  make_client_lem ip port opts calls =
      let made : Settings F Tls Hook = (make_client fl ip port opts).settings in
      let (n, c, r, s) = setters_settle calls made in
      let (n', c', r', s') = options_settle opts (initial_settings fl) in
      (
        n ∙ ap (λ (x : List ℕ). last_or x (names_set calls)) n',
        c
            ∙ ap
                (λ (x : Option TlvPack).
                  last_or (some (codec_or (new_tlv_pack_with_order (some little_endian) 4096) x))
                    (codecs_set calls))
                c',
        r ∙ r',
        s ∙ ap (λ (x : Option Hook). last_or x (starts_set calls)) s',
      )
