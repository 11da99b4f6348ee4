-- ===== src/Server/Hooks.antt =====
-- The codec and the hooks of knet/server.go, which may be set while the server runs: `SetCodec`,
-- `SetOnConnStart`, `SetOnConnStop`, and who uses them: `handleConn`, `CallOnConnStart` and
-- `CallOnConnStop`.
-- `none` is a nil hook. `taken` and `called` are histories for the statements: the codecs of the
-- connections, in the order in which handleConn made them, and the hooks that were called.
use kinz.Base.{
  ◌≡◌, refl, sym, ap, ◌∙◌, List, [], ◌∷◌, ◌++◌, append_assoc, append-nil, Option, none, some,
  last_or,
}
use kinz.Codec.{TlvPack, clone}

pub record Hosting (Hook : Type 0) : Type 0 where
  pub codec : TlvPack
  pub on_conn_start : Option Hook
  pub on_conn_stop : Option Hook
  pub taken : List TlvPack
  pub called : List Hook

pub data HostEvent (Hook : Type 0) : Type 0 where
  sets_codec : TlvPack → HostEvent Hook
  sets_on_conn_start : Option Hook → HostEvent Hook
  sets_on_conn_stop : Option Hook → HostEvent Hook
  handles : HostEvent Hook
  conn_starts : HostEvent Hook
  conn_stops : HostEvent Hook

module _ {Hook : Type 0} where
  abbrev pub set_codec : TlvPack → Hosting Hook → Hosting Hook
  set_codec codec s = record s { codec = codec }

  abbrev pub set_on_conn_start : Option Hook → Hosting Hook → Hosting Hook
  set_on_conn_start f s = record s { on_conn_start = f }

  abbrev pub set_on_conn_stop : Option Hook → Hosting Hook → Hosting Hook
  set_on_conn_stop f s = record s { on_conn_stop = f }

  -- `s.GetCodec().Clone()`, the codec of a new connection.
  abbrev pub handle_codec : Hosting Hook → Hosting Hook
  handle_codec s = record s { taken = s.taken ++ clone s.codec ∷ [] }

  abbrev pub called_of : Option Hook → List Hook
  called_of none = []
  called_of (some f) = f ∷ []

  abbrev pub call_on_conn_start : Hosting Hook → Hosting Hook
  call_on_conn_start s = record s { called = s.called ++ called_of s.on_conn_start }

  abbrev pub call_on_conn_stop : Hosting Hook → Hosting Hook
  call_on_conn_stop s = record s { called = s.called ++ called_of s.on_conn_stop }

  abbrev pub happens : HostEvent Hook → Hosting Hook → Hosting Hook
  happens (sets_codec codec) s = set_codec codec s
  happens (sets_on_conn_start f) s = set_on_conn_start f s
  happens (sets_on_conn_stop f) s = set_on_conn_stop f s
  happens handles s = handle_codec s
  happens conn_starts s = call_on_conn_start s
  happens conn_stops s = call_on_conn_stop s

  abbrev pub happen_all : List (HostEvent Hook) → Hosting Hook → Hosting Hook
  happen_all [] s = s
  happen_all (e ∷ es) s = happen_all es (happens e s)

  -- What one event sets, for each of the three.
  abbrev pub codec_set : HostEvent Hook → List TlvPack
  codec_set (sets_codec codec) = codec ∷ []
  codec_set (sets_on_conn_start f) = []
  codec_set (sets_on_conn_stop f) = []
  codec_set handles = []
  codec_set conn_starts = []
  codec_set conn_stops = []

  abbrev pub codecs_set : List (HostEvent Hook) → List TlvPack
  codecs_set [] = []
  codecs_set (e ∷ es) = codec_set e ++ codecs_set es

  abbrev pub start_set : HostEvent Hook → List (Option Hook)
  start_set (sets_on_conn_start f) = f ∷ []
  start_set (sets_codec codec) = []
  start_set (sets_on_conn_stop f) = []
  start_set handles = []
  start_set conn_starts = []
  start_set conn_stops = []

  abbrev pub starts_set : List (HostEvent Hook) → List (Option Hook)
  starts_set [] = []
  starts_set (e ∷ es) = start_set e ++ starts_set es

  last_codec :
      (es : List (HostEvent Hook)) (s : Hosting Hook)
      → (happen_all es s).codec ≡ last_or s.codec (codecs_set es)
  last_codec [] s = refl
  last_codec (sets_codec codec ∷ es) s = last_codec es (set_codec codec s)
  last_codec (sets_on_conn_start f ∷ es) s = last_codec es (set_on_conn_start f s)
  last_codec (sets_on_conn_stop f ∷ es) s = last_codec es (set_on_conn_stop f s)
  last_codec (handles ∷ es) s = last_codec es (handle_codec s)
  last_codec (conn_starts ∷ es) s = last_codec es (call_on_conn_start s)
  last_codec (conn_stops ∷ es) s = last_codec es (call_on_conn_stop s)

  last_start :
      (es : List (HostEvent Hook)) (s : Hosting Hook)
      → (happen_all es s).on_conn_start ≡ last_or s.on_conn_start (starts_set es)
  last_start [] s = refl
  last_start (sets_codec codec ∷ es) s = last_start es (set_codec codec s)
  last_start (sets_on_conn_start f ∷ es) s = last_start es (set_on_conn_start f s)
  last_start (sets_on_conn_stop f ∷ es) s = last_start es (set_on_conn_stop f s)
  last_start (handles ∷ es) s = last_start es (handle_codec s)
  last_start (conn_starts ∷ es) s = last_start es (call_on_conn_start s)
  last_start (conn_stops ∷ es) s = last_start es (call_on_conn_stop s)

  -- Nothing that has happened is taken back.
  abbrev pub Extends : Hosting Hook → Hosting Hook → Type 0
  Extends s t =
      ((more : List TlvPack) × (t.taken ≡ s.taken ++ more))
      × ((more : List Hook) × (t.called ≡ s.called ++ more))

  Extends-refl : (s : Hosting Hook) → Extends s s
  Extends-refl s = (([], sym (append-nil s.taken)), ([], sym (append-nil s.called)))

  happens-Extends : (e : HostEvent Hook) (s : Hosting Hook) → Extends s (happens e s)
  happens-Extends (sets_codec codec) s = Extends-refl s
  happens-Extends (sets_on_conn_start f) s = Extends-refl s
  happens-Extends (sets_on_conn_stop f) s = Extends-refl s
  happens-Extends handles s = ((_, refl), (Extends-refl s).1)
  happens-Extends conn_starts s = ((Extends-refl s).0, (_, refl))
  happens-Extends conn_stops s = ((Extends-refl s).0, (_, refl))

  Extends-trans : (s t u : Hosting Hook) → Extends s t → Extends t u → Extends s u
  Extends-trans s t u ((a, e), (b, f)) ((c, g), (d, h)) = (
    (a ++ c, g ∙ ap (λ xs. xs ++ c) e ∙ append_assoc s.taken a c),
    (b ++ d, h ∙ ap (λ xs. xs ++ d) f ∙ append_assoc s.called b d),
  )

  happen_all-Extends : (es : List (HostEvent Hook)) (s : Hosting Hook) → Extends s (happen_all es s)
  happen_all-Extends [] s = Extends-refl s
  happen_all-Extends (e ∷ es) s =
      Extends-trans s (happens e s) (happen_all es (happens e s)) (happens-Extends e s)
        (happen_all-Extends es (happens e s))

  -- Whatever happens before and after: the connection that handleConn makes has a clone of the codec
  -- that was set last before, and keeps it.
  pub handles_lem :
      (s : Hosting Hook) (before after : List (HostEvent Hook))
      → let t = happen_all before s in
        (more : List TlvPack) × ((happen_all after (happens handles t)).taken
          ≡ (t.taken ++ clone (last_or s.codec (codecs_set before)) ∷ []) ++ more)
  handles_lem s before after =
      let t = happen_all before s in
      let (more, e) = (happen_all-Extends after (happens handles t)).0 in
      (more, e ∙ ap (λ (c : TlvPack). (t.taken ++ clone c ∷ []) ++ more) (last_codec before s))

  -- Whatever happens before and after: when a connection starts, the hook that was set last before is
  -- called, if it was not nil.
  pub conn_starts_lem :
      (s : Hosting Hook) (before after : List (HostEvent Hook))
      → let t = happen_all before s in
        (more : List Hook) × ((happen_all after (happens conn_starts t)).called
          ≡ (t.called ++ called_of (last_or s.on_conn_start (starts_set before))) ++ more)
  conn_starts_lem s before after =
      let t = happen_all before s in
      let (more, e) = (happen_all-Extends after (happens conn_starts t)).1 in
      (more, e ∙ ap (λ (f : Option Hook). (t.called ++ called_of f) ++ more) (last_start before s))
