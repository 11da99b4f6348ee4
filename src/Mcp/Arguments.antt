-- ===== src/Mcp/Arguments.antt =====
-- What the tools of kmcp/tools.go require of their arguments.
use kinz.Base.{
  ℕ, ◌≡◌, ◌≢◌, ◌↔◌, refl, sym, ap, subst, ◌∙◌, Bool, true, false, List, [], ◌∷◌, Option, none, some,
  some-inj, String,
}
use kinz.Mcp.{
  IServer, McpServer, Args, arg_string, arg_uint, to_uint32, ToolError, required, Outcome, failed,
  panicked, tool_send_to_connection, tool_broadcast,
}
use kinz.Mcp.Returning.{
  Sound, server_info-Sound, get_connection-Sound, send-Sound, broadcast-Sound,
  close_connection-Sound, tool_get_logs-Sound, shutdown-Sound,
}
use kinz.Mcp.Tools.{
  given, Tool, server_info, list_connections, get_connection, send_to_connection, broadcast,
  close_connection, get_metrics, get_config, get_logs, shutdown_server, run_tool, with_uint,
  with_string,
}

pub data ArgType : Type 0 where
  uint_type string_type : ArgType

-- The arguments that a tool requires, in the order of its checks.
abbrev pub required_args : Tool → List (String × ArgType)
required_args get_connection = ("connID", uint_type) ∷ []
required_args send_to_connection =
    ("connID", uint_type) ∷ ("msgID", uint_type) ∷ ("data", string_type) ∷ []
required_args broadcast = ("msgID", uint_type) ∷ ("data", string_type) ∷ []
required_args close_connection = ("connID", uint_type) ∷ []
required_args _ = []

abbrev pub is_some {ℓ} : {A : Type ℓ} → Option A → Bool
is_some none = false
is_some (some a) = true

abbrev pub missing_or : Bool → String → Option String → Option String
missing_or true key later = later
missing_or false key later = some key

module _ {Float : Type 0} (to_uint64 : Float → ℕ) where
  abbrev pub has_arg : Args Float → String → ArgType → Bool
  has_arg args key uint_type = is_some (arg_uint to_uint64 args key)
  has_arg args key string_type = is_some (arg_string args key)

  -- The first of these arguments that is not there or has another type.
  abbrev pub first_missing : Args Float → List (String × ArgType) → Option String
  first_missing args [] = none
  first_missing args ((key, type) ∷ keys) =
      missing_or (has_arg args key type) key (first_missing args keys)

module _ {W C E Float A : Type 0} (srv : IServer W C E Float) (s : McpServer A)
    (to_uint64 : Float → ℕ) (args : Args Float) where
  -- A step whose first missing argument, if any, is this one: it is refused for that reason and
  -- changes nothing, or it is sound.
  abbrev Judged : Option String → W → W × Outcome E Float → Type 0
  Judged (some key) w r = r ≡ (w, failed (required key))
  Judged none w r = Sound r.1

  abbrev Checks : List (String × ArgType) → W → (W → W × Outcome E Float) → Type 0
  Checks keys w f = Judged (first_missing to_uint64 args keys) w (f w)

  given-Judged :
      {T : Type 0} (key : String) (o : Option T) (later : Option String) (w : W)
      (f : T → W → W × Outcome E Float)
      → ((value : T) → Judged later w (f value w))
      → Judged (missing_or (is_some o) key later) w (given srv s to_uint64 key o f w)
  given-Judged key none later w f h = refl
  given-Judged key (some value) later w f h = h value

  with_uint-Checks :
      (key : String) (keys : List (String × ArgType)) (w : W) (f : ℕ → W → W × Outcome E Float)
      → ((n : ℕ) → Checks keys w (f n))
      → Checks ((key, uint_type) ∷ keys) w (with_uint srv s to_uint64 key args f)
  with_uint-Checks key keys w f = given-Judged key (arg_uint to_uint64 args key) _ w f

  with_string-Checks :
      (key : String) (keys : List (String × ArgType)) (w : W) (f : List ℕ → W → W × Outcome E Float)
      → ((text : List ℕ) → Checks keys w (f text))
      → Checks ((key, string_type) ∷ keys) w (with_string srv s to_uint64 key args f)
  with_string-Checks key keys w f = given-Judged key (arg_string args key) _ w f

  -- The message that two tools take.
  abbrev with_message : (ℕ → List ℕ → W → W × Outcome E Float) → W → W × Outcome E Float
  with_message f =
      with_uint srv s to_uint64 "msgID" args
        (λ msg_id. with_string srv s to_uint64 "data" args (f (to_uint32 msg_id)))

  with_message-Checks :
      (f : ℕ → List ℕ → W → W × Outcome E Float) (w : W)
      → ((msg_id : ℕ) (text : List ℕ) → Sound (f (to_uint32 msg_id) text w).1)
      → Checks (("msgID", uint_type) ∷ ("data", string_type) ∷ []) w (with_message f)
  with_message-Checks f w h =
      with_uint-Checks "msgID" (("data", string_type) ∷ []) w
        (λ msg_id. with_string srv s to_uint64 "data" args (f (to_uint32 msg_id)))
        (λ msg_id. with_string-Checks "data" [] w (f (to_uint32 msg_id)) (h msg_id))

  run_tool-Checks :
      (tool : Tool) (now : ℕ) (w : W)
      → Checks (required_args tool) w (run_tool srv s to_uint64 tool args now)
  unfolding run_tool
  run_tool-Checks server_info now w = server_info-Sound srv s now w
  run_tool-Checks list_connections now w = tt
  run_tool-Checks get_connection now w =
      with_uint-Checks "connID" [] w _ (λ id. get_connection-Sound srv s id w)
  run_tool-Checks send_to_connection now w =
      with_uint-Checks "connID" (("msgID", uint_type) ∷ ("data", string_type) ∷ []) w
        (λ id. with_message (tool_send_to_connection srv s id))
        (λ id.
          with_message-Checks (tool_send_to_connection srv s id) w
            (λ msg_id text. send-Sound srv s id (to_uint32 msg_id) text w))
  run_tool-Checks broadcast now w =
      with_message-Checks (tool_broadcast srv s) w
        (λ msg_id text. broadcast-Sound srv s (to_uint32 msg_id) text w)
  run_tool-Checks close_connection now w =
      with_uint-Checks "connID" [] w _ (λ id. close_connection-Sound srv s id w)
  run_tool-Checks get_metrics now w = tt
  run_tool-Checks get_config now w = tt
  run_tool-Checks get_logs now w = tool_get_logs-Sound srv s _
  run_tool-Checks shutdown_server now w = shutdown-Sound srv s w

  abbrev reason : Outcome E Float → Option String
  reason (failed (required key)) = some key
  reason _ = none

  refused_iff :
      (missing : Option String) (w : W) (r : W × Outcome E Float) (key : String)
      → Judged missing w r
      → (r ≡ (w, failed (required key))) ↔ (missing ≡ some key)
  refused_iff none w r key h = (λ e. absurd (subst Sound (ap (λ p. p.1) e) h), λ e. cc)
  refused_iff (some k) w r key h = (
    λ e. ap (λ p. reason p.1) (sym h ∙ e),
    λ e. h ∙ ap (λ i. (w, failed (required i))) (some-inj e),
  )

  failed_once : (o : Outcome E Float) (e : ToolError E) → o ≡ failed e → o ≢ panicked
  failed_once o e f g = cc

  Judged-returns :
      (missing : Option String) (w : W) (r : W × Outcome E Float)
      → Judged missing w r
      → r.1 ≢ panicked
  Judged-returns none w r h e = subst Sound e h
  Judged-returns (some k) w r h e = failed_once r.1 (required k) (ap (λ p. p.1) h) e

  -- A tool refuses a call for an argument, and changes nothing then, exactly if it is the first of
  -- those that it requires that is not there or has another type.
  pub run_tool-refused_iff :
      (tool : Tool) (now : ℕ) (w : W) (key : String)
      → (run_tool srv s to_uint64 tool args now w ≡ (w, failed (required key)))
        ↔ (first_missing to_uint64 args (required_args tool) ≡ some key)
  run_tool-refused_iff tool now w key = refused_iff _ w _ key (run_tool-Checks tool now w)

  -- No tool panics, whatever its arguments, while the calls of the server return.
  pub run_tool-returns :
      (tool : Tool) (now : ℕ) (w : W) → (run_tool srv s to_uint64 tool args now w).1 ≢ panicked
  run_tool-returns tool now w = Judged-returns _ w _ (run_tool-Checks tool now w)
