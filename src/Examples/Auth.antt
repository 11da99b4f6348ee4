-- ===== src/Examples/Auth.antt =====
-- examples/auth-middleware/server/main.go: a middleware that lets only authorized connections pass.
-- The property "authed" of the connection is the argument of the middleware; the effects of the
-- handlers on the connection are numbered. One worker takes the requests of a connection one after
-- the other, which is what `session` does.
use kinz.Base.{
  ℕ, ◌≡◌, refl, ap, Bool, true, false, not, ◌||◌, ◌&&◌, List, [], ◌∷◌, none, ◌==◌, if◌then◌else◌,
  arith,
}
use kinz.Codec.{Message}
use kinz.Request.{
  Handler, done, next, abort, act, get_message, new_request, current, run, router_slices_next,
  bind_router_slices,
}
use kinz.Router.{
  Routes, new_routes, add_slices, add_router_slices, use_global, group_handlers, assemble, chain,
  recovered, execute,
}
use kinz.Heartbeat.{heart_beat_default_msg_id}

abbrev pub msg_auth : ℕ
msg_auth = 0

abbrev pub msg_ping : ℕ
msg_ping = 1

-- "secret".
abbrev pub token : List ℕ
token = b's' ∷ b'e' ∷ b'c' ∷ b'r' ∷ b'e' ∷ b't' ∷ []

-- `SendMsg(msgNotice, "unauthorized")`.
abbrev pub send_unauthorized : ℕ
send_unauthorized = 0

-- `SetProperty("authed", true)`.
abbrev pub set_authed : ℕ
set_authed = 1

-- `SendMsg(msgNotice, "authorized")`.
abbrev pub send_authorized : ℕ
send_authorized = 2

-- `SendMsg(msgNotice, "bad token")`.
abbrev pub send_bad_token : ℕ
send_bad_token = 3

-- `SendMsg(msgPong, req.GetData())`.
abbrev pub send_pong : ℕ
send_pong = 4

-- The default heartbeat handler logs.
abbrev pub log_heartbeat : ℕ
log_heartbeat = 5

abbrev pub same_bytes : List ℕ → List ℕ → Bool
same_bytes [] [] = true
same_bytes (x ∷ xs) (y ∷ ys) = x == y && same_bytes xs ys
same_bytes _ _ = false

abbrev pub auth_middleware : Bool → Handler
auth_middleware authed = get_message (λ m.
    if m.id == msg_auth
    then next done
    else if authed
    then next done
    else act send_unauthorized (abort done))

abbrev pub auth_handler : Handler
auth_handler = get_message (λ m.
    if same_bytes m.payload token
    then act set_authed (act send_authorized done)
    else act send_bad_token done)

abbrev pub ping_handler : Handler
ping_handler = act send_pong done

abbrev pub heartbeat_handler : Handler
heartbeat_handler = act log_heartbeat done

-- The registrations of `main`, that of `StartHeartBeat` included.
unfoldable pub auth_routes : Bool → Routes Handler
unfolding new_routes use_global add_router_slices
auth_routes authed =
    let used = use_global new_routes (auth_middleware authed ∷ []) in
    let auth = (add_router_slices used msg_auth (auth_handler ∷ [])).0 in
    let ping = (add_router_slices auth msg_ping (ping_handler ∷ [])).0 in
    (add_router_slices ping heart_beat_default_msg_id (heartbeat_handler ∷ [])).0

abbrev pub effects : Bool → ℕ → Message → List ℕ
effects authed conn_id m = (execute (auth_routes authed) none (new_request conn_id m)).1.run.trace

abbrev pub member : ℕ → List ℕ → Bool
member n [] = false
member n (x ∷ xs) = x == n || member n xs

-- The requests of a connection, in order, with what their handlers do.
abbrev pub session : Bool → ℕ → List Message → List (List ℕ)
session authed conn_id [] = []
session authed conn_id (m ∷ ms) =
    let done_now = effects authed conn_id m in
    done_now ∷ session (authed || member set_authed done_now) conn_id ms

-- A message that proves its sender.
abbrev pub is_login : Message → Bool
is_login m = m.id == msg_auth && same_bytes m.payload token

-- What a message should lead to, from an authorized connection or another.
abbrev pub reply : Bool → Message → List ℕ
reply authed m =
    if is_login m
    then set_authed ∷ send_authorized ∷ []
    else if m.id == msg_auth
    then send_bad_token ∷ []
    else if not authed
    then send_unauthorized ∷ []
    else if m.id == msg_ping
    then send_pong ∷ []
    else if m.id == heart_beat_default_msg_id
    then log_heartbeat ∷ []
    else []

abbrev pub replies : Bool → List Message → List (List ℕ)
replies authed [] = []
replies authed (m ∷ ms) = reply authed m ∷ replies (authed || is_login m) ms

effects-reply :
    (authed : Bool) (conn_id : ℕ) (m : Message) → effects authed conn_id m ≡ reply authed m
unfolding execute chain auth_routes add_slices new_routes use_global add_router_slices
    group_handlers assemble recovered router_slices_next bind_router_slices current run new_request
effects-reply true conn_id m = ground arith
effects-reply false conn_id m = ground arith

login-reply : (authed : Bool) (m : Message) → member set_authed (reply authed m) ≡ is_login m
login-reply true m = ground arith
login-reply false m = ground arith

session-replies :
    (authed : Bool) (conn_id : ℕ) (ms : List Message)
    → session authed conn_id ms ≡ replies authed ms
session-replies authed conn_id [] = refl
session-replies authed conn_id (m ∷ ms) =
    rw (effects-reply authed conn_id m, login-reply authed m)
      (ap (◌∷◌ (reply authed m)) (session-replies (authed || is_login m) conn_id ms))

-- Whatever messages a new connection sends, the handlers do this for each: the right token
-- authorizes it and is answered so; another token is turned down; any other message, also one that
-- nothing is registered for, and a heartbeat, is answered "unauthorized" unless the right token came
-- before it; and if it came, a ping is answered with a pong, a heartbeat is logged, and anything
-- else is ignored.
pub session_lem : (conn_id : ℕ) (ms : List Message) → session false conn_id ms ≡ replies false ms
session_lem conn_id ms = session-replies false conn_id ms
