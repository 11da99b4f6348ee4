-- ===== src/Heartbeat/Tests.antt =====
-- Runs of knet/heartbeat.go.
use kinz.Base.{ℕ, ◌≡◌, refl, Bool, [], ◌∷◌, none, some, pos, leb}
use kinz.Heartbeat.{
  HeartBeatChecker, HeartBeatOption, new_heartbeat_checker, clone, check, bind_conn,
  server_template, client_template, not_alive, apply_option, set_heart_beat_msg_func,
  set_on_remote_not_alive, set_timeout, bind_router_slices,
}
use kinz.Heartbeat.Options.{check-clone_template}

-- Functions are numbers here, and a connection is how long its peer has been silent.
abbrev checker : HeartBeatChecker ℕ ℕ ℕ ℕ ℕ
checker = new_heartbeat_checker 1 2 (pos 5)

abbrev silent : ℕ → ℕ → Bool
silent since timeout = leb since timeout

-- Handlers of its own, without a message id.
abbrev option : HeartBeatOption ℕ ℕ ℕ
option = record {
  make_msg = some 11;
  on_remote_not_alive = none;
  heart_beat_msg_id = 0;
  router_slices = 7 ∷ [];
  timeout = pos 0;
}

id_reset :
    (server_template {M = ℕ} {N = ℕ} {B = ℕ} {H = ℕ} {C = ℕ} 1 2 (pos 5) (some option)).msg_id ≡ 0
unfolding server_template new_heartbeat_checker apply_option set_heart_beat_msg_func
    set_on_remote_not_alive set_timeout bind_router_slices
id_reset = refl

check-clone_template_example :
    (check silent (bind_conn (clone {B = ℕ} (server_template 1 2 (pos 5) (some option))) 20)
      ≡ (bind_conn (clone {B = ℕ} (server_template 1 2 (pos 5) (some option))) 20, not_alive 2 20))
    × (check silent (bind_conn (clone {B = ℕ} (client_template 1 2 (pos 5) (some option))) 20) ≡ (
      bind_conn (clone {B = ℕ} (client_template 1 2 (pos 5) (some option))) 20,
      not_alive 2 20,
    ))
check-clone_template_example = check-clone_template 1 2 silent (pos 5) option 20
