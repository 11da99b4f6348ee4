-- ===== src/Client/Tests.antt =====
-- Runs of knet/client.go.
use kinz.Base.{
  List, ℕ, zero, suc, ◌*◌, ◌+◌, ◌≤◌, ◌≡◌, refl, true, false, none, some, [], ◌∷◌, map, pos, min,
  ltb, arith,
}
use kinz.Client.Backoff.{
  Floats, FloatLaws, default_reconnect, backoff_loop, backoff_value, with_reconnect, with_all,
}
use kinz.Client.Setup.{
  ClientOption, with_name_client, with_codec_client, call_setters, sets_on_conn_start, make_client,
}
use kinz.Client.Setup.Settled.{make_client_lem}
use kinz.Client.Backoff.Bounds.{backoff_bounds}
use kinz.Client.{
  waiting, delaying, dialing, Client, new_client, assign_conn, add_conn, dial, start, restart,
  take_gone, redial,
}
use kinz.Client.Stranded.{restart_orphans}

-- A client that has started.
abbrev connected : Client
connected = record {
  started = true;
  stopping = false;
  conn = some 1;
  orphan = false;
  managed = some 1;
  conn_gone = false;
  conn_id = 1;
  loop = waiting;
  attempt = 0;
  cancelled = 0;
  stale = [];
}

connects : (start new_client true).0 ≡ connected
unfolding new_client start dial assign_conn add_conn
connects = refl

-- The connection is lost, and the loop has taken the signal.
abbrev lost : Client
lost = record connected { managed = none; loop = delaying; attempt = 1; cancelled = 1 }

abbrev lost_for_good : Client
lost_for_good = record lost { loop = waiting; cancelled = 0 }

-- The loop has dialled connection 2, which the manager has not got yet.
abbrev half_way : Client
half_way = record lost { conn = some 2; orphan = true; conn_id = 2; loop = dialing false (some 2) }

restart_orphans_example :
    ((restart connected true).conn_gone ≡ true)
    × ((restart connected true).loop ≡ waiting)
    × ((redial (take_gone (restart connected true)) true).managed ≡ some 2)
    × ((redial (take_gone (restart connected true)) true).conn ≡ some 3)
    × ((redial (take_gone (restart connected true)) true).orphan ≡ true)
    × ((redial (take_gone (restart connected true)) true).loop ≡ waiting)
    × ((redial (take_gone (restart connected true)) true).conn_gone ≡ false)
restart_orphans_example = restart_orphans connected 1 refl refl

-- Natural numbers as they are, with a `half` that is never asked for.
abbrev whole : Floats ℕ
whole = record {
  lt = ltb;
  mul = λ a b. a * b;
  add = λ a b. a + b;
  one = 1;
  two = 2;
  half = 0;
  of_duration = λ d. d;
  to_duration = λ d. d;
}

mul_two : (x m : ℕ) → ltb 1 m ≡ true → ltb (x * m) x ≡ false
mul_two x zero h = ground (arith, h)
mul_two x (suc zero) h = ground (arith, h)
mul_two x (suc (suc m)) h = let e : x ≤ x * suc (suc m) = omega arith in ground (arith, e)

whole-FloatLaws : FloatLaws whole
whole-FloatLaws = record {
  two_above = refl;
  not_below_refl = λ x. ground arith;
  not_below_trans = λ x y z h k. ground (arith, h, k);
  below_not_above = λ x y h. ground (arith, h);
  mul_grows = λ d x m p h k. mul_two x m k;
  to_of = λ d h. refl;
  to_monotone = λ d x y b l h. ground (arith, h);
}

backoff_bounds_example :
    let p = with_all whole ((pos 100, pos 1000, 3) ∷ []) (default_reconnect whole) in
    (min p.initial p.max ≤ backoff_value whole p 2)
    × (backoff_value whole p 2 ≤ p.max)
    × (backoff_value whole p 2 ≤ backoff_value whole p 3)
unfolding default_reconnect with_reconnect
backoff_bounds_example =
    backoff_bounds whole whole-FloatLaws ((pos 100, pos 1000, 3) ∷ []) 2 (omega arith) (omega arith)

-- The fourth attempt is at the limit.
backoff_third :
    map
      (backoff_value whole (record { initial = 100; max = 1000; multiplier = 3 }))
      (0 ∷ 1 ∷ 2 ∷ 3 ∷ 9 ∷ [])
    ≡ 100 ∷ 300 ∷ 900 ∷ 1000 ∷ 1000 ∷ []
unfolding backoff_value backoff_loop
backoff_third = refl

-- Two names and a nil codec among the options, and a hook that is set later.
abbrev options : List (ClientOption ℕ ℕ)
options = with_name_client (b'a' ∷ []) ∷ with_codec_client none ∷ with_name_client (b'b' ∷ []) ∷ []

settings_lem :
    (call_setters {Hook = ℕ}
      (sets_on_conn_start (some 3) ∷ [])
      (make_client whole [] (pos 8999) options).settings).name
    ≡ b'b' ∷ []
settings_lem = (make_client_lem whole [] (pos 8999) options (sets_on_conn_start (some 3) ∷ [])).0
