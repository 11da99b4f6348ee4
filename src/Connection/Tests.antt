-- ===== src/Connection/Tests.antt =====
-- Runs of knet/connection.go.
use kinz.Base.{
  ◌⊎◌, ℕ, ◌≤◌, ◌≡◌, refl, ◌+◌, true, false, List, [], ◌∷◌, ◌++◌, map, none, some, negsuc, length,
  arith,
}
use kinz.Codec.{
  Message, TlvPack, little_endian, too_large_packet, Decoded, clone, decode, decode_loop,
  next_frame, take_body, get_uint32, put_uint32, pack, incomplete,
}
use kinz.Codec.Framing.{IsPackable, received}
use kinz.Connection.{
  state_closed, launched, removed, going, Connection, new_connection, start_cas, bind_heartbeat,
  arm_heartbeat, launch, mark_closed, call_on_conn_stop, take_heartbeat, stop_heartbeat,
  count_closed, hang_up, signal_done, remove_self, enqueue, begin, bind, arm, go, mark, hook, take,
  quieten, count, close, signal, remove, send, fetch, write, write_error, leaving, Reach, here,
  further, send_msg, conn_closed, room, read_chunks, is_alive,
}
use kinz.Connection.Properties.{sets, removes, change_all, get_property, get_property-change_all}
use kinz.Connection.Metering.{read_loop, read_loop_lem}
use kinz.Connection.Closing.{stop_once_lem, heartbeat_never_leaks, Unborn, closed_before_start}
use kinz.Connection.Queue.{write_order}
use kinz.Connection.Writing.{on_wire, stream, peer_receives}
use kinz.Codec.RoundTrip.{pack_all}
use kinz.Connection.Reading.{read_chunks_accepted, read_chunks_refused}

-- A message and its bytes.
abbrev message : Message
message = record { id = 7; data_len = 1; payload = 42 ∷ []; raw = [] }

abbrev codec : TlvPack
codec = record { order = little_endian; max_packet_size = 16; input = [] }

abbrev packet : List ℕ
packet = 1 ∷ 0 ∷ 0 ∷ 0 ∷ 7 ∷ 0 ∷ 0 ∷ 0 ∷ 42 ∷ []

abbrev received_message : Message
received_message = record message { raw = 1 ∷ 0 ∷ 0 ∷ 0 ∷ 7 ∷ 0 ∷ 0 ∷ 0 ∷ [] }

pack-message : pack codec message ≡ packet
unfolding pack put_uint32
pack-message = refl

-- A connection with a heartbeat that has sent one message of two, when it is stopped between the
-- binding and the start of its heartbeat.
abbrev raced : Connection
raced = record {
  has_template = true;
  metered = true;
  write_queue_size = 4;
  state = state_closed;
  start_pc = launched;
  stop_pc = removed;
  started = true;
  hb = false;
  hb_loop = false;
  reader = going;
  writer = going;
  msg_chan = packet ∷ [];
  writing = [];
  accepted = packet ∷ packet ∷ [];
  written = packet ∷ [];
  lost = [];
  broken_off = [];
  start_hooks = 1;
  stop_hooks = 1;
  active_decs = 1;
  done_closes = 1;
  removals = 1;
}

raced_run : Reach (new_connection true true 4) raced
unfolding new_connection start_cas bind_heartbeat arm_heartbeat launch mark_closed call_on_conn_stop
    take_heartbeat stop_heartbeat count_closed hang_up signal_done remove_self enqueue
raced_run =
    let bound_ = further (further here (begin refl)) (bind refl) in
    let stopping = further (further (further bound_ (mark refl)) (hook refl)) (take refl) in
    let started = further (further stopping (arm refl)) (go refl) in
    let stopped =
      further
        (further (further (further (further started (quieten true refl)) (count refl)) (close refl))
          (signal refl))
        (remove refl) in
    let sent = further (further stopped (send packet (omega arith))) (send packet (omega arith)) in
    further (further sent (fetch packet (packet ∷ []) refl refl refl)) (write packet refl refl)

stop_once_lem_example :
    (raced.stop_hooks ≤ 1)
    × (raced.active_decs ≤ raced.stop_hooks)
    × (raced.done_closes ≤ raced.stop_hooks)
    × (raced.done_closes ≤ raced.active_decs)
    × (raced.removals ≤ raced.done_closes)
stop_once_lem_example = stop_once_lem true true 4 raced raced_run

heartbeat_never_leaks_example : raced.hb_loop ≡ false
heartbeat_never_leaks_example = heartbeat_never_leaks true true 4 raced raced_run (omega arith)

write_order_example :
    (raced.accepted ≡ raced.written ++ (raced.lost ++ (raced.writing ++ raced.msg_chan)))
    × (length raced.lost ≤ 1)
    × (length raced.msg_chan ≤ raced.write_queue_size)
write_order_example = write_order true true 4 raced raced_run

message-IsPackable : IsPackable codec message
message-IsPackable = record {
  size = refl;
  limit = refl;
  len_range = omega arith;
  id_range = omega arith;
}

-- The write of the second message breaks off behind five bytes.
abbrev cut_off : Connection
cut_off = record raced {
  msg_chan = [];
  lost = packet ∷ [];
  broken_off = 1 ∷ 0 ∷ 0 ∷ 0 ∷ 7 ∷ [];
  writer = leaving;
}

cut_off_run : Reach (new_connection true true 4) cut_off
cut_off_run =
    further (further raced_run (fetch packet [] refl refl refl))
      (write_error packet (1 ∷ 0 ∷ 0 ∷ 0 ∷ 7 ∷ []) (0 ∷ 0 ∷ 0 ∷ 42 ∷ []) refl refl refl)

accepted_packets : cut_off.accepted ≡ map (pack codec) (message ∷ message ∷ [])
unfolding pack put_uint32
accepted_packets = refl

peer_receives_example :
    (sent : List Message) × (later : List Message) × (left : List ℕ) × (message ∷ message ∷ []
      ≡ sent ++ later)
    × (stream cut_off ≡ pack_all codec sent ++ left)
    × ((left ≡ []) ⊎ (left ≡ 1 ∷ 0 ∷ 0 ∷ 0 ∷ 7 ∷ []))
    × (decode (clone codec) (packet ++ 1 ∷ 0 ∷ 0 ∷ 0 ∷ 7 ∷ [])
        ≡ some (record {
          msgs = map (received codec) sent;
          error = none;
          codec = record codec { input = left };
        }))
peer_receives_example =
    peer_receives true true 4 cut_off codec (message ∷ message ∷ []) cut_off_run accepted_packets
      (message-IsPackable, (message-IsPackable, tt))

-- Stopped before it is started.
abbrev stillborn : Connection
stillborn = mark_closed (new_connection false true 4)

stillborn-Unborn : Unborn stillborn
unfolding new_connection mark_closed
stillborn-Unborn = (refl, refl, refl, refl, refl, refl)

late_start : Reach stillborn (start_cas stillborn)
late_start = further here (begin stillborn-Unborn.1)

closed_before_start_example : Unborn (start_cas stillborn)
closed_before_start_example = closed_before_start late_start stillborn-Unborn

send_after_close : send_msg stillborn codec 7 (42 ∷ []) room ≡ (stillborn, some conn_closed)
unfolding send_msg mark_closed new_connection
send_after_close = refl

never_dead_without_timeout : is_alive 5 1000 (negsuc 3) ≡ true
unfolding is_alive
never_dead_without_timeout = refl

-- Two reads, the second of which ends in a message over the limit.
abbrev reads : List (List ℕ)
reads = (1 ∷ 0 ∷ 0 ∷ 0 ∷ 7 ∷ []) ∷ (0 ∷ 0 ∷ 0 ∷ 42 ∷ []) ∷ []

abbrev decoded_reads : Decoded
decoded_reads = record { msgs = received_message ∷ []; error = none; codec = codec }

nothing_yet : next_frame codec ≡ incomplete
unfolding next_frame
nothing_yet = refl

reads-decode : decode codec (on_wire reads) ≡ some decoded_reads
unfolding decode decode_loop next_frame take_body get_uint32
reads-decode = refl

read_chunks_accepted_example : read_chunks codec reads ≡ some (received_message ∷ [], false)
read_chunks_accepted_example =
    read_chunks_accepted codec reads decoded_reads nothing_yet reads-decode refl

abbrev over_limit : List ℕ
over_limit = 17 ∷ 0 ∷ 0 ∷ 0 ∷ 7 ∷ 0 ∷ 0 ∷ 0 ∷ []

abbrev bad_reads : List (List ℕ)
bad_reads = (packet ++ over_limit) ∷ []

abbrev decoded_bad : Decoded
decoded_bad = record {
  msgs = received_message ∷ [];
  error = some (too_large_packet 17 16);
  codec = record codec { input = over_limit };
}

bad_reads-decode : decode codec (on_wire bad_reads) ≡ some decoded_bad
unfolding decode decode_loop next_frame take_body get_uint32
bad_reads-decode = refl

-- The message in front is dropped.
bad_reads_drop : read_chunks codec bad_reads ≡ some ([], true)
unfolding read_chunks decode decode_loop next_frame take_body get_uint32
bad_reads_drop = refl

read_chunks_refused_example :
    (msgs : List Message) × (dropped : List Message) × (read_chunks codec bad_reads
      ≡ some (msgs, true))
    × (received_message ∷ [] ≡ msgs ++ dropped)
read_chunks_refused_example =
    read_chunks_refused codec bad_reads decoded_bad (too_large_packet 17 16) nothing_yet
      bad_reads-decode refl

read_loop_lem_example :
    read_loop codec reads
      (record { handed = []; metrics = some (record { bytes_in = 5; msgs_recv = 0 }) })
    ≡ some (
      record {
        handed = received_message ∷ [];
        metrics = some (record { bytes_in = 5 + length (on_wire reads); msgs_recv = 0 + 1 });
      },
      false,
    )
read_loop_lem_example =
    read_loop_lem codec reads decoded_reads (record { bytes_in = 5; msgs_recv = 0 }) nothing_yet
      reads-decode refl

get_property-change_all_example :
    get_property {V = ℕ} (change_all (sets "a" 1 ∷ sets "b" 2 ∷ removes "a" ∷ []) []) "b"
    ≡ (some 2, none)
get_property-change_all_example =
    get_property-change_all (sets "a" 1 ∷ sets "b" 2 ∷ removes "a" ∷ []) "b"
