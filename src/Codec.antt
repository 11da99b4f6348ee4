-- ===== src/Codec.antt =====
-- knet/datapack.go and knet/message.go: the TLV wire format [DataLen:4][MsgID:4][Data:DataLen].
-- `Message` is the message of knet/message.go, `TlvPack` the codec with its buffer of bytes that
-- are not decoded yet (the field `in` of the source is `input` here). A method returns the new
-- codec beside its result. Bytes are numbers below 256, uint32 values numbers below 2 ^ 32.
-- The children: Bytes has the byte order laws, Framing one turn of the decoding loop, Stream the
-- loop over a whole buffer, Cuts a stream that comes in several reads, RoundTrip decoding after
-- packing and packing after decoding.
pub mod Bytes
pub mod Framing
pub mod Stream
pub mod Cuts
pub mod RoundTrip
mod Tests
use kinz.Base.{
  ℕ, zero, suc, ◌+◌, ◌*◌, ◌/◌, ◌%◌, ◌^◌, List, [], ◌∷◌, ◌++◌, Option, none, some, length, take,
  drop, Bool, ltb, ◌&&◌, if◌then◌else◌,
}

pub data ByteOrder : Type 0 where
  little_endian big_endian : ByteOrder

pub record Message : Type 0 where
  pub id : ℕ
  pub data_len : ℕ
  pub payload : List ℕ
  pub raw : List ℕ

pub record TlvPack : Type 0 where
  pub order : ByteOrder
  pub max_packet_size : ℕ
  pub input : List ℕ

-- `fmt.Errorf("%w: …", kiface.ErrTooLargePacket, dataLen, maxPacketSize)`
pub data DecodeError : Type 0 where
  too_large_packet : ℕ → ℕ → DecodeError

abbrev pub default_max_packet_size : ℕ
default_max_packet_size = 4096

-- A nil `order` falls back to little endian.
unfoldable pub new_tlv_pack_with_order : Option ByteOrder → ℕ → TlvPack
new_tlv_pack_with_order none max = record {
  order = little_endian;
  max_packet_size = max;
  input = [];
}
new_tlv_pack_with_order (some order) max = record {
  order = order;
  max_packet_size = max;
  input = [];
}

unfoldable pub new_tlv_pack : TlvPack
unfolding new_tlv_pack_with_order
new_tlv_pack = new_tlv_pack_with_order (some little_endian) default_max_packet_size

unfoldable pub clone : TlvPack → TlvPack
clone t = record { order = t.order; max_packet_size = t.max_packet_size; input = [] }

-- The conversion `uint32(len(data))` wraps.
unfoldable pub new_message : ℕ → List ℕ → Message
new_message id payload = record {
  id = id;
  data_len = length payload % 2 ^ 32;
  payload = payload;
  raw = [];
}

unfoldable pub set_msg_id : Message → ℕ → Message
set_msg_id m id = record m { id = id }

unfoldable pub set_data : Message → List ℕ → Message
set_data m payload = record m { payload = payload }

unfoldable pub set_data_len : Message → ℕ → Message
set_data_len m l = record m { data_len = l }

-- `order.Uint32` on the first four bytes. Fewer would panic; `decode` calls it on eight or more.
unfoldable pub get_uint32 : ByteOrder → List ℕ → ℕ
get_uint32 little_endian (a ∷ b ∷ c ∷ d ∷ rest) = a + 256 * b + 65536 * c + 16777216 * d
get_uint32 big_endian (a ∷ b ∷ c ∷ d ∷ rest) = 16777216 * a + 65536 * b + 256 * c + d
get_uint32 _ _ = 0

-- `binary.Write(buf, order, v)` of a uint32.
unfoldable pub put_uint32 : ByteOrder → ℕ → List ℕ
put_uint32 little_endian v = v % 256 ∷ v / 256 % 256 ∷ v / 65536 % 256 ∷ v / 16777216 % 256 ∷ []
put_uint32 big_endian v = v / 16777216 % 256 ∷ v / 65536 % 256 ∷ v / 256 % 256 ∷ v % 256 ∷ []

-- What one turn of the loop of `Decode` finds at the front of the buffer.
pub data Frame : Type 0 where
  incomplete : Frame
  refused : DecodeError → Frame
  complete : Message → List ℕ → Frame

-- The limit applies only if it is positive.
abbrev pub exceeds : ℕ → ℕ → Bool
exceeds max len = ltb 0 max && ltb max len

-- The body of the frame, once its header is there and within the limit.
unfoldable pub take_body : List ℕ → ℕ → ℕ → Frame
take_body input data_len msg_id =
    let total = 8 + data_len in
    if ltb (length input) total
    then incomplete
    else complete
        (record {
          id = msg_id;
          data_len = data_len;
          payload = drop 8 (take total input);
          raw = take 8 input;
        })
        (drop total input)

unfoldable pub next_frame : TlvPack → Frame
unfolding take_body
next_frame t =
    let data_len = get_uint32 t.order (take 4 t.input) in
    let msg_id = get_uint32 t.order (take 4 (drop 4 t.input)) in
    if ltb (length t.input) 8
    then incomplete
    else if exceeds t.max_packet_size data_len
    then refused (too_large_packet data_len t.max_packet_size)
    else take_body t.input data_len msg_id

-- What `Decode` returns, and the codec that it leaves.
pub record Decoded : Type 0 where
  pub msgs : List Message
  pub error : Option DecodeError
  pub codec : TlvPack

-- The loop of `Decode`; `none` means that the fuel ran out. Every turn that goes on takes eight
-- bytes or more from the buffer.
unfoldable pub decode_loop : ℕ → TlvPack → List Message → Option Decoded
decode_loop zero t msgs = none
decode_loop (suc fuel) t msgs = elim (next_frame t) [
  | incomplete ↦ some (record { msgs = msgs; error = none; codec = t })
  | refused e ↦ some (record { msgs = msgs; error = some e; codec = t })
  | complete m rest ↦ decode_loop fuel (record t { input = rest }) (msgs ++ (m ∷ []))
]

abbrev pub push_bytes : TlvPack → List ℕ → TlvPack
push_bytes t buff = record t { input = t.input ++ buff }

unfoldable pub decode : TlvPack → List ℕ → Option Decoded
unfolding decode_loop
decode t buff = let t' = push_bytes t buff in decode_loop (suc (length t'.input)) t' []

-- Writing to a `bytes.Buffer` does not fail, so neither does `Pack`.
unfoldable pub pack : TlvPack → Message → List ℕ
unfolding put_uint32
pack t m = put_uint32 t.order m.data_len ++ (put_uint32 t.order m.id ++ m.payload)
