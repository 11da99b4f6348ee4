-- ===== src/Codec/Tests.antt =====
-- Runs of knet/datapack.go on small streams.
use kinz.Base.{ℕ, ◌≡◌, refl, List, [], ◌∷◌, ◌++◌, All, none, some, arith}
use kinz.Codec.{
  little_endian, big_endian, Message, TlvPack, too_large_packet, Decoded, new_tlv_pack_with_order,
  clone, new_message, push_bytes, get_uint32, put_uint32, next_frame, incomplete, take_body,
  decode_loop, decode, pack,
}
use kinz.Codec.Framing.{IsPackable, received}
use kinz.Codec.Bytes.{IsByte}
use kinz.Codec.Stream.{Keeps}
use kinz.Codec.Cuts.{decode-Keeps, decode-append}
use kinz.Codec.RoundTrip.{pack_all, decode-pack_all, pack_all-decode}

-- A codec with a limit of 16 bytes.
abbrev codec_with : List ℕ → TlvPack
codec_with input = record { order = little_endian; max_packet_size = 16; input = input }

abbrev one_byte : ℕ → ℕ → Message
one_byte id b = record {
  id = id;
  data_len = 1;
  payload = b ∷ [];
  raw = 1 ∷ 0 ∷ 0 ∷ 0 ∷ id ∷ 0 ∷ 0 ∷ 0 ∷ [];
}

-- A message and the first bytes of another, and the rest of that.
abbrev part_a : List ℕ
part_a = 1 ∷ 0 ∷ 0 ∷ 0 ∷ 7 ∷ 0 ∷ 0 ∷ 0 ∷ 42 ∷ 1 ∷ 0 ∷ []

abbrev part_b : List ℕ
part_b = 0 ∷ 0 ∷ 8 ∷ 0 ∷ 0 ∷ 0 ∷ 43 ∷ 5 ∷ []

-- A message, and the header of one of 17 bytes.
abbrev over_limit : List ℕ
over_limit = 1 ∷ 0 ∷ 0 ∷ 0 ∷ 7 ∷ 0 ∷ 0 ∷ 0 ∷ 42 ∷ 17 ∷ 0 ∷ 0 ∷ 0 ∷ 9 ∷ 0 ∷ 0 ∷ 0 ∷ []

abbrev decoded_a : Decoded
decoded_a = record { msgs = one_byte 7 42 ∷ []; error = none; codec = codec_with (1 ∷ 0 ∷ []) }

abbrev decoded_b : Decoded
decoded_b = record { msgs = one_byte 8 43 ∷ []; error = none; codec = codec_with (5 ∷ []) }

abbrev decoded_over : Decoded
decoded_over = record {
  msgs = one_byte 7 42 ∷ [];
  error = some (too_large_packet 17 16);
  codec = codec_with (17 ∷ 0 ∷ 0 ∷ 0 ∷ 9 ∷ 0 ∷ 0 ∷ 0 ∷ []);
}

decode-part_a : decode (codec_with []) part_a ≡ some decoded_a
unfolding decode decode_loop next_frame take_body get_uint32
decode-part_a = refl

decode-part_b : decode decoded_a.codec part_b ≡ some decoded_b
unfolding decode decode_loop next_frame take_body get_uint32
decode-part_b = refl

decode-over_limit : decode (codec_with []) over_limit ≡ some decoded_over
unfolding decode decode_loop next_frame take_body get_uint32
decode-over_limit = refl

decode_big_endian :
    decode (new_tlv_pack_with_order (some big_endian) 0) (0 ∷ 0 ∷ 0 ∷ 0 ∷ 0 ∷ 0 ∷ 1 ∷ 2 ∷ [])
    ≡ some (record {
      msgs =
          record { id = 258; data_len = 0; payload = []; raw = 0 ∷ 0 ∷ 0 ∷ 0 ∷ 0 ∷ 0 ∷ 1 ∷ 2 ∷ [] }
          ∷ [];
      error = none;
      codec = new_tlv_pack_with_order (some big_endian) 0;
    })
unfolding new_tlv_pack_with_order decode decode_loop next_frame take_body get_uint32
decode_big_endian = refl

pack_little_endian :
    pack (codec_with []) (new_message 7 (42 ∷ [])) ≡ 1 ∷ 0 ∷ 0 ∷ 0 ∷ 7 ∷ 0 ∷ 0 ∷ 0 ∷ 42 ∷ []
unfolding pack put_uint32 new_message
pack_little_endian = refl

decode-Keeps_example :
    (d : Decoded) × (decode (codec_with []) over_limit ≡ some d)
    × Keeps (push_bytes (codec_with []) over_limit) d.msgs d.codec
decode-Keeps_example = decode-Keeps (codec_with []) over_limit

decode-append_example :
    decode (codec_with []) (part_a ++ part_b)
    ≡ some (record {
      msgs = one_byte 7 42 ∷ one_byte 8 43 ∷ [];
      error = none;
      codec = codec_with (5 ∷ []);
    })
decode-append_example =
    decode-append (codec_with []) part_a part_b decoded_a decoded_b decode-part_a refl decode-part_b

abbrev two_messages : List Message
two_messages = new_message 7 (42 ∷ []) ∷ new_message 8 (43 ∷ 44 ∷ []) ∷ []

two_messages-IsPackable : All (IsPackable (codec_with [])) two_messages
unfolding new_message
two_messages-IsPackable = (
  record { size = refl; limit = refl; len_range = omega arith; id_range = omega arith },
  (record { size = refl; limit = refl; len_range = omega arith; id_range = omega arith }, tt),
)

nine_incomplete : next_frame (codec_with (9 ∷ [])) ≡ incomplete
unfolding next_frame
nine_incomplete = refl

decode-pack_all_example :
    decode (clone (codec_with [])) (pack_all (codec_with []) two_messages ++ (9 ∷ []))
    ≡ some (record {
      msgs =
          received (codec_with []) (new_message 7 (42 ∷ []))
          ∷ received (codec_with []) (new_message 8 (43 ∷ 44 ∷ []))
          ∷ [];
      error = none;
      codec = codec_with (9 ∷ []);
    })
decode-pack_all_example =
    decode-pack_all (codec_with []) two_messages (9 ∷ []) two_messages-IsPackable nine_incomplete

part_b_bytes : All IsByte (1 ∷ 0 ∷ part_b)
part_b_bytes = ground arith

pack_all-decode_example :
    pack_all (codec_with (1 ∷ 0 ∷ [])) (one_byte 8 43 ∷ []) ++ (5 ∷ []) ≡ 1 ∷ 0 ∷ part_b
pack_all-decode_example =
    pack_all-decode (codec_with (1 ∷ 0 ∷ [])) part_b decoded_b part_b_bytes decode-part_b
