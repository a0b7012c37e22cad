-- ===== src/Tests/Protocols.antt =====
-- A command of two words, small frames, and their readers.
use mathlib.Core.Option
use socketley.Prelude.{◌≤◌, ◌≡◌, refl, arith, true, false, some, List, [], ◌∷◌, ◌++◌, Bytes, length}
use socketley.Resp.Decode.{
  ok, parse_message, parse_message_views, count_slow, find_crlf, bounded_number,
}
use socketley.Prelude.Words.{from_chars, read_digits}
use socketley.Resp.RoundTrip.{encode_command, parse_message-encode_command}
use socketley.Resp.Views.{success, announced, parse_message_views-success}
use socketley.Ws.Mask.{Mask, bytewise, avx2, scalar, ws_unmask_payload, ws_unmask_payload-eq}
use socketley.Ws.Frame.{
  Header, total_len, ws_max_payload, ws_parse_header, ws_parse_frame, ws_parse_frame_inplace,
  ws_frame_text, accepts, read_length,
}
use socketley.Ws.RoundTrip.{ws_parse_header_bounds, ws_parse_frame-ws_frame_text}
use socketley.Ws.Client.{client_frame, seen, ws_parse_frame-client_frame, ws_parse_frame_inplace-eq}

abbrev words : List Bytes
words = (71 ∷ 69 ∷ 84 ∷ []) ∷ (107 ∷ []) ∷ []

parse_message-encode_command_example :
    parse_message (encode_command words ++ 42 ∷ []) ≡ ok (words, length (encode_command words))
parse_message-encode_command_example =
    parse_message-encode_command words (42 ∷ []) (omega arith) (ground arith)

-- `*1`, then `$1` and `k`.
abbrev message : Bytes
message = 42 ∷ 49 ∷ 13 ∷ 10 ∷ 36 ∷ 49 ∷ 13 ∷ 10 ∷ 107 ∷ 13 ∷ 10 ∷ []

message_few : announced message ≤ 4
unfolding announced count_slow find_crlf bounded_number from_chars read_digits
message_few = omega arith

parse_message_views-success_example :
    success (parse_message_views 4 message) ≡ success (parse_message message)
parse_message_views-success_example = parse_message_views-success 4 message message_few

abbrev mask : Mask
mask = record { m0 = 1; m1 = 2; m2 = 3; m3 = 255 }

abbrev text : Bytes
text = 104 ∷ 101 ∷ 108 ∷ 108 ∷ 111 ∷ []

ws_unmask_payload-eq_example : ws_unmask_payload avx2 mask text ≡ bytewise mask 0 text
ws_unmask_payload-eq_example = ws_unmask_payload-eq mask avx2 text

abbrev frame : Bytes
frame = 129 ∷ 2 ∷ 104 ∷ 105 ∷ []

abbrev frame_header : Header
frame_header = record { opcode = 1; fin = true; masked = false; payload_len = 2; header_size = 2 }

frame_parses : ws_parse_header frame ≡ some frame_header
unfolding ws_parse_header accepts read_length
frame_parses = refl

ws_parse_header_bounds_example :
    (total_len frame_header ≤ length frame)
    × (frame_header.payload_len ≤ ws_max_payload)
    × (8 ≤ frame_header.opcode → (frame_header.payload_len ≤ 125) × (frame_header.fin ≡ true))
ws_parse_header_bounds_example = ws_parse_header_bounds frame frame_header frame_parses

ws_parse_frame-ws_frame_text_example :
    ws_parse_frame avx2 (ws_frame_text text ++ frame)
    ≡ some (record { op = 1; payload = text; consumed = length (ws_frame_text text) })
ws_parse_frame-ws_frame_text_example = ws_parse_frame-ws_frame_text avx2 text frame (omega arith)

ws_parse_frame-client_frame_example :
    ws_parse_frame avx2 (client_frame 2 mask text ++ frame)
    ≡ some (record { op = 2; payload = text; consumed = length (client_frame 2 mask text) })
ws_parse_frame-client_frame_example =
    ws_parse_frame-client_frame avx2 2 mask text frame (omega arith) (omega arith) (ground arith)
      (ground arith)

ws_parse_frame_inplace-eq_example :
    Option.map (λ r. seen r.0 r.1) (ws_parse_frame_inplace scalar frame)
    ≡ ws_parse_frame scalar frame
ws_parse_frame_inplace-eq_example = ws_parse_frame_inplace-eq scalar frame
