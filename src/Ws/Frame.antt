-- ===== src/Ws/Frame.antt =====
-- Frames: `ws_write_header`, the encoders, `ws_parse_header` and the two frame parsers.
use socketley.Prelude.{
  ℕ, zero, suc, ◌+◌, ◌*◌, ◌/◌, ◌%◌, ◌^◌, Bool, ◌&&◌, not, Option, none, some, [], ◌∷◌, ◌++◌, Bytes,
  length, take, drop, ltb, leb, ◌==◌, if◌then◌else◌,
}
use socketley.Ws.Mask.{Mask, Build, ws_unmask_payload}

abbrev pub ws_op_text : ℕ
ws_op_text = 0x1

abbrev pub ws_op_close : ℕ
ws_op_close = 0x8

abbrev pub ws_op_pong : ℕ
ws_op_pong = 0xA

abbrev pub ws_max_payload : ℕ
ws_max_payload = 16 * 1024 * 1024

-- FIN and the close opcode, the length 2, and the code 1000.
abbrev pub ws_close_frame_data : Bytes
ws_close_frame_data = 0x88 ∷ 2 ∷ 0x03 ∷ 0xE8 ∷ []

-- The `count` lowest bytes of a number, the most significant first: the loop over the shifts.
unfoldable pub be_bytes : ℕ → ℕ → Bytes
be_bytes zero n = []
be_bytes (suc count) n = (n / 256 ^ count % 256) ∷ be_bytes count n

-- `len = (len << 8) | byte`, over the bytes in order.
unfoldable pub be_value : ℕ → Bytes → ℕ
be_value acc [] = acc
be_value acc (b ∷ bytes) = be_value (acc * 256 + b) bytes

unfoldable pub ws_write_header : ℕ → ℕ → Bytes
ws_write_header opcode_with_fin payload_len =
    if leb payload_len 125
    then opcode_with_fin ∷ payload_len ∷ []
    else if leb payload_len 65535
    then opcode_with_fin ∷ 126 ∷ (payload_len / 256 % 256) ∷ (payload_len % 256) ∷ []
    else opcode_with_fin ∷ 127 ∷ be_bytes 8 payload_len

unfoldable pub ws_frame_text : Bytes → Bytes
ws_frame_text payload = ws_write_header 0x81 (length payload) ++ payload

-- A control frame holds 125 bytes at most.
unfoldable pub ws_frame_pong : Bytes → Bytes
ws_frame_pong payload =
    let short = if ltb 125 (length payload) then take 125 payload else payload in
    0x8A ∷ length short ∷ short

unfoldable pub ws_frame_close : Bytes
ws_frame_close = ws_close_frame_data

-- The variants that append to a buffer.
unfoldable pub ws_frame_text_into : Bytes → Bytes → Bytes
ws_frame_text_into buf payload = buf ++ (ws_write_header 0x81 (length payload) ++ payload)

unfoldable pub ws_frame_pong_into : Bytes → Bytes → Bytes
ws_frame_pong_into buf payload =
    let short = if ltb 125 (length payload) then take 125 payload else payload in
    buf ++ 0x8A ∷ length short ∷ short

unfoldable pub ws_frame_close_into : Bytes → Bytes
ws_frame_close_into buf = buf ++ ws_close_frame_data

pub record Header : Type 0 where
  pub opcode : ℕ
  pub fin : Bool
  pub masked : Bool
  pub payload_len : ℕ
  pub header_size : ℕ

-- The length field and the size of the header, by the seven bits of the second byte.
unfoldable pub read_length : ℕ → Bytes → Option (ℕ × ℕ)
read_length short behind =
    if short == 126
    then (if ltb (length behind) 2 then none else some (be_value 0 (take 2 behind), 4))
    else if short == 127
    then (if ltb (length behind) 8 then none else some (be_value 0 (take 8 behind), 10))
    else some (short, 2)

abbrev pub mask_size : Header → ℕ
mask_size hdr = if hdr.masked then 4 else 0

-- The whole length of the frame.
abbrev pub total_len : Header → ℕ
total_len hdr = hdr.header_size + mask_size hdr + hdr.payload_len

-- The checks behind the reading of the length, in the source's order.
unfoldable pub accepts : ℕ → Header → Bool
accepts len hdr =
    not (ltb ws_max_payload hdr.payload_len)
    && not (leb 0x8 hdr.opcode && ltb 125 hdr.payload_len)
    && not (leb 0x8 hdr.opcode && not hdr.fin)
    && not (ltb len (total_len hdr))

abbrev pub header_of : ℕ → ℕ → ℕ × ℕ → Header
header_of b0 b1 (n, size) = record {
  opcode = b0 % 16;
  fin = leb 128 b0;
  masked = leb 128 b1;
  payload_len = n;
  header_size = size;
}

unfoldable pub ws_parse_header : Bytes → Option Header
ws_parse_header (b0 ∷ b1 ∷ behind) = elim (read_length (b1 % 128) behind) [
  | none ↦ none
  | some field ↦
      let hdr = header_of b0 b1 field in
      if accepts (length (b0 ∷ b1 ∷ behind)) hdr then some hdr else none
]
ws_parse_header _ = none

-- The mask that stands at the front of some bytes.
unfoldable pub mask_of : Bytes → Mask
mask_of (a ∷ b ∷ c ∷ d ∷ _) = record { m0 = a; m1 = b; m2 = c; m3 = d }
mask_of _ = record { m0 = 0; m1 = 0; m2 = 0; m3 = 0 }

pub record Frame : Type 0 where
  pub op : ℕ
  pub payload : Bytes
  pub consumed : ℕ

unfoldable pub frame_payload : Build → Header → Bytes → Bytes
frame_payload build hdr data' =
    let payload = take hdr.payload_len (drop (hdr.header_size + mask_size hdr) data') in
    if hdr.masked
    then ws_unmask_payload build (mask_of (drop hdr.header_size data')) payload
    else payload

unfoldable pub ws_parse_frame : Build → Bytes → Option Frame
ws_parse_frame build data' = elim (ws_parse_header data') [
  | none ↦ none
  | some hdr ↦ some (record {
    op = hdr.opcode;
    payload = frame_payload build hdr data';
    consumed = total_len hdr;
  })
]

-- The view that `ws_parse_frame_inplace` sets: where the payload begins and how long it is.
pub record FrameView : Type 0 where
  pub view_opcode : ℕ
  pub view_fin : Bool
  pub payload_ptr : ℕ
  pub view_len : ℕ
  pub view_consumed : ℕ

abbrev pub view_of : Header → FrameView
view_of hdr = record {
  view_opcode = hdr.opcode;
  view_fin = hdr.fin;
  payload_ptr = hdr.header_size + mask_size hdr;
  view_len = hdr.payload_len;
  view_consumed = total_len hdr;
}

-- The buffer with its payload unmasked where it stands.
unfoldable pub unmask_at : Build → Header → Bytes → Bytes
unmask_at build hdr data' =
    let start = hdr.header_size + mask_size hdr in
    if hdr.masked
    then take start data'
      ++ (ws_unmask_payload build (mask_of (drop hdr.header_size data'))
            (take hdr.payload_len (drop start data'))
          ++ drop (total_len hdr) data')
    else data'

unfoldable pub ws_parse_frame_inplace : Build → Bytes → Option (Bytes × FrameView)
ws_parse_frame_inplace build data' = elim (ws_parse_header data') [
  | none ↦ none
  | some hdr ↦ some (unmask_at build hdr data', view_of hdr)
]
