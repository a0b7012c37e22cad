-- ===== src/Ws/RoundTrip.antt =====
-- Frames are read back as they were written, and what an accepted header guarantees.

use mathlib.Core.List.{append_assoc}
use socketley.Prelude.{
  ℕ, ◌+◌, ◌%◌, ◌^◌, ◌≤◌, ◌<◌, ◌≡◌, true, false, some, [], ◌∷◌, ◌++◌, Bytes, arith, length, take,
  length-append, take-length-append, drop-length-append, leb, Bool-cases, Option-cases, inl, inr,
  if◌then◌else◌,
}
use socketley.Ws.Mask.{Build}
use socketley.Ws.Frame.{
  be_bytes, be_value, ws_write_header, ws_frame_text, ws_max_payload, Header, read_length,
  total_len, accepts, header_of, ws_parse_header, frame_payload, ws_parse_frame,
}

-- Eight length bytes are read back, and what follows them does not matter.
pub eight_value :
    (n : ℕ) (behind : Bytes) → n < 2 ^ 64 → be_value 0 (take 8 (be_bytes 8 n ++ behind)) ≡ n
unfolding be_value be_bytes
eight_value n behind h = omega arith

pub eight_length : (n : ℕ) (behind : Bytes) → length (be_bytes 8 n ++ behind) ≡ 8 + length behind
unfolding be_bytes
eight_length n behind = omega arith

accepts_bounds :
    (len : ℕ) (hdr : Header)
    → accepts len hdr ≡ true
    → (total_len hdr ≤ len)
      × (hdr.payload_len ≤ ws_max_payload)
      × (8 ≤ hdr.opcode → (hdr.payload_len ≤ 125) × (hdr.fin ≡ true))
unfolding accepts
accepts_bounds len hdr e = (ground arith, ground arith, λ control. (ground arith, ground arith))

-- What an accepted header guarantees: the whole frame lies in the buffer, the payload is within the
-- limit, and a control frame is short and not fragmented.
pub ws_parse_header_bounds :
    (buf : Bytes) (hdr : Header)
    → ws_parse_header buf ≡ some hdr
    → (total_len hdr ≤ length buf)
      × (hdr.payload_len ≤ ws_max_payload)
      × (8 ≤ hdr.opcode → (hdr.payload_len ≤ 125) × (hdr.fin ≡ true))
unfolding ws_parse_header
ws_parse_header_bounds [] hdr e = ground arith
ws_parse_header_bounds (b0 ∷ []) hdr e = ground arith
ws_parse_header_bounds (b0 ∷ b1 ∷ behind) hdr e =
    elim (Option-cases (read_length (b1 % 128) behind)) [
      | inl short ↦ ground arith
      | inr (field, read) ↦
          let h = header_of b0 b1 field in
          let checks = accepts_bounds (length (b0 ∷ b1 ∷ behind)) h in
          elim (Bool-cases (accepts (length (b0 ∷ b1 ∷ behind)) h)) [
            | inl good ↦ let same : hdr ≡ h = ground arith in rw same (checks good)
            | inr bad ↦ ground arith
          ]
    ]

-- The header that a parser finds in front of some bytes, for a length of each of the three sizes.
abbrev pub header_size_of : ℕ → ℕ
header_size_of n = if leb n 125 then 2 else if leb n 65535 then 4 else 10

parse_header_of_server :
    (op n : ℕ) (behind : Bytes)
    → op < 8
    → n ≤ ws_max_payload
    → n ≤ length behind
    → ws_parse_header (ws_write_header (128 + op) n ++ behind)
      ≡ some (record {
        opcode = op;
        fin = true;
        masked = false;
        payload_len = n;
        header_size = header_size_of n;
      })
unfolding ws_parse_header ws_write_header read_length accepts be_value
parse_header_of_server op n behind h k room = elim (Bool-cases (leb n 125)) [
  | inl small ↦ rw small (ground arith)
  | inr medium ↦ elim (Bool-cases (leb n 65535)) [
    | inl fits ↦ rw (medium, fits) (ground arith)
    | inr large ↦ rw (medium, large) (ground (arith, eight_value n behind, eight_length n behind))
  ]
]

length-ws_write_header : (op n : ℕ) → length (ws_write_header op n) ≡ header_size_of n
unfolding ws_write_header be_bytes
length-ws_write_header op n = ground arith

-- A text frame of the server is read back, whatever follows it, and exactly its bytes are consumed.
pub ws_parse_frame-ws_frame_text :
    (build : Build) (payload rest : Bytes)
    → length payload ≤ ws_max_payload
    → ws_parse_frame build (ws_frame_text payload ++ rest)
      ≡ some (record { op = 1; payload = payload; consumed = length (ws_frame_text payload) })
unfolding ws_parse_frame ws_frame_text frame_payload
ws_parse_frame-ws_frame_text build payload rest small =
    let n = length payload in
    let header = ws_write_header 0x81 n in
    rw append_assoc (
      ground (
        arith,
        parse_header_of_server 1 n (payload ++ rest) (omega arith) small
            (omega (arith, length-append payload rest)),
        length-ws_write_header 0x81 n,
        length-append header payload,
        drop-length-append header (payload ++ rest),
        take-length-append payload rest,
      ))
