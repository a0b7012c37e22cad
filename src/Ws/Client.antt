-- ===== src/Ws/Client.antt =====
-- Masked frames, as a client writes them, and the parser that unmasks in place.
use Prim.Native.Nat.{bit_xor}
use mathlib.Core.List.{append_assoc}
use mathlib.Core.Option
use socketley.Prelude.{
  ℕ, zero, suc, ◌+◌, ◌≤◌, ◌<◌, ◌≡◌, ◌∙◌, refl, sym, ap, Bool, true, ◌&&◌, some, [], ◌∷◌, ◌++◌,
  Bytes, arith, length, take, drop, length-append, length-take, length-drop, take-length-append,
  drop-length-append, leb, ◌==◌, ==_iff, Bool-cases, Option-cases, inl, inr,
}
use socketley.Ws.Mask.{Mask, Build, bytewise, ws_unmask_payload, ws_unmask_payload-eq, mask_byte}
use socketley.Ws.Frame.{
  be_bytes, be_value, ws_write_header, ws_max_payload, Header, read_length, mask_size, total_len,
  accepts, ws_parse_header, mask_of, Frame, frame_payload, ws_parse_frame, FrameView,
  ws_parse_frame_inplace, unmask_at, view_of,
}
use socketley.Ws.RoundTrip.{header_size_of, eight_value, eight_length, ws_parse_header_bounds}

-- A frame as a client writes it: the mask bit set, and the payload masked.
unfoldable pub set_mask_bit : Bytes → Bytes
set_mask_bit (b0 ∷ b1 ∷ behind) = b0 ∷ (128 + b1) ∷ behind
set_mask_bit header = header

abbrev pub mask_bytes : Mask → Bytes
mask_bytes m = m.m0 ∷ m.m1 ∷ m.m2 ∷ m.m3 ∷ []

unfoldable pub client_frame : ℕ → Mask → Bytes → Bytes
client_frame opcode m payload =
    set_mask_bit (ws_write_header (128 + opcode) (length payload))
    ++ (mask_bytes m ++ bytewise m 0 payload)

parse_header_of_client :
    (op n : ℕ) (behind : Bytes)
    → op < 8
    → n ≤ ws_max_payload
    → n + 4 ≤ length behind
    → ws_parse_header (set_mask_bit (ws_write_header (128 + op) n) ++ behind)
      ≡ some (record {
        opcode = op;
        fin = true;
        masked = true;
        payload_len = n;
        header_size = header_size_of n;
      })
unfolding ws_parse_header ws_write_header read_length accepts be_value set_mask_bit
parse_header_of_client op n behind h k room = elim (Bool-cases (leb n 125)) [
  | inl small ↦ rw small (ground arith)
  | inr medium ↦ elim (Bool-cases (leb n 65535)) [
    | inl fits ↦ rw (medium, fits) (ground arith)
    | inr large ↦ rw (medium, large) (ground (arith, eight_value n behind, eight_length n behind))
  ]
]

-- Masking twice is the identity on bytes: the 256 by 256 table.
table : (ℕ → Bool) → ℕ → Bool
table test zero = true
table test (suc bound) = table test bound && test bound

-- A test that a table passes is passed by each of its entries.
table_entry : (test : ℕ → Bool) (bound b : ℕ) → b < bound → table test bound ≡ true → test b ≡ true
unfolding table
table_entry test zero b inside passed = absurd (omega arith)
table_entry test (suc bound) b inside passed = ground (arith, table_entry test bound b)

xor_row : ℕ → Bool
xor_row m = table (λ b. bit_xor (bit_xor b m) m == b) 256

xor_table : table xor_row 256 ≡ true
unfolding table xor_row
xor_table = refl

xor_twice : (b m : ℕ) → b < 256 → m < 256 → bit_xor (bit_xor b m) m ≡ b
unfolding xor_row
xor_twice b m h k = (==_iff _ b).0 (table_entry _ 256 b h (table_entry xor_row 256 m k xor_table))

abbrev pub AllBytes : Bytes → Type 0
AllBytes [] = Unit {0}
AllBytes (b ∷ p) = (b < 256) × AllBytes p

mask_byte-lt : (m : Mask) (i : ℕ) → AllBytes (mask_bytes m) → mask_byte m i < 256
unfolding mask_byte
mask_byte-lt m i h = ground arith

bytewise_twice :
    (m : Mask) (i : ℕ) (p : Bytes)
    → AllBytes (mask_bytes m)
    → AllBytes p
    → bytewise m i (bytewise m i p) ≡ p
unfolding bytewise
bytewise_twice m i [] hm hp = refl
bytewise_twice m i (b ∷ p) hm hp =
    cc (xor_twice b (mask_byte m i) hp.0 (mask_byte-lt m i hm), bytewise_twice m (i + 1) p hm hp.1)

length-bytewise : (m : Mask) (i : ℕ) (p : Bytes) → length (bytewise m i p) ≡ length p
unfolding bytewise
length-bytewise m i [] = refl
length-bytewise m i (b ∷ p) = ap suc (length-bytewise m (i + 1) p)

length-set_mask_bit : (op n : ℕ) → length (set_mask_bit (ws_write_header op n)) ≡ header_size_of n
unfolding set_mask_bit ws_write_header be_bytes
length-set_mask_bit op n = ground arith

drop-nil : (n : ℕ) → drop {A = ℕ} n [] ≡ []
drop-nil zero = refl
drop-nil (suc n) = refl

drop-add : (i j : ℕ) (p : Bytes) → drop (i + j) p ≡ drop j (drop i p)
drop-add zero j p = ap (λ k. drop k p) (omega arith)
drop-add (suc i) j [] = drop-nil (suc i + j) ∙ sym (drop-nil j)
drop-add (suc i) j (b ∷ p) =
    let e : suc i + j ≡ suc (i + j) = omega arith in ap (λ k. drop k (b ∷ p)) e ∙ drop-add i j p

-- A client's frame is read back unmasked on every build, whatever follows it, and exactly its bytes
-- are consumed.
pub ws_parse_frame-client_frame :
    (build : Build) (opcode : ℕ) (m : Mask) (payload rest : Bytes)
    → opcode < 8
    → length payload ≤ ws_max_payload
    → AllBytes (mask_bytes m)
    → AllBytes payload
    → ws_parse_frame build (client_frame opcode m payload ++ rest)
      ≡ some (record {
        op = opcode;
        payload = payload;
        consumed = length (client_frame opcode m payload);
      })
unfolding ws_parse_frame client_frame frame_payload mask_of
ws_parse_frame-client_frame build opcode m payload rest h small hm hp =
    let n = length payload in
    let header = set_mask_bit (ws_write_header (128 + opcode) n) in
    let size = header_size_of n in
    let hidden = bytewise m 0 payload in
    let behind = mask_bytes m ++ (hidden ++ rest) in
    let hl = length-set_mask_bit (128 + opcode) n in
    let same = length-bytewise m 0 payload in
    let at_mask : drop size (header ++ behind) ≡ behind =
      ap (λ k. drop k (header ++ behind)) (sym hl) ∙ drop-length-append header behind in
    let at_payload : drop (size + 4) (header ++ behind) ≡ hidden ++ rest =
      drop-add size 4 (header ++ behind) ∙ ap (drop 4) at_mask in
    let cut : take n (hidden ++ rest) ≡ hidden =
      ap (λ k. take k (hidden ++ rest)) (sym same) ∙ take-length-append hidden rest in
    rw append_assoc (
      ground (
        arith,
        parse_header_of_client opcode n behind h small
            (omega (arith, same, length-append hidden rest)),
        at_mask,
        at_payload,
        cut,
        hl,
        same,
        length-append header (mask_bytes m ++ hidden),
        ws_unmask_payload-eq m build hidden,
        bytewise_twice m 0 payload hm hp,
      ))

drop-take-append : (n : ℕ) (p q : Bytes) → n ≤ length p → drop n (take n p ++ q) ≡ q
drop-take-append zero p q h = refl
drop-take-append (suc n) [] q h = absurd (omega arith)
drop-take-append (suc n) (b ∷ p) q h = drop-take-append n p q (omega arith)

take-append : (n : ℕ) (p q : Bytes) → length p ≡ n → take n (p ++ q) ≡ p
take-append n p q h = ap (λ k. take k (p ++ q)) (sym h) ∙ take-length-append p q

-- What a view shows of its buffer.
unfoldable pub seen : Bytes → FrameView → Frame
seen buf view = record {
  op = view.view_opcode;
  payload = take view.view_len (drop view.payload_ptr buf);
  consumed = view.view_consumed;
}

seen_after :
    (build : Build) (buf : Bytes) (hdr : Header)
    → total_len hdr ≤ length buf
    → seen (unmask_at build hdr buf) (view_of hdr)
      ≡ record { op = hdr.opcode; payload = frame_payload build hdr buf; consumed = total_len hdr }
unfolding seen unmask_at frame_payload
seen_after build buf hdr fits =
    let start = hdr.header_size + mask_size hdr in
    let n = hdr.payload_len in
    let m = mask_of (drop hdr.header_size buf) in
    let hidden = take n (drop start buf) in
    let clear = ws_unmask_payload build m hidden in
    let behind = drop (total_len hdr) buf in
    let len : length clear ≡ n =
      ap length (ws_unmask_payload-eq m build hidden)
      ∙ length-bytewise m 0 hidden
      ∙ omega (arith, length-take n (drop start buf), length-drop start buf) in
    ground (arith, drop-take-append start buf (clear ++ behind), take-append n clear behind len)

-- The parser that unmasks in place accepts exactly what the copying one accepts, and its view of the
-- changed buffer shows the same opcode, the same payload and the same count of bytes.
pub ws_parse_frame_inplace-eq :
    (build : Build) (buf : Bytes)
    → Option.map (λ r. seen r.0 r.1) (ws_parse_frame_inplace build buf) ≡ ws_parse_frame build buf
unfolding ws_parse_frame ws_parse_frame_inplace Option.map
ws_parse_frame_inplace-eq build buf = elim (Option-cases (ws_parse_header buf)) [
  | inl bad ↦ ground arith
  | inr (hdr, good) ↦
      ground (arith, seen_after build buf hdr (ws_parse_header_bounds buf hdr good).0)
]
