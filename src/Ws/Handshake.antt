-- ===== src/Ws/Handshake.antt =====
-- The opening handshake. SHA-1 and Base64 are OpenSSL's `EVP_Digest` and `EVP_EncodeBlock`: a value
-- of `Crypto`.
use socketley.Prelude.{ℕ, [], ◌∷◌, ◌++◌, Bytes, codes, length, leb, if◌then◌else◌}

pub record Crypto : Type 0 where
  pub evp_sha1 : Bytes → Bytes
  pub evp_encode_block : Bytes → Bytes

abbrev pub ws_guid : Bytes
ws_guid = codes "258EAFA5-E914-47DA-95CA-C5AB0DC85B11"

abbrev pub stack_limit : ℕ
stack_limit = 92

-- A key that fits the stack buffer is joined with the GUID there, a longer one in a string.
unfoldable pub ws_accept_key : Crypto → Bytes → Bytes
ws_accept_key c client_key =
    if leb (length client_key) stack_limit
    then (let combined = client_key ++ ws_guid in c.evp_encode_block (c.evp_sha1 combined))
    else let combined = ([] ++ client_key) ++ ws_guid in c.evp_encode_block (c.evp_sha1 combined)

unfoldable pub ws_accept_key_into : Crypto → Bytes → Bytes → Bytes
ws_accept_key_into c buf client_key =
    if leb (length client_key) stack_limit
    then buf ++ c.evp_encode_block (c.evp_sha1 (client_key ++ ws_guid))
    else buf ++ c.evp_encode_block (c.evp_sha1 (([] ++ client_key) ++ ws_guid))

abbrev pub line_end : Bytes
line_end = 13 ∷ 10 ∷ []

abbrev pub response_head : Bytes
response_head =
    codes "HTTP/1.1 101 Switching Protocols"
    ++ (line_end
        ++ (codes "Upgrade: websocket"
            ++ (line_end
                ++ (codes "Connection: Upgrade" ++ (line_end ++ codes "Sec-WebSocket-Accept: ")))))

unfoldable pub ws_handshake_response : Crypto → Bytes → Bytes
ws_handshake_response c client_key =
    ws_accept_key_into c ([] ++ response_head) client_key ++ (line_end ++ line_end)

unfoldable pub ws_handshake_response_into : Crypto → Bytes → Bytes → Bytes
ws_handshake_response_into c buf client_key =
    ws_accept_key_into c (buf ++ response_head) client_key ++ (line_end ++ line_end)
