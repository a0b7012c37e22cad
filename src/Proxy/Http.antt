-- ===== src/Proxy/Http.antt =====
-- `parse_http_request_line` and `rewrite_http_request` of proxy_instance.cpp. A `find` of a text is a
-- split at it. `none` is a read outside the buffer.
pub mod Laws
pub mod Parsing
pub mod Names
pub mod Rewriting
use socketley.Prelude.{
  ℕ, ◌+◌, ◌/◌, ◌%◌, Bool, true, false, not, ◌&&◌, ◌||◌, Option, none, some, List, [], ◌∷◌, ◌++◌,
  Bytes, codes, beq, length, drop, leb, ltb, ◌==◌, if◌then◌else◌,
}
use socketley.Prelude.Words.{decimal}
use socketley.Config.Json.{behind_prefix, behind_char, until_char}

abbrev pub line_end : Bytes
line_end = 13 ∷ 10 ∷ []

abbrev pub head_end : Bytes
head_end = 13 ∷ 10 ∷ 13 ∷ 10 ∷ []

abbrev pub onto : ℕ → Option (Bytes × Bytes) → Option (Bytes × Bytes)
onto c none = none
onto c (some (before, behind)) = some (c ∷ before, behind)

-- What stands before the first occurrence of the mark, and what behind.
unfoldable pub split_at : Bytes → Bytes → Option (Bytes × Bytes)
split_at mark [] = none
split_at mark (c ∷ text) =
    let later = onto c (split_at mark text) in
    elim (behind_prefix mark (c ∷ text)) [ none ↦ later | some rest ↦ some ([], rest) ]

abbrev pub join_first : ℕ → List Bytes → List Bytes
join_first c [] = (c ∷ []) ∷ []
join_first c (line ∷ lines) = (c ∷ line) ∷ lines

-- The loops over the lines of the headers: a line ends at a line end or with the text.
unfoldable pub header_lines : Bytes → List Bytes
header_lines [] = []
header_lines (c ∷ []) = (c ∷ []) ∷ []
header_lines (c ∷ d ∷ text) =
    let next = header_lines text in
    let same = join_first c (header_lines (d ∷ text)) in
    if c == 13 && d == 10 then [] ∷ next else same

-- `c | 0x20`
abbrev pub or_20 : ℕ → ℕ
or_20 c = if (c / 32) % 2 == 0 then c + 32 else c

-- The size test and the loop as one recursion.
unfoldable pub header_name_equals : Bytes → Bytes → Bool
header_name_equals [] lower_name = false
header_name_equals (c ∷ line) [] = c == b':'
header_name_equals (c ∷ line) (d ∷ lower_name) = or_20 c == d && header_name_equals line lower_name

unfoldable pub lowered_is : Bytes → Bytes → Bool
lowered_is [] [] = true
lowered_is (c ∷ name) (d ∷ lower_name) = or_20 c == d && lowered_is name lower_name
lowered_is _ _ = false

abbrev pub first_is : ℕ → ℕ → Bytes → Bool
first_is upper lower [] = false
first_is upper lower (c ∷ line) = c == upper || c == lower

-- The name before the colon, if there is one, has this size and this text.
abbrev pub name_is : ℕ → Bytes → Bytes → Bool
name_is size lower_name line = elim (until_char b':' line) [
  | none ↦ false
  | some name ↦ length name == size && lowered_is name lower_name
]

unfoldable pub is_content_length : Bytes → Bool
is_content_length line =
    leb 15 (length line)
    && first_is b'C' b'c' line
    && first_is b'-' b'-' (drop 7 line)
    && name_is 14 (codes "content-length") line

unfoldable pub is_transfer_encoding : Bytes → Bool
is_transfer_encoding line =
    leb 15 (length line) && first_is b'T' b't' line && name_is 17 (codes "transfer-encoding") line

unfoldable pub some_line : (Bytes → Bool) → List Bytes → Bool
some_line test [] = false
some_line test (line ∷ lines) = test line || some_line test lines

pub record Request : Type 0 where
  pub method : Bytes
  pub path : Bytes
  pub version : Bytes
  pub partial : Bytes
  pub client_conn_close : Bool

-- Both a length and a transfer encoding.
abbrev pub smuggles : List Bytes → Bool
smuggles lines = some_line is_content_length lines && some_line is_transfer_encoding lines

-- The second half of `parse_http_request_line`; `line` is the request line. The headers are given by a
-- pointer and a size; where no header stands between the two ends, the size wraps.
unfoldable pub check_headers : Bytes → Request → Option (Bool × Request)
check_headers line conn = elim (split_at head_end conn.partial) [
  | none ↦ some (true, conn)
  | some (head, body) ↦
      if ltb (length head) (length line + 2)
      then none
      else some (not (smuggles (header_lines (drop (length line + 2) head))), conn)
]

unfoldable pub parse_http_request_line : Request → Option (Bool × Request)
parse_http_request_line conn = elim (split_at line_end conn.partial) [
  | none ↦ some (false, conn)
  | some (line, rest) ↦ elim (split_at (32 ∷ []) line) [
    | none ↦ some (false, conn)
    | some (verb, more) ↦ elim (split_at (32 ∷ []) more) [
      | none ↦ some (false, conn)
      | some (target, last) ↦
          check_headers line (record conn { method = verb; path = target; version = last })
    ]
  ]
]

-- The header that names the backend, which is a host and a port.
unfoldable pub host_line : Bytes × ℕ → Bytes
host_line (host, port) = codes "Host: " ++ (host ++ (b':' ∷ (decimal port ++ line_end)))

abbrev pub is_hop_by_hop : Bytes → Bool
is_hop_by_hop line =
    header_name_equals line (codes "connection")
    || header_name_equals line (codes "keep-alive")
    || header_name_equals line (codes "proxy-authenticate")
    || header_name_equals line (codes "proxy-authorization")
    || header_name_equals line (codes "te")
    || header_name_equals line (codes "trailer")
    || header_name_equals line (codes "upgrade")

abbrev pub is_host : Bytes → Bool
is_host line = header_name_equals line (codes "host")

-- The value of a `Connection` header, without the blanks before it, starts with `cl`.
unfoldable pub skip_blanks_only : Bytes → Bytes
skip_blanks_only [] = []
skip_blanks_only (c ∷ val) = let rest = skip_blanks_only val in if c == 32 then rest else c ∷ val

abbrev pub asks_close : Bytes → Bool
asks_close (c ∷ d ∷ val) = leb 3 (length val) && or_20 c == b'c' && or_20 d == b'l'
asks_close _ = false

unfoldable pub closes : Bytes → Bool
closes line = header_name_equals line (codes "connection") && (elim (behind_char b':' line) [
  | none ↦ false
  | some val ↦ asks_close (skip_blanks_only val)
])

-- One round of the loop over the headers, as the text that it appends.
unfoldable pub forward_line : Option (Bytes × ℕ) → Bytes → Bytes
forward_line backend line =
    if is_host line
    then (elim backend [ none ↦ line ++ line_end | some b ↦ host_line b ])
    else if is_hop_by_hop line
    then []
    else line ++ line_end

unfoldable pub forward_lines : Option (Bytes × ℕ) → List Bytes → Bytes
forward_lines backend [] = []
forward_lines backend (line ∷ lines) = forward_line backend line ++ forward_lines backend lines

abbrev pub added_host : Option (Bytes × ℕ) → List Bytes → Bytes
added_host none lines = []
added_host (some b) lines = if some_line is_host lines then [] else host_line b

abbrev pub connection_line : Bool → Bytes
connection_line true = codes "Connection: close" ++ line_end
connection_line false = codes "Connection: keep-alive" ++ line_end

-- The headers and the body of what follows the request line.
abbrev pub sections : Bytes → Bytes × Bytes
sections remaining = elim (split_at head_end remaining) [
  | none ↦ (remaining, [])
  | some parts ↦ parts
]

-- `backend` is the one that was selected, where its index is in range.
unfoldable pub rewrite_http_request :
    Option (Bytes × ℕ) → Bytes → Request → Option (Bytes × Request)
rewrite_http_request backend new_path conn = elim (split_at line_end conn.partial) [
  | none ↦ none
  | some (line, remaining) ↦
      let (headers, body) = sections remaining in
      let lines = header_lines headers in
      let close = conn.client_conn_close || some_line closes lines in
      some (
        conn.method
            ++ (32
                ∷ (new_path
                    ++ (32
                        ∷ (conn.version
                            ++ (line_end
                                ++ (forward_lines backend lines
                                    ++ (added_host backend lines
                                        ++ (connection_line close ++ (line_end ++ body))))))))),
        record conn { partial = []; client_conn_close = close },
      )
]
