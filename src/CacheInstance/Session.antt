-- ===== src/CacheInstance/Session.antt =====
-- What a command reads and writes: the members of `cache_instance`, the connection of the command, and
-- what the command finds in the world. A handler returns none where the store's operation is undefined.
use Prim.Native.String.{String}
use socketley.Prelude.{
  ℕ, ◌^◌, Bool, true, false, not, ◌||◌, Option, none, some, List, [], ◌∷◌, ◌++◌, Bytes, codes,
  length, get_elem?, ltb, if◌then◌else◌,
}
use socketley.Prelude.Int.{ℤ}
use socketley.Prelude.Words.{value, from_chars}
use socketley.Cache.State.{Store}
use socketley.Cache.Eviction.{Rng}
use socketley.Cache.Keys.{FnMatch}
use socketley.Cache.Expiry.{check_expiry}
use socketley.Resp.Encode.{
  encode_ok_into, encode_null_into, encode_error_into, encode_integer_into, encode_bulk_into,
  encode_array_header_into,
}
use socketley.CacheInstance.Connection.{Connection, is_empty_list}

pub data CacheMode : Type 0 where
  readonly readwrite admin : CacheMode

pub data ReplRole : Type 0 where
  repl_none repl_leader repl_follower : ReplRole

abbrev pub is_leader : ReplRole → Bool
is_leader repl_leader = true
is_leader _ = false

-- `others` are the open connections but the command's own; `sent_lines` the lines sent to followers.
pub record Session : Type 0 where
  pub store : Store
  pub mode : CacheMode
  pub has_ttl_keys : Bool
  pub stat_commands : ℕ
  pub get_hits : ℕ
  pub get_misses : ℕ
  pub repl_role : ReplRole
  pub follower_fds : List ℕ
  pub sent_lines : List (ℕ × Bytes)
  pub persistent_path : Bytes
  pub resp_forced : Bool
  pub conn : Connection
  pub others : List Connection

-- What one command meets: whether the rate limits admit it, the steady clock in nanoseconds when it is
-- read first and when it is read again behind that, the system clock in seconds and in milliseconds, and
-- the draws; the clock and the draws for each key, pair or element of a command that has several;
-- `fnmatch`, which followers take a line, and whether the kernel has zero-copy sends; whether a save
-- succeeds, and the file behind the path, where it can be opened and mapped.
pub record World : Type 0 where
  pub admitted : Bool
  pub now : ℤ
  pub later : ℤ
  pub now_each : ℕ → ℤ
  pub unix_seconds : ℤ
  pub unix_ms : ℤ
  pub draws : Rng
  pub draws_each : ℕ → Rng
  pub fnmatch : FnMatch
  pub takes_line : ℕ → Bool
  pub send_zc : Bool
  pub saved : Bool
  pub snapshot : Option Bytes

-- `args[i]`, which the tests of `argc` guard.
abbrev pub arg : ℕ → List Bytes → Bytes
arg i args = elim (get_elem? args i) [ none ↦ [] | some a ↦ a ]

abbrev pub put : Bytes → Session → Session
put buf x = let c = x.conn in record x { conn = record c { response_buf = buf } }

abbrev pub reply_ok : Session → Session
reply_ok x = put (encode_ok_into x.conn.response_buf) x

abbrev pub reply_null : Session → Session
reply_null x = put (encode_null_into x.conn.response_buf) x

abbrev pub reply_error : String → Session → Session
reply_error msg x = put (encode_error_into x.conn.response_buf (codes msg)) x

abbrev pub reply_integer : ℤ → Session → Session
reply_integer n x = put (encode_integer_into x.conn.response_buf n) x

abbrev pub reply_bulk : Bytes → Session → Session
reply_bulk str x = put (encode_bulk_into x.conn.response_buf str) x

abbrev pub reply_header : ℤ → Session → Session
reply_header n x = put (encode_array_header_into x.conn.response_buf n) x

-- A pointer to a string: the string, or null.
abbrev pub reply_ptr : Option Bytes → Session → Session
reply_ptr none x = reply_null x
reply_ptr (some val) x = reply_bulk val x

unfoldable pub reply_bulks : List Bytes → Session → Session
reply_bulks [] x = x
reply_bulks (b ∷ bs) x = reply_bulks bs (reply_bulk b x)

-- The test of `argc`, and that of the mode.
abbrev pub needs : ℕ → List Bytes → Session → Option Session → Option Session
needs argc args x body =
    if ltb (length args) argc then some (reply_error "wrong number of arguments" x) else body

abbrev pub is_readonly : CacheMode → Bool
is_readonly readonly = true
is_readonly readwrite = false
is_readonly admin = false

abbrev pub writable : Session → Option Session → Option Session
writable x body = if is_readonly x.mode then some (reply_error "readonly mode" x) else body

abbrev pub with_store : Store → Session → Session
with_store s x = record x { store = s }

unfoldable pub live : World → Bytes → Session → Session
live w key x = with_store (check_expiry key w.now x.store) x

-- `std::from_chars` into a signed type of this half range, whatever follows the number.
unfoldable pub number : ℕ → Bytes → Option ℤ
number half text = elim (from_chars half text) [ value v rest ↦ some v | _ ↦ none ]

abbrev pub int_half : ℕ
int_half = 2 ^ 31

abbrev pub int64_half : ℕ
int64_half = 2 ^ 63

-- The arguments with a blank between each two.
unfoldable pub join_args : List Bytes → Bytes
join_args [] = []
join_args (a ∷ []) = a
join_args (a ∷ b ∷ args) = a ++ 32 ∷ join_args (b ∷ args)

unfoldable pub kept : (ℕ → Bool) → List ℕ → List ℕ
kept takes [] = []
kept takes (fd ∷ fds) = let rest = kept takes fds in if takes fd then fd ∷ rest else rest

unfoldable pub addressed : Bytes → List ℕ → List (ℕ × Bytes)
addressed line [] = []
addressed line (fd ∷ fds) = (fd, line) ∷ addressed line fds

-- A follower that does not take the line is closed and forgotten.
unfoldable pub replicate_command : World → Bytes → Session → Session
replicate_command w cmd x =
    if not (is_leader x.repl_role) || is_empty_list x.follower_fds
    then x
    else let fds = kept w.takes_line x.follower_fds in
      record x { follower_fds = fds; sent_lines = x.sent_lines ++ addressed (cmd ++ 10 ∷ []) fds }

-- The helper `repl`.
unfoldable pub repl : World → List Bytes → Session → Session
repl w args x =
    if not (is_leader x.repl_role) || is_empty_list x.follower_fds
    then x
    else replicate_command w (join_args args) x
