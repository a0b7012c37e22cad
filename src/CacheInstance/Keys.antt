-- ===== src/CacheInstance/Keys.antt =====
-- The commands on keys of any type, on channels and on the connection in `process_resp_command`, and
-- `publish`.

use socketley.Prelude.{
  suc, ℕ, ◌+◌, ◌^◌, Bool, true, false, Option, none, some, List, [], ◌∷◌, ◌++◌, Bytes, codes,
  length, drop, ltb, leb, ◌==◌, if◌then◌else◌,
}
use socketley.Prelude.Int.{ℤ, pos}
use socketley.Prelude.Words.{decimal, from_chars_unsigned}
use socketley.Cache.State.{Store}
use socketley.Cache.General.{del, exists, size, type, type_name}
use socketley.Cache.Keys
use socketley.Cache.Keys.{star}
use socketley.Cache.PubSub.{subscribe, unsubscribe, get_subscribers}
use socketley.Config.Names.{fnv1a, fnv1a_lower}
use socketley.Resp.Encode.{encode_simple_into, encode_bulk_into}
use socketley.Cache.Expiry.{check_expiry}
use socketley.CacheInstance.Connection.{Connection, enqueue, max_write_queue}
use socketley.CacheInstance.Session.{
  Session, World, arg, put, reply_ok, reply_error, reply_integer, reply_bulk, reply_bulks,
  reply_header, needs, writable, with_store, live, repl,
}

-- The loop of DEL, which counts the keys that were there.
unfoldable pub del_each : (ℕ → ℤ) → List Bytes → ℕ → Session → ℕ × Session
del_each times [] deleted x = (deleted, x)
del_each times (key ∷ keys) deleted x =
    let (there, s) = del key (check_expiry key (times 0) x.store) in
    del_each (λ n. times (suc n)) keys (if there then deleted + 1 else deleted) (with_store s x)

unfoldable pub del_command : World → List Bytes → Session → Option Session
del_command w args x = needs 2 args x (
    writable x (
      let (deleted, y) = del_each w.now_each (drop 1 args) 0 x in
      some (reply_integer (pos deleted) (if ltb 0 deleted then repl w args y else y))))

unfoldable pub exists_command : World → List Bytes → Session → Option Session
exists_command w args x = needs 2 args x (
    let y = live w (arg 1 args) x in
    some (reply_integer (if exists (arg 1 args) y.store then pos 1 else pos 0) y))

unfoldable pub type_command : World → List Bytes → Session → Option Session
type_command w args x = needs 2 args x (
    let y = live w (arg 1 args) x in
    some (
      put (encode_simple_into y.conn.response_buf (codes (type_name (type (arg 1 args) y.store))))
        y))

unfoldable pub keys_command : World → List Bytes → Session → Option Session
keys_command w args x = needs 2 args x (
    let result = Keys.keys w.fnmatch (arg 1 args) x.store in
    some (reply_bulks result (reply_header (pos (length result)) x)))

abbrev pub resp_pong : Bytes
resp_pong = codes "+PONG" ++ 13 ∷ 10 ∷ []

unfoldable pub ping_command : List Bytes → Session → Option Session
ping_command args x = some (
    if leb (length args) 1
    then put (x.conn.response_buf ++ resp_pong) x
    else reply_bulk (arg 1 args) x)

unfoldable pub dbsize_command : Session → Option Session
dbsize_command x = some (reply_integer (pos (size x.store)) x)

-- The options of SCAN: the pattern and the count.
unfoldable pub scan_options : List Bytes → Bytes → ℕ → Bytes × ℕ
scan_options [] pattern count = (pattern, count)
scan_options (word ∷ []) pattern count = (pattern, count)
scan_options (word ∷ next ∷ rest) pattern count = elim (fnv1a_lower word == fnv1a (codes "match")) [
  | true ↦ scan_options rest next count
  | false ↦ elim (fnv1a_lower word == fnv1a (codes "count")) [
    | true ↦
        scan_options rest pattern
          (elim (from_chars_unsigned (2 ^ 64) next) [ none ↦ count | some n ↦ n ])
    | false ↦ scan_options (next ∷ rest) pattern count
  ]
]

unfoldable pub scan_command : World → List Bytes → Session → Option Session
scan_command w args x = needs 2 args x (elim (from_chars_unsigned (2 ^ 64) (arg 1 args)) [
  | none ↦ some (reply_error "ERR invalid cursor" x)
  | some cursor ↦
      let (pattern, count) = scan_options (drop 2 args) star 10 in
      let (next, found) = Keys.scan w.fnmatch cursor pattern count x.store in
      let buf = x.conn.response_buf ++ b'*' ∷ b'2' ∷ 13 ∷ 10 ∷ [] in
      some (
        reply_bulks found
          (reply_header (pos (length found)) (put (encode_bulk_into buf (decimal next)) x)))
])

unfoldable pub subscribe_each : ℕ → List Bytes → Store → Store
subscribe_each fd [] s = s
subscribe_each fd (channel ∷ channels) s = subscribe_each fd channels (subscribe fd channel s)

unfoldable pub unsubscribe_each : ℕ → List Bytes → Store → Store
unsubscribe_each fd [] s = s
unsubscribe_each fd (channel ∷ channels) s = unsubscribe_each fd channels (unsubscribe fd channel s)

unfoldable pub subscribe_command : List Bytes → Session → Option Session
subscribe_command args x =
    needs 2 args x (some (reply_ok (with_store (subscribe_each x.conn.fd (drop 1 args) x.store) x)))

unfoldable pub unsubscribe_command : List Bytes → Session → Option Session
unsubscribe_command args x =
    needs 2 args x
      (some (reply_ok (with_store (unsubscribe_each x.conn.fd (drop 1 args) x.store) x)))

-- A message as a subscriber in either protocol gets it.
unfoldable pub resp_message : Bytes → Bytes → Bytes
resp_message channel message =
    encode_bulk_into
      (encode_bulk_into
        (codes "*3" ++ (13 ∷ 10 ∷ (codes "$7" ++ (13 ∷ 10 ∷ (codes "message" ++ 13 ∷ 10 ∷ [])))))
        channel)
      message

unfoldable pub text_message : Bytes → Bytes → Bytes
text_message channel message = codes "message " ++ (channel ++ (32 ∷ (message ++ 10 ∷ [])))

-- The message for one connection, and how many took it: none that is closing, and one whose queue is
-- full is closed.
unfoldable pub deliver : Bool → Bytes → Bytes → Connection → ℕ × Connection
deliver send_zc channel message c =
    if c.closing
    then (0, c)
    else if leb max_write_queue (length c.write_queue)
    then (0, record c { closing = true })
    else (
      1,
      enqueue send_zc
          (if c.resp_mode then resp_message channel message else text_message channel message) c,
    )

-- `m_conn_idx[fd]`: the open connection of a descriptor.
unfoldable pub deliver_among : Bool → Bytes → Bytes → ℕ → List Connection → ℕ × List Connection
deliver_among send_zc channel message fd [] = (0, [])
deliver_among send_zc channel message fd (c ∷ cs) = elim (c.fd == fd) [
  | true ↦ let (n, d) = deliver send_zc channel message c in (n, d ∷ cs)
  | false ↦ let (n, ds) = deliver_among send_zc channel message fd cs in (n, c ∷ ds)
]

unfoldable pub deliver_to : Bool → Bytes → Bytes → ℕ → Session → ℕ × Session
deliver_to send_zc channel message fd x =
    if x.conn.fd == fd
    then (let (n, c) = deliver send_zc channel message x.conn in (n, record x { conn = c }))
    else let (n, cs) = deliver_among send_zc channel message fd x.others in
      (n, record x { others = cs })

unfoldable pub deliver_each : Bool → Bytes → Bytes → List ℕ → ℕ → Session → ℕ × Session
deliver_each send_zc channel message [] count x = (count, x)
deliver_each send_zc channel message (fd ∷ fds) count x =
    let (n, y) = deliver_to send_zc channel message fd x in
    deliver_each send_zc channel message fds (count + n) y

unfoldable pub publish : World → Bytes → Bytes → Session → ℕ × Session
publish w channel message x = elim (get_subscribers channel x.store) [
  | none ↦ (0, x)
  | some fds ↦ deliver_each w.send_zc channel message fds 0 x
]

unfoldable pub publish_command : World → List Bytes → Session → Option Session
publish_command w args x =
    needs 3 args x
      (let (count, y) = publish w (arg 1 args) (arg 2 args) x in some (reply_integer (pos count) y))

unfoldable pub unknown_command : List Bytes → Session → Option Session
unknown_command args x = some (
    put
      (((x.conn.response_buf ++ codes "-ERR unknown command '") ++ arg 0 args)
        ++ (b'\'' ∷ 13 ∷ 10 ∷ []))
      x)
