-- ===== src/CacheInstance/Text/Keys.antt =====
-- The commands on keys of any type, on snapshots, channels, memory and replication in
-- `process_command`.

use socketley.Prelude.{
  ◌^◌, Bool, true, false, not, Option, none, some, [], ◌∷◌, ◌++◌, Bytes, if◌then◌else◌,
}
use socketley.Prelude.Int.{pos}
use socketley.Prelude.Words.{from_chars_unsigned}
use socketley.Cache.General.{del, exists, size, type, type_name}
use socketley.Cache.Keys
use socketley.Cache.Keys.{star}
use socketley.Cache.Persist.File.{load}
use socketley.Cache.PubSub.{subscribe, unsubscribe}
use socketley.CacheInstance.Connection.{is_empty_list}
use socketley.CacheInstance.Session.{
  CacheMode, admin, repl_leader, repl_follower, Session, World, with_store, live, replicate_command,
}
use socketley.CacheInstance.Keys.{scan_options, publish}
use socketley.CacheInstance.Text.{
  say, say_integer, say_lines, key_of, args_behind, blank_words, denied, given, as_int64,
}

unfoldable pub text_del : World → Bytes → Bytes → Session → Option Session
text_del w line args x = denied x (
    let y = live w args x in
    let (there, s) = del args y.store in
    some (
      if there
      then replicate_command w line (say "ok" (with_store s y))
      else say "nil" (with_store s y)))

unfoldable pub text_exists : World → Bytes → Session → Option Session
text_exists w args x =
    let y = live w args x in some (if exists args y.store then say "1" y else say "0" y)

unfoldable pub text_type : World → Bytes → Session → Option Session
text_type w args x = let y = live w args x in some (say (type_name (type args y.store)) y)

unfoldable pub text_keys : World → Bytes → Session → Option Session
text_keys w args x =
    let pattern = if is_empty_list args then star else args in
    some (say "end" (say_lines (Keys.keys w.fnmatch pattern x.store) x))

unfoldable pub text_scan : World → Bytes → Session → Option Session
text_scan w args x = elim (from_chars_unsigned (2 ^ 64) (key_of args)) [
  | none ↦ some (say "error: invalid cursor" x)
  | some cursor ↦
      let (pattern, count) = scan_options (blank_words (args_behind args)) star 10 in
      let (next, found) = Keys.scan w.fnmatch cursor pattern count x.store in
      some (say "end" (say_lines found (say_integer (as_int64 next) x)))
]

abbrev pub is_admin : CacheMode → Bool
is_admin admin = true
is_admin _ = false

-- FLUSH and LOAD want the mode `admin` and a path.
abbrev pub with_path : Session → Option Session → Option Session
with_path x body =
    if not (is_admin x.mode)
    then some (say "denied: admin mode required" x)
    else if is_empty_list x.persistent_path
    then some (say "failed: no persistent path set" x)
    else body

unfoldable pub text_flush : World → Session → Option Session
text_flush w x = with_path x (some (if w.saved then say "ok" x else say "failed: flush failed" x))

unfoldable pub text_load : World → Session → Option Session
text_load w x = with_path x (elim w.snapshot [
  | none ↦ some (say "failed: load failed" x)
  | some file ↦ elim (load w.now file x.store) [
    | none ↦ none
    | some (ok, s) ↦
        some (if ok then say "ok" (with_store s x) else say "failed: load failed" (with_store s x))
  ]
])

unfoldable pub text_size : Session → Option Session
text_size x = some (say_integer (pos (size x.store)) x)

unfoldable pub text_subscribe : Bytes → Session → Option Session
text_subscribe args x = some (
    if is_empty_list args
    then say "usage: subscribe channel" x
    else say "ok" (with_store (subscribe x.conn.fd args x.store) x))

unfoldable pub text_unsubscribe : Bytes → Session → Option Session
text_unsubscribe args x = some (
    if is_empty_list args
    then say "usage: unsubscribe channel" x
    else say "ok" (with_store (unsubscribe x.conn.fd args x.store) x))

unfoldable pub text_publish : World → Bytes → Session → Option Session
text_publish w args x = denied x (
    given "usage: publish channel message" (key_of args) (args_behind args) x (
      let (count, y) = publish w (key_of args) (args_behind args) x in
      some (say_integer (pos count) y)))

unfoldable pub text_maxmemory : Session → Option Session
text_maxmemory x = some (say_integer (as_int64 x.store.m_max_memory) x)

unfoldable pub text_memory : Session → Option Session
text_memory x = some (say_integer (as_int64 x.store.m_current_memory) x)

-- `handle_replicate_request`: the connection becomes a follower. `send_full_dump` sends nothing.
unfoldable pub handle_replicate_request : Session → Session
handle_replicate_request x = elim x.repl_role [
  | repl_follower ↦ say "error: this node is a follower" x
  | _ ↦
      say "ok"
        (record x { repl_role = repl_leader; follower_fds = x.follower_fds ++ x.conn.fd ∷ [] })
]
