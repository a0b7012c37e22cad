-- ===== src/CacheInstance/Text/Keeps/KeyLines.antt =====
-- The commands on keys of any type, on snapshots, channels, memory and replication.
use socketley.Prelude.{
  ◌^◌, ◌≡◌, refl, arith, inl, inr, false, some, Bytes, Bool-cases, Option-cases, if◌then◌else◌,
}
use socketley.Cache.State.{Store}
use socketley.CacheInstance.Connection.{is_empty_list}
use socketley.CacheInstance.Session.{
  CacheMode, is_readonly, Session, World, live, replicate_command,
}
use socketley.CacheInstance.Text.{say_integer, key_of, args_behind, blank_words}
use socketley.CacheInstance.Keeps.{
  IsKept, Good, keeps-live, keeps-del, keeps-subscribe, keeps-unsubscribe,
}
use socketley.CacheInstance.Keeps.StringCommands.{live-Good}
use socketley.Prelude.Words.{from_chars_unsigned}
use socketley.Cache.Keys
use socketley.Cache.Keys.{star}
use socketley.CacheInstance.Keys.{scan_options}
use socketley.CacheInstance.Keeps.KeyCommands.{publish-Good}
use socketley.CacheInstance.Text.{as_int64}
use socketley.CacheInstance.Text.Keeps.ContainerLines.{say_lines-Good}
use socketley.CacheInstance.Text.Keys.{
  text_del, text_exists, text_type, text_keys, text_scan, is_admin, text_flush, text_load,
  text_size, text_subscribe, text_unsubscribe, text_publish, text_maxmemory, text_memory,
  handle_replicate_request,
}

module _ {mode : CacheMode} {P : Store → Type 0} (kept : IsKept mode P) (w : World) where
  pub text_del-Good :
      (line args : Bytes) (x y : Session)
      → Good mode P x
      → text_del w line args x ≡ some y
      → Good mode P y
  unfolding text_del live replicate_command
  text_del-Good line args x y (m, p) run = elim (Bool-cases (is_readonly mode)) [
    | inl off ↦ ground arith
    | inr writes ↦
        let q = keeps-live kept x.store p args w.now in
        ground (arith, keeps-del kept writes w.draws w.now _ _ q args refl)
  ]

  pub text_exists-Good :
      (args : Bytes) (x y : Session) → Good mode P x → text_exists w args x ≡ some y → Good mode P y
  unfolding text_exists
  text_exists-Good args x y g run = ground (arith, live-Good kept w args x g)

  pub text_type-Good :
      (args : Bytes) (x y : Session) → Good mode P x → text_type w args x ≡ some y → Good mode P y
  unfolding text_type
  text_type-Good args x y g run = ground (arith, live-Good kept w args x g)

  pub text_keys-Good :
      (args : Bytes) (x y : Session) → Good mode P x → text_keys w args x ≡ some y → Good mode P y
  unfolding text_keys
  text_keys-Good args x y g run =
      let pattern = if is_empty_list args then star else args in
      ground (arith, say_lines-Good mode P (Keys.keys w.fnmatch pattern x.store) x g)

  pub text_scan-Good :
      (args : Bytes) (x y : Session) → Good mode P x → text_scan w args x ≡ some y → Good mode P y
  unfolding text_scan
  text_scan-Good args x y g run = elim (Option-cases (from_chars_unsigned (2 ^ 64) (key_of args))) [
    | inl bad ↦ ground arith
    | inr (cursor, e) ↦
        let (pattern, count) = scan_options (blank_words (args_behind args)) star 10 in
        let (next, found) = Keys.scan w.fnmatch cursor pattern count x.store in
        ground (arith, say_lines-Good mode P found (say_integer (as_int64 next) x) g)
  ]

  pub text_flush-Good : (x y : Session) → Good mode P x → text_flush w x ≡ some y → Good mode P y
  unfolding text_flush
  text_flush-Good x y g run = ground arith

  pub text_load-Good :
      (x y : Session)
      → is_admin mode ≡ false
      → Good mode P x
      → text_load w x ≡ some y
      → Good mode P y
  unfolding text_load
  text_load-Good x y plain g run = ground arith

  pub text_size-Good : (x y : Session) → Good mode P x → text_size x ≡ some y → Good mode P y
  unfolding text_size
  text_size-Good x y g run = ground arith

  pub text_subscribe-Good :
      (args : Bytes) (x y : Session)
      → Good mode P x
      → text_subscribe args x ≡ some y
      → Good mode P y
  unfolding text_subscribe
  text_subscribe-Good args x y (m, p) run =
      ground (arith, keeps-subscribe kept x.store p x.conn.fd args w.now)

  pub text_unsubscribe-Good :
      (args : Bytes) (x y : Session)
      → Good mode P x
      → text_unsubscribe args x ≡ some y
      → Good mode P y
  unfolding text_unsubscribe
  text_unsubscribe-Good args x y (m, p) run =
      ground (arith, keeps-unsubscribe kept x.store p x.conn.fd args w.now)

  pub text_publish-Good :
      (args : Bytes) (x y : Session)
      → Good mode P x
      → text_publish w args x ≡ some y
      → Good mode P y
  unfolding text_publish
  text_publish-Good args x y g run =
      ground (arith, publish-Good mode P w (key_of args) (args_behind args) x g)

  pub text_maxmemory-Good :
      (x y : Session) → Good mode P x → text_maxmemory x ≡ some y → Good mode P y
  unfolding text_maxmemory
  text_maxmemory-Good x y g run = ground arith

  pub text_memory-Good : (x y : Session) → Good mode P x → text_memory x ≡ some y → Good mode P y
  unfolding text_memory
  text_memory-Good x y g run = ground arith

  pub handle_replicate_request-Good :
      (x : Session) → Good mode P x → Good mode P (handle_replicate_request x)
  unfolding handle_replicate_request
  handle_replicate_request-Good x g = ground arith
