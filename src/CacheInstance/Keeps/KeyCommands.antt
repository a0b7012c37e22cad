-- ===== src/CacheInstance/Keeps/KeyCommands.antt =====
-- The commands on keys of any type, on channels and on the connection.
use socketley.Prelude.{
  suc, ℕ, ◌^◌, ◌≡◌, refl, arith, inl, inr, Bool, false, some, List, [], ◌∷◌, ◌++◌, Bytes, length,
  drop, Bool-cases, Option-cases,
}
use socketley.Prelude.Int.{ℤ, pos}
use socketley.Prelude.Words.{decimal, from_chars_unsigned}
use socketley.Cache.State.{Store}
use socketley.Cache.Keys
use socketley.Cache.Keys.{star}
use socketley.Cache.PubSub.{get_subscribers}
use socketley.Resp.Encode.{encode_bulk_into}
use socketley.CacheInstance.Session.{
  CacheMode, is_readonly, Session, World, arg, put, repl, replicate_command, reply_header,
}
use socketley.CacheInstance.Keys.{
  del_each, del_command, exists_command, type_command, keys_command, ping_command, dbsize_command,
  scan_options, scan_command, subscribe_each, unsubscribe_each, subscribe_command,
  unsubscribe_command, deliver_to, deliver_each, publish, publish_command, unknown_command,
}
use socketley.CacheInstance.Keeps.{
  IsKept, Good, keeps-live, keeps-del, keeps-subscribe, keeps-unsubscribe,
}
use socketley.CacheInstance.Keeps.StringCommands.{live-Good}
use socketley.CacheInstance.Keeps.ContainerCommands.{reply_bulks-Good}

-- A delivery changes connections only.
deliver_to-Good :
    (mode : CacheMode) (P : Store → Type 0) (z : Bool) (channel message : Bytes) (fd : ℕ)
    (x : Session)
    → Good mode P x
    → Good mode P (deliver_to z channel message fd x).1
unfolding deliver_to
deliver_to-Good mode P z channel message fd x g = ground arith

deliver_each-Good :
    (mode : CacheMode) (P : Store → Type 0) (z : Bool) (channel message : Bytes) (fds : List ℕ)
    (count : ℕ) (x : Session)
    → Good mode P x
    → Good mode P (deliver_each z channel message fds count x).1
unfolding deliver_each
deliver_each-Good mode P z channel message [] count x g = g
deliver_each-Good mode P z channel message (fd ∷ fds) count x g =
    deliver_each-Good mode P z channel message fds _ _
      (deliver_to-Good mode P z channel message fd x g)

pub publish-Good :
    (mode : CacheMode) (P : Store → Type 0) (w : World) (channel message : Bytes) (x : Session)
    → Good mode P x
    → Good mode P (publish w channel message x).1
unfolding publish
publish-Good mode P w channel message x g = elim (Option-cases (get_subscribers channel x.store)) [
  | inl nobody ↦ ground arith
  | inr (fds, e) ↦ ground (arith, deliver_each-Good mode P w.send_zc channel message fds 0 x g)
]

module _ {mode : CacheMode} {P : Store → Type 0} (kept : IsKept mode P) (w : World) where
  del_each-Good :
      (times : ℕ → ℤ) (keys : List Bytes) (deleted : ℕ) (x : Session)
      → is_readonly mode ≡ false
      → Good mode P x
      → Good mode P (del_each times keys deleted x).1
  unfolding del_each
  del_each-Good times [] deleted x writes g = g
  del_each-Good times (key ∷ keys) deleted x writes (m, p) =
      let q = keeps-live kept x.store p key (times 0) in
      del_each-Good (λ n. times (suc n)) keys _ _ writes
        (m, keeps-del kept writes w.draws (times 0) _ _ q key refl)

  pub del_command-Good :
      (args : List Bytes) (x y : Session)
      → Good mode P x
      → del_command w args x ≡ some y
      → Good mode P y
  unfolding del_command repl replicate_command
  del_command-Good args x y g run = elim (Bool-cases (is_readonly mode)) [
    | inl off ↦ ground arith
    | inr writes ↦ ground (arith, del_each-Good w.now_each (drop 1 args) 0 x writes g)
  ]

  pub exists_command-Good :
      (args : List Bytes) (x y : Session)
      → Good mode P x
      → exists_command w args x ≡ some y
      → Good mode P y
  unfolding exists_command
  exists_command-Good args x y g run = ground (arith, live-Good kept w (arg 1 args) x g)

  pub type_command-Good :
      (args : List Bytes) (x y : Session)
      → Good mode P x
      → type_command w args x ≡ some y
      → Good mode P y
  unfolding type_command
  type_command-Good args x y g run = ground (arith, live-Good kept w (arg 1 args) x g)

  pub keys_command-Good :
      (args : List Bytes) (x y : Session)
      → Good mode P x
      → keys_command w args x ≡ some y
      → Good mode P y
  unfolding keys_command
  keys_command-Good args x y g run =
      let out = Keys.keys w.fnmatch (arg 1 args) x.store in
      ground (arith, reply_bulks-Good mode P out (reply_header (pos (length out)) x) g)

  pub ping_command-Good :
      (args : List Bytes) (x y : Session)
      → Good mode P x
      → ping_command args x ≡ some y
      → Good mode P y
  unfolding ping_command
  ping_command-Good args x y g run = ground arith

  pub dbsize_command-Good :
      (x y : Session) → Good mode P x → dbsize_command x ≡ some y → Good mode P y
  unfolding dbsize_command
  dbsize_command-Good x y g run = ground arith

  pub scan_command-Good :
      (args : List Bytes) (x y : Session)
      → Good mode P x
      → scan_command w args x ≡ some y
      → Good mode P y
  unfolding scan_command
  scan_command-Good args x y g run =
      elim (Option-cases (from_chars_unsigned (2 ^ 64) (arg 1 args))) [
        | inl bad ↦ ground arith
        | inr (cursor, e) ↦
            let (pattern, count) = scan_options (drop 2 args) star 10 in
            let (next, found) = Keys.scan w.fnmatch cursor pattern count x.store in
            let buf = x.conn.response_buf ++ b'*' ∷ b'2' ∷ 13 ∷ 10 ∷ [] in
            let z =
              reply_header (pos (length found)) (put (encode_bulk_into buf (decimal next)) x) in
            ground (arith, reply_bulks-Good mode P found z g)
      ]

  subscribe_each-keeps :
      (fd : ℕ) (channels : List Bytes) (s : Store) → P s → P (subscribe_each fd channels s)
  unfolding subscribe_each
  subscribe_each-keeps fd [] s p = p
  subscribe_each-keeps fd (c ∷ channels) s p =
      subscribe_each-keeps fd channels _ (keeps-subscribe kept s p fd c w.now)

  unsubscribe_each-keeps :
      (fd : ℕ) (channels : List Bytes) (s : Store) → P s → P (unsubscribe_each fd channels s)
  unfolding unsubscribe_each
  unsubscribe_each-keeps fd [] s p = p
  unsubscribe_each-keeps fd (c ∷ channels) s p =
      unsubscribe_each-keeps fd channels _ (keeps-unsubscribe kept s p fd c w.now)

  pub subscribe_command-Good :
      (args : List Bytes) (x y : Session)
      → Good mode P x
      → subscribe_command args x ≡ some y
      → Good mode P y
  unfolding subscribe_command
  subscribe_command-Good args x y (m, p) run =
      ground (arith, subscribe_each-keeps x.conn.fd (drop 1 args) x.store p)

  pub unsubscribe_command-Good :
      (args : List Bytes) (x y : Session)
      → Good mode P x
      → unsubscribe_command args x ≡ some y
      → Good mode P y
  unfolding unsubscribe_command
  unsubscribe_command-Good args x y (m, p) run =
      ground (arith, unsubscribe_each-keeps x.conn.fd (drop 1 args) x.store p)

  pub publish_command-Good :
      (args : List Bytes) (x y : Session)
      → Good mode P x
      → publish_command w args x ≡ some y
      → Good mode P y
  unfolding publish_command
  publish_command-Good args x y g run =
      ground (arith, publish-Good mode P w (arg 1 args) (arg 2 args) x g)

  pub unknown_command-Good :
      (args : List Bytes) (x y : Session)
      → Good mode P x
      → unknown_command args x ≡ some y
      → Good mode P y
  unfolding unknown_command
  unknown_command-Good args x y g run = ground arith
