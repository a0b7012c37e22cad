-- ===== src/Cache/Strings/Soundness.antt =====
-- The string operations keep every key sound.
use socketley.Prelude.{
  ℕ, ◌+◌, ◌++◌, Bool, ◌≡◌, inl, inr, arith, false, Option, none, some, Bytes, length, Option-cases,
  Bool-cases,
}
use socketley.Prelude.Int.{ℤ, ◌+ℤ◌, pos}
use socketley.Map.{find}
use socketley.Cache.State.{Store, has_type_conflict_for_string, track_sub}
use socketley.Cache.Slots.{slot, string-slot}
use socketley.Cache.Writes.{slot-track_sub}
use socketley.Cache.Eviction.{Rng, check_memory}
use socketley.Cache.Consistent.{
  IsSound, IsConsistent, Spared-IsSound, Spared-check_memory, check_memory-IsConsistent,
  check_expiry-IsConsistent,
}
use socketley.Cache.Soundness.{StringOnly-of_check, StringOnly-of_sound, write_string-IsSound}
use socketley.Cache.Strings.{
  set, setnx, getset, incr, incr_at, read_number, append, append_at, append_text, incr_from,
  IncrReply, store_string, overwrite_string,
}
use socketley.Cache.Expiry.{check_expiry}
use socketley.Prelude.Words.{to_chars}

module _ (r : Rng) (key new : Bytes) (s : Store) (h : IsConsistent s) (j : Bytes) where
  overwrite_string-IsSound :
      (old : Bytes)
      → find key s.m_data ≡ some old
      → IsSound (slot j (overwrite_string key old new s))
  unfolding overwrite_string
  overwrite_string-IsSound old e =
      let t = track_sub (length old) s in
      let free = StringOnly-of_sound (slot key s) (h.at key) (rw (string-slot, e)) in
      write_string-IsSound j key (length new) t (rw slot-track_sub (h.at j)) new
        (rw slot-track_sub free)

  store_string-IsSound :
      has_type_conflict_for_string key s ≡ false
      → (needed : ℕ) → IsSound (slot j (store_string key new (check_memory r needed s).1))
  unfolding store_string
  store_string-IsSound e needed =
      let t = (check_memory r needed s).1 in
      let spared = Spared-check_memory key r needed s (h.at key) in
      let kept = Spared-IsSound j s t (h.at j) (Spared-check_memory j r needed s (h.at j)) in
      write_string-IsSound j key (length key + length new) t kept new
        (ground (arith, spared, StringOnly-of_check key s e))

  pub set-IsSound : IsSound (slot j (set r key new s).1)
  unfolding set
  set-IsSound = elim (Option-cases (find key s.m_data)) [
    | inr (old, e) ↦ rw (e, set) (overwrite_string-IsSound old e)
    | inl e ↦
        let needed = length key + length new in
        let kept = (check_memory-IsConsistent r needed s h).at j in
        rw (e, set)
          (elim (Bool-cases (has_type_conflict_for_string key s)) [
            | inl c ↦ rw c (h.at j)
            | inr c ↦ rw c (ground (arith, kept, store_string-IsSound c needed))
          ])
  ]

module _ (r : Rng) (key : Bytes) (now : ℤ) (s : Store) (h : IsConsistent s) (j : Bytes) where
  pub setnx-IsSound : (new : Bytes) → IsSound (slot j (setnx r key new now s).1)
  unfolding setnx
  setnx-IsSound new =
      let t = check_expiry key now s in
      let ht = check_expiry-IsConsistent key now s h in
      ground (arith, ht.at j, set-IsSound r key new t ht j)

  pub getset-IsSound : (new : Bytes) → IsSound (slot j (getset r key new now s).2)
  unfolding getset
  getset-IsSound new =
      let t = check_expiry key now s in
      let ht = check_expiry-IsConsistent key now s h in
      ground (arith, ht.at j, set-IsSound r key new t ht j)

module _ (r : Rng) (key : Bytes) (s : Store) (h : IsConsistent s) (j : Bytes) where
  incr_from-IsSound :
      (old : Option Bytes) (val delta : ℤ) (reply : IncrReply) (u : Store)
      → find key s.m_data ≡ old
      → has_type_conflict_for_string key s ≡ false
      → incr_from r key old val delta s ≡ some (reply, u)
      → IsSound (slot j u)
  unfolding incr_from
  incr_from-IsSound (some text) val delta reply u e c run =
      ground (arith, overwrite_string-IsSound r key (to_chars (val +ℤ delta)) s h j text e)
  incr_from-IsSound none val delta reply u e c run =
      let new = to_chars (val +ℤ delta) in
      let needed = length key + length new in
      let kept = (check_memory-IsConsistent r needed s h).at j in
      ground (arith, kept, store_string-IsSound r key new s h j c needed)

  incr_at-IsSound :
      (delta : ℤ) (reply : IncrReply) (u : Store)
      → incr_at r key delta s ≡ some (reply, u)
      → IsSound (slot j u)
  unfolding incr_at
  incr_at-IsSound delta reply u run = elim (Bool-cases (has_type_conflict_for_string key s)) [
    | inl c ↦ ground (arith, h.at j)
    | inr c ↦ elim (Option-cases (find key s.m_data)) [
      | inl e ↦ ground (arith, incr_from-IsSound none (pos 0) delta reply u e c)
      | inr (text, e) ↦ elim (Option-cases (read_number text)) [
        | inl p ↦ ground (arith, h.at j)
        | inr (v, p) ↦ ground (arith, incr_from-IsSound (some text) v delta reply u e c)
      ]
    ]
  ]

  append_text-IsSound :
      (suffix : Bytes) (fits : Bool) (n : ℕ) (u : Store)
      → append_text key suffix fits s ≡ some (n, u)
      → IsSound (slot j u)
  unfolding append_text
  append_text-IsSound suffix fits n u run = elim (Option-cases (find key s.m_data)) [
    | inl e ↦ ground arith
    | inr (text, e) ↦
        let free = StringOnly-of_sound (slot key s) (h.at key) (rw (string-slot, e)) in
        ground (
          arith,
          h.at j,
          write_string-IsSound j key (length suffix) s (h.at j) (text ++ suffix) free,
        )
  ]

module _ (r : Rng) (key : Bytes) (s : Store) (h : IsConsistent s) (j : Bytes) where
  append_at-IsSound :
      (suffix : Bytes) (n : ℕ) (u : Store)
      → append_at r key suffix s ≡ some (n, u)
      → IsSound (slot j u)
  unfolding append_at
  append_at-IsSound suffix n u run = elim (Bool-cases (has_type_conflict_for_string key s)) [
    | inl c ↦ ground (arith, h.at j)
    | inr c ↦
        let needed = length key + length suffix in
        let kept = check_memory-IsConsistent r needed s h in
        let t = (check_memory r (length suffix) s).1 in
        let kept' = check_memory-IsConsistent r (length suffix) s h in
        ground (
          arith,
          kept.at j,
          kept'.at j,
          store_string-IsSound r key suffix s h j c needed,
          append_text-IsSound r key t kept' j suffix (check_memory r (length suffix) s).0 n u,
        )
  ]

module _ (r : Rng) (key : Bytes) (now : ℤ) (s : Store) (h : IsConsistent s) (j : Bytes) where
  pub incr-IsSound :
      (delta : ℤ) (reply : IncrReply) (u : Store)
      → incr r key delta now s ≡ some (reply, u)
      → IsSound (slot j u)
  unfolding incr
  incr-IsSound delta reply u =
      incr_at-IsSound r key (check_expiry key now s) (check_expiry-IsConsistent key now s h) j delta
        reply u

  pub append-IsSound :
      (suffix : Bytes) (n : ℕ) (u : Store)
      → append r key suffix now s ≡ some (n, u)
      → IsSound (slot j u)
  unfolding append
  append-IsSound suffix n u =
      append_at-IsSound r key (check_expiry key now s) (check_expiry-IsConsistent key now s h) j
        suffix n u
