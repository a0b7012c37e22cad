-- ===== src/Cache/Lru/Operations.antt =====
-- The operations of the store keep every iterator of the eviction order valid.
use socketley.Prelude.{
  ℕ, ◌+◌, ◌≡◌, refl, inl, inr, arith, Bool, some, List, [], ◌∷◌, Bytes, length, Option-cases,
  Bool-cases,
}
use socketley.Prelude.Int.{ℤ}
use socketley.Map.{find}
use socketley.Cache.State.{
  Store, EvictionPolicy, SetInner, HashInner, track_add, track_sub, drop_expiry, set_max_memory,
  set_eviction,
}
use socketley.Cache.Eviction.{Rng, check_memory}
use socketley.Cache.General.{del}
use socketley.Cache.Expiry.{
  set_expiry_in, persist, check_expiry, get_ptr, sweep_expired, del_all, expire,
}
use socketley.Cache.Eviction.{is_nil}
use socketley.Map.{is_empty}
use socketley.Cache.Lru.Helpers.{SameLru}
use socketley.Cache.Strings
use socketley.Cache.Strings.{
  write_string, overwrite_string, store_string, incr_from, incr_at, append_at, append_text,
}
use socketley.Cache.Lists.{write_list, push_existing, push, keep_list, pop, End}
use socketley.Cache.Sets.{write_set, sadd, sadd_existing, sadd_into, srem, keep_set}
use socketley.Cache.Hashes.{write_hash, hset, hset_field, hset_overwrite, hdel, keep_hash}
use socketley.Cache.Commands.{Command, exec, run}
use socketley.Cache.Commands
use socketley.Cache.Lru.Helpers.{
  IsLinked, IsLinked-same, SameLru-track_sub, touch_lru-IsLinked, forget_key-IsLinked,
  expire-IsLinked, check_expiry-IsLinked, check_memory-IsLinked,
}

pub track_sub-IsLinked : (n : ℕ) (s : Store) → IsLinked s → IsLinked (track_sub n s)
track_sub-IsLinked n s h = IsLinked-same s (track_sub n s) (SameLru-track_sub n s) h

-- A write touches the key, after it has changed one container and the count of bytes.
module _ (key : Bytes) (n : ℕ) (s : Store) (h : IsLinked s) where
  pub write_string-IsLinked : (new : Bytes) → IsLinked (write_string key new n s)
  unfolding write_string track_add
  write_string-IsLinked new = touch_lru-IsLinked key _ (IsLinked-same s _ (refl, refl, refl) h)

  pub write_list-IsLinked : (deq : List Bytes) → IsLinked (write_list key deq n s)
  unfolding write_list track_add
  write_list-IsLinked deq = touch_lru-IsLinked key _ (IsLinked-same s _ (refl, refl, refl) h)

  pub write_set-IsLinked : (members : SetInner) → IsLinked (write_set key members n s)
  unfolding write_set track_add
  write_set-IsLinked members = touch_lru-IsLinked key _ (IsLinked-same s _ (refl, refl, refl) h)

  pub write_hash-IsLinked : (fields : HashInner) → IsLinked (write_hash key fields n s)
  unfolding write_hash track_add
  write_hash-IsLinked fields = touch_lru-IsLinked key _ (IsLinked-same s _ (refl, refl, refl) h)

module _ (r : Rng) (key : Bytes) where
  pub overwrite_string-IsLinked :
      (old new : Bytes) (s : Store) → IsLinked s → IsLinked (overwrite_string key old new s)
  unfolding overwrite_string
  overwrite_string-IsLinked old new s h =
      write_string-IsLinked key (length new) _ (track_sub-IsLinked (length old) s h) new

  pub store_string-IsLinked :
      (new : Bytes) (s : Store) → IsLinked s → IsLinked (store_string key new s)
  unfolding store_string
  store_string-IsLinked new s h = write_string-IsLinked key (length key + length new) s h new

  pub set-IsLinked : (new : Bytes) (s : Store) → IsLinked s → IsLinked (Strings.set r key new s).1
  unfolding Strings.set
  set-IsLinked new s h =
      let n = length key + length new in
      let ht = check_memory-IsLinked r n s h in
      elim (Option-cases (find key s.m_data)) [
        | inl absent ↦ ground (arith, store_string-IsLinked new (check_memory r n s).1 ht)
        | inr (old, there) ↦ ground (arith, overwrite_string-IsLinked old new s h)
      ]

  pub push-IsLinked :
      (e : End) (val : Bytes) (s t : Store) (b : Bool)
      → IsLinked s
      → push r e key val s ≡ some (b, t)
      → IsLinked t
  unfolding push push_existing
  push-IsLinked e val s t b h run =
      let ht = check_memory-IsLinked r (length val) s h in
      let hu = check_memory-IsLinked r (length key + length val) s h in
      grind (arith, write_list-IsLinked)

  pub incr-IsLinked :
      (delta now : ℤ) (s t : Store)
      → IsLinked s
      → Commands.left (Strings.incr r key delta now s) ≡ some t
      → IsLinked t
  unfolding Strings.incr incr_at incr_from
  incr-IsLinked delta now s t h run =
      let hu = check_expiry-IsLinked key now s h in
      grind (arith, overwrite_string-IsLinked, store_string-IsLinked, check_memory-IsLinked)

  pub append-IsLinked :
      (suffix : Bytes) (now : ℤ) (s t : Store)
      → IsLinked s
      → Commands.left (Strings.append r key suffix now s) ≡ some t
      → IsLinked t
  unfolding Strings.append append_at append_text
  append-IsLinked suffix now s t h run =
      let hu = check_expiry-IsLinked key now s h in
      grind (arith, write_string-IsLinked, store_string-IsLinked, check_memory-IsLinked)

  pub sadd-IsLinked :
      (member : Bytes) (s t : Store)
      → IsLinked s
      → Commands.left (sadd r key member s) ≡ some t
      → IsLinked t
  unfolding sadd sadd_existing sadd_into
  sadd-IsLinked member s t h run = grind (arith, write_set-IsLinked, check_memory-IsLinked)

  pub hset-IsLinked :
      (field val : Bytes) (s t : Store)
      → IsLinked s
      → Commands.left (hset r key field val s) ≡ some t
      → IsLinked t
  unfolding hset hset_field hset_overwrite
  hset-IsLinked field val s t h run =
      grind (arith, write_hash-IsLinked, check_memory-IsLinked, track_sub-IsLinked)

  pub setnx-IsLinked :
      (new : Bytes) (now : ℤ) (s : Store) → IsLinked s → IsLinked (Strings.setnx r key new now s).1
  unfolding Strings.setnx
  setnx-IsLinked new now s h =
      let u = check_expiry key now s in
      let hu = check_expiry-IsLinked key now s h in ground (arith, set-IsLinked new u hu)

  pub getset-IsLinked :
      (new : Bytes) (now : ℤ) (s : Store) → IsLinked s → IsLinked (Strings.getset r key new now s).2
  unfolding Strings.getset
  getset-IsLinked new now s h =
      let hu = check_expiry-IsLinked key now s h in
      ground (arith, set-IsLinked new (check_expiry key now s) hu)

module _ (key : Bytes) (s : Store) (h : IsLinked s) where
  pub keep_list-IsLinked : (rest : List Bytes) → IsLinked (keep_list key rest s)
  unfolding keep_list
  keep_list-IsLinked rest = elim (Bool-cases (is_nil rest)) [
    | inl e ↦ rw (e, keep_list) (forget_key-IsLinked key _ (IsLinked-same s _ (refl, refl, refl) h))
    | inr e ↦ rw (e, keep_list) (IsLinked-same s _ (refl, refl, refl) h)
  ]

  pub keep_set-IsLinked : (rest : SetInner) → IsLinked (keep_set key rest s)
  unfolding keep_set
  keep_set-IsLinked rest = elim (Bool-cases (is_empty rest)) [
    | inl e ↦ rw (e, keep_set) (forget_key-IsLinked key _ (IsLinked-same s _ (refl, refl, refl) h))
    | inr e ↦ rw (e, keep_set) (IsLinked-same s _ (refl, refl, refl) h)
  ]

  pub keep_hash-IsLinked : (rest : HashInner) → IsLinked (keep_hash key rest s)
  unfolding keep_hash
  keep_hash-IsLinked rest = elim (Bool-cases (is_empty rest)) [
    | inl e ↦ rw (e, keep_hash) (forget_key-IsLinked key _ (IsLinked-same s _ (refl, refl, refl) h))
    | inr e ↦ rw (e, keep_hash) (IsLinked-same s _ (refl, refl, refl) h)
  ]

  pub del-IsLinked : IsLinked (del key s).1
  unfolding del expire
  del-IsLinked = expire-IsLinked key s h

  pub get_ptr-IsLinked : IsLinked (get_ptr key s).1
  unfolding get_ptr
  get_ptr-IsLinked = ground (arith, touch_lru-IsLinked key s h)

  pub set_expiry_in-IsLinked :
      (unit : ℕ) (amount now : ℤ) (t : Store)
      → Commands.left (set_expiry_in unit key amount now s) ≡ some t
      → IsLinked t
  unfolding set_expiry_in
  set_expiry_in-IsLinked unit amount now t run = IsLinked-same s t (ground arith) h

  pub persist-IsLinked : IsLinked (persist key s).1
  unfolding persist drop_expiry
  persist-IsLinked = IsLinked-same s _ (ground arith) h

module _ (key : Bytes) (s : Store) (h : IsLinked s) where
  pub pop-IsLinked : (e : End) → IsLinked (pop e key s).1
  unfolding pop
  pop-IsLinked e = grind (arith, keep_list-IsLinked, track_sub-IsLinked)

  pub srem-IsLinked : (member : Bytes) → IsLinked (srem key member s).1
  unfolding srem
  srem-IsLinked member = grind (arith, keep_set-IsLinked, track_sub-IsLinked)

  pub hdel-IsLinked : (field : Bytes) → IsLinked (hdel key field s).1
  unfolding hdel
  hdel-IsLinked field = grind (arith, keep_hash-IsLinked, track_sub-IsLinked)

pub del_all-IsLinked : (keys : List Bytes) (s : Store) → IsLinked s → IsLinked (del_all keys s)
unfolding del_all
del_all-IsLinked [] s h = h
del_all-IsLinked (key ∷ keys) s h = del_all-IsLinked keys (del key s).1 (del-IsLinked key s h)

pub sweep_expired-IsLinked : (now : ℤ) (s : Store) → IsLinked s → IsLinked (sweep_expired now s).1
unfolding sweep_expired
sweep_expired-IsLinked now s h = del_all-IsLinked _ s h

pub lru-set_max_memory : (bytes : ℕ) (s : Store) → SameLru s (set_max_memory bytes s)
unfolding set_max_memory
lru-set_max_memory bytes s = (refl, refl, refl)

pub lru-set_eviction : (policy : EvictionPolicy) (s : Store) → SameLru s (set_eviction policy s)
unfolding set_eviction
lru-set_eviction policy s = (refl, refl, refl)
