-- ===== src/Cache/Persist/Size.antt =====
-- The first phase of `save_v2` computes the number of bytes that the second writes.
use socketley.Prelude.{
  ℕ, zero, suc, ◌+◌, ◌≡◌, refl, Option, none, some, List, [], ◌∷◌, ◌++◌, Bytes, arith, length,
  length-append, is_some, if◌then◌else◌,
}
use socketley.Prelude.Int.{ℤ}
use socketley.Map.{Map, find, total}
use socketley.Cache.State.{Store, SetInner, HashInner}
use socketley.Cache.Persist.{
  le_bytes, emit_string, emit_strings, emit_members, emit_fields, emit_expiry, emit_key, emit_list,
  emit_set, emit_hash, emit_entries, save_body, save_v2, string_size, strings_size, entry_overhead,
  total_size, type_string, type_list, type_set, type_hash,
}

pub length-le_bytes : (count n : ℕ) → length (le_bytes count n) ≡ count
unfolding le_bytes
length-le_bytes zero n = refl
length-le_bytes (suc count) n = omega (arith, length-le_bytes count _)

length-emit_string : (s : Bytes) → length (emit_string s) ≡ string_size s
unfolding emit_string string_size
length-emit_string s = omega (arith, length-append (le_bytes 4 (length s)) s, length-le_bytes)

length-emit_strings : (deq : List Bytes) → length (emit_strings deq) ≡ strings_size deq
unfolding emit_strings strings_size
length-emit_strings [] = refl
length-emit_strings (e ∷ deq) =
    omega (arith, length-append (emit_string e) _, length-emit_string e, length-emit_strings deq)

length-emit_members :
    (members : SetInner) → length (emit_members members) ≡ total (λ e _. string_size e) members
unfolding emit_members total
length-emit_members [] = refl
length-emit_members ((e, _) ∷ members) =
    omega
      (arith, length-append (emit_string e) _, length-emit_string e, length-emit_members members)

length-emit_fields :
    (fields : HashInner)
    → length (emit_fields fields) ≡ total (λ f v. string_size f + string_size v) fields
unfolding emit_fields total
length-emit_fields [] = refl
length-emit_fields ((f, v) ∷ fields) = omega (
  arith,
  length-append (emit_string f) (emit_string v ++ emit_fields fields),
  length-append (emit_string v) (emit_fields fields),
  length-emit_string f,
  length-emit_string v,
  length-emit_fields fields,
)

length-emit_expiry :
    (now : ℤ) (o : Option ℤ) → length (emit_expiry now o) ≡ 1 + (if is_some o then 8 else 0)
unfolding emit_expiry
length-emit_expiry now none = refl
length-emit_expiry now (some tp) = omega (arith, length-le_bytes)

-- The record of one key: its type, its key, its value and its deadline.
length-record :
    (type : ℕ) (key value rest : Bytes) (now : ℤ) (expiry : Map ℤ)
    → length (emit_key type key ++ (value ++ (emit_expiry now (find key expiry) ++ rest)))
      ≡ entry_overhead expiry key + length value + length rest
unfolding emit_key entry_overhead string_size
length-record type key value rest now expiry = ground (
  arith,
  length-append (emit_key type key) (value ++ (emit_expiry now (find key expiry) ++ rest)),
  length-append value (emit_expiry now (find key expiry) ++ rest),
  length-append (emit_expiry now (find key expiry)) rest,
  length-emit_string key,
  length-emit_expiry now (find key expiry),
)

length-emit_entries {ℓ} :
    {V : Type ℓ} (type : ℕ) (body : V → Bytes) (now : ℤ) (expiry : Map ℤ) (m : Map V)
    → length (emit_entries type body now expiry m)
      ≡ total (λ key v. entry_overhead expiry key + length (body v)) m
unfolding emit_entries total
length-emit_entries type body now expiry [] = refl
length-emit_entries type body now expiry ((key, v) ∷ m) = omega (
  arith,
  length-record type key (body v) (emit_entries type body now expiry m) now expiry,
  length-emit_entries type body now expiry m,
)

length-emit_list : (deq : List Bytes) → length (emit_list deq) ≡ 4 + strings_size deq
unfolding emit_list
length-emit_list deq = omega (
  arith,
  length-append (le_bytes 4 (length deq)) (emit_strings deq),
  length-le_bytes,
  length-emit_strings deq,
)

length-emit_set :
    (members : SetInner) → length (emit_set members) ≡ 4 + total (λ e _. string_size e) members
unfolding emit_set
length-emit_set members = omega (
  arith,
  length-append (le_bytes 4 (length members)) (emit_members members),
  length-le_bytes,
  length-emit_members members,
)

length-emit_hash :
    (fields : HashInner)
    → length (emit_hash fields) ≡ 4 + total (λ f v. string_size f + string_size v) fields
unfolding emit_hash
length-emit_hash fields = omega (
  arith,
  length-append (le_bytes 4 (length fields)) (emit_fields fields),
  length-le_bytes,
  length-emit_fields fields,
)

total_ext {ℓ} :
    {V : Type ℓ} (f g : Bytes → V → ℕ) (m : Map V)
    → ((key : Bytes) (v : V) → f key v ≡ g key v)
    → total f m ≡ total g m
unfolding total
total_ext f g [] h = refl
total_ext f g ((key, v) ∷ m) h = omega (arith, h key v, total_ext f g m h)

-- The bytes written are as many as the first phase computed, so the writing fills the mapping and
-- never leaves it.
pub length-save_v2 : (now : ℤ) (s : Store) → length (save_v2 now s) ≡ total_size s
unfolding save_v2 save_body total_size
length-save_v2 now s =
    let x = s.m_expiry in
    let a = emit_entries type_string emit_string now x s.m_data in
    let b = emit_entries type_list emit_list now x s.m_lists in
    let c = emit_entries type_set emit_set now x s.m_sets in
    let d = emit_entries type_hash emit_hash now x s.m_hashes in
    omega (
      arith,
      length-append a (b ++ (c ++ d)),
      length-append b (c ++ d),
      length-append c d,
      length-emit_entries type_string emit_string now x s.m_data,
      length-emit_entries type_list emit_list now x s.m_lists,
      length-emit_entries type_set emit_set now x s.m_sets,
      length-emit_entries type_hash emit_hash now x s.m_hashes,
      total_ext (λ key v. entry_overhead x key + length (emit_string v))
          (λ key v. entry_overhead x key + string_size v) s.m_data
          (λ key v. omega (arith, length-emit_string v)),
      total_ext (λ key v. entry_overhead x key + length (emit_list v))
          (λ key v. entry_overhead x key + 4 + strings_size v) s.m_lists
          (λ key v. omega (arith, length-emit_list v)),
      total_ext (λ key v. entry_overhead x key + length (emit_set v))
          (λ key v. entry_overhead x key + 4 + total (λ e _. string_size e) v) s.m_sets
          (λ key v. omega (arith, length-emit_set v)),
      total_ext (λ key v. entry_overhead x key + length (emit_hash v))
          (λ key v. entry_overhead x key + 4 + total (λ f w. string_size f + string_size w) v)
          s.m_hashes (λ key v. omega (arith, length-emit_hash v)),
    )
