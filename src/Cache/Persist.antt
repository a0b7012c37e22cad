-- ===== src/Cache/Persist.antt =====
-- The section "Persistence" of cache_store.cpp: the snapshot format, version 2. The opening, mapping
-- and renaming of the file are the operating system's; `save_v2` is the bytes written into the
-- mapping, `load_v2` reads the bytes behind the magic, and `load_v1` the older format.
pub mod Load
pub mod File
pub mod Size
pub mod Accounting
use socketley.Prelude.{
  ℕ, zero, suc, ◌+◌, ◌*◌, ◌/◌, ◌%◌, Bool, Option, none, some, List, [], ◌∷◌, ◌++◌, Bytes, length,
  leb, is_some, if◌then◌else◌,
}
use socketley.Prelude.Int.{ℤ, pos_part, ◌-ℤ◌, tdiv}
use socketley.Map.{Map, find, contains, total}
use socketley.Cache.State.{Store, SetInner, HashInner}
use socketley.Cache.Expiry.{millisecond}

-- `memcpy` of an integer on a little-endian machine: its lowest `count` bytes.
unfoldable pub le_bytes : ℕ → ℕ → Bytes
le_bytes zero n = []
le_bytes (suc count) n = (n % 256) ∷ le_bytes count (n / 256)

unfoldable pub emit_string : Bytes → Bytes
emit_string s = le_bytes 4 (length s) ++ s

unfoldable pub emit_strings : List Bytes → Bytes
emit_strings [] = []
emit_strings (e ∷ deq) = emit_string e ++ emit_strings deq

unfoldable pub emit_members : SetInner → Bytes
emit_members [] = []
emit_members ((e, _) ∷ members) = emit_string e ++ emit_members members

unfoldable pub emit_fields : HashInner → Bytes
emit_fields [] = []
emit_fields ((f, v) ∷ fields) = emit_string f ++ (emit_string v ++ emit_fields fields)

-- The milliseconds to a deadline, 0 if it has passed.
unfoldable pub remaining_ms : ℤ → ℤ → ℕ
remaining_ms now tp = pos_part (tdiv (tp -ℤ now) millisecond)

unfoldable pub emit_expiry : ℤ → Option ℤ → Bytes
emit_expiry now none = 0 ∷ []
emit_expiry now (some tp) = 1 ∷ le_bytes 8 (remaining_ms now tp)

abbrev pub type_string : ℕ
type_string = 0

abbrev pub type_list : ℕ
type_list = 1

abbrev pub type_set : ℕ
type_set = 2

abbrev pub type_hash : ℕ
type_hash = 3

unfoldable pub emit_key : ℕ → Bytes → Bytes
emit_key type key = type ∷ emit_string key

-- What is written between the key and the deadline.
unfoldable pub emit_list : List Bytes → Bytes
emit_list deq = le_bytes 4 (length deq) ++ emit_strings deq

unfoldable pub emit_set : SetInner → Bytes
emit_set members = le_bytes 4 (length members) ++ emit_members members

unfoldable pub emit_hash : HashInner → Bytes
emit_hash fields = le_bytes 4 (length fields) ++ emit_fields fields

-- The loop over a container; `body` writes a value.
unfoldable pub emit_entries {ℓ} : {V : Type ℓ} → ℕ → (V → Bytes) → ℤ → Map ℤ → Map V → Bytes
emit_entries type body now expiry [] = []
emit_entries type body now expiry ((key, v) ∷ m) =
    emit_key type key
    ++ (body v ++ (emit_expiry now (find key expiry) ++ emit_entries type body now expiry m))

abbrev pub magic_v2 : Bytes
magic_v2 = b'S' ∷ b'K' ∷ b'V' ∷ b'2' ∷ []

-- The records of a snapshot, behind the magic.
unfoldable pub save_body : ℤ → Store → Bytes
save_body now s =
    emit_entries type_string emit_string now s.m_expiry s.m_data
    ++ (emit_entries type_list emit_list now s.m_expiry s.m_lists
        ++ (emit_entries type_set emit_set now s.m_expiry s.m_sets
            ++ emit_entries type_hash emit_hash now s.m_expiry s.m_hashes))

unfoldable pub save_v2 : ℤ → Store → Bytes
save_v2 now s = magic_v2 ++ save_body now s

-- The first phase of `save_v2`: the size of the file, by which it is truncated and mapped.
unfoldable pub string_size : Bytes → ℕ
string_size s = 4 + length s

unfoldable pub entry_overhead : Map ℤ → Bytes → ℕ
entry_overhead expiry key = 1 + 4 + length key + 1 + (if contains key expiry then 8 else 0)

unfoldable pub strings_size : List Bytes → ℕ
strings_size [] = 0
strings_size (e ∷ deq) = string_size e + strings_size deq

unfoldable pub total_size : Store → ℕ
total_size s =
    4
    + total (λ key v. entry_overhead s.m_expiry key + string_size v) s.m_data
    + total (λ key deq. entry_overhead s.m_expiry key + 4 + strings_size deq) s.m_lists
    + total
        (λ key members. entry_overhead s.m_expiry key + 4 + total (λ e _. string_size e) members)
        s.m_sets
    + total
        (λ key fields.
          entry_overhead s.m_expiry key + 4 + total (λ f v. string_size f + string_size v) fields)
        s.m_hashes
