-- ===== src/Cache/Persist/File.antt =====
-- `load` over the bytes of a file, and `load_v1`. The file is mapped, or read in full; the fallback
-- for a mapping that fails is not modelled.
use socketley.Prelude.{
  ℕ, zero, suc, ◌+◌, Bool, true, false, Option, none, some, Bytes, length, take, drop, ltb, beq,
  if◌then◌else◌,
}
use socketley.Prelude.Int.{ℤ}
use socketley.Map.{insert_or_assign}
use socketley.Cache.State.{Store, track_add}
use socketley.Cache.Persist.{magic_v2}
use socketley.Cache.Persist.Load.{le_value, read_le, clear, load_v2}

-- `file.read(buffer, count)`
unfoldable pub read_bytes : ℕ → Bytes → Option (Bytes × Bytes)
read_bytes count p = if ltb (length p) count then none else some (take count p, drop count p)

-- The loop of `load_v1`, behind the length of a key. A round takes the four bytes of the value's
-- length at least.
unfoldable pub load_v1_loop : ℕ → ℕ → Bytes → Store → Store
load_v1_loop zero key_len p s = s
load_v1_loop (suc fuel) key_len p s = elim (read_bytes key_len p) [
  | none ↦ s
  | some (key, q) ↦ elim (read_le 4 q) [
    | none ↦ s
    | some (val_len, t) ↦ elim (read_bytes val_len t) [
      | none ↦ s
      | some (value, u) ↦
          let t' = track_add (length key + length value) s in
          let s' = record t' { m_data = insert_or_assign key value t'.m_data } in
          elim (read_le 4 u) [ none ↦ s' | some (next_len, w) ↦ load_v1_loop fuel next_len w s' ]
    ]
  ]
]

unfoldable pub load_v1 : ℕ → Bytes → Store → Bool × Store
load_v1 first_key_len p s = (true, load_v1_loop (suc (length p)) first_key_len p (clear s))

unfoldable pub load : ℤ → Bytes → Store → Option (Bool × Store)
load now file s =
    if ltb (length file) 4
    then some (false, s)
    else if beq (take 4 file) magic_v2
    then load_v2 now (drop 4 file) s
    else some (load_v1 (le_value (take 4 file)) (drop 4 file) s)
