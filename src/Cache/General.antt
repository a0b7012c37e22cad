-- ===== src/Cache/General.antt =====
-- The section "General" of cache_store.cpp: `del`, `size`, `exists`; and `type`.
use Prim.Native.String.{String}
use socketley.Prelude.{ℕ, ◌+◌, ◌%◌, ◌^◌, Bool, not, ◌&&◌, ◌||◌, Bytes, length, if◌then◌else◌}
use socketley.Map.{contains, is_empty}
use socketley.Cache.State.{Store, drop_expiry, drop_lru, erase_value}

unfoldable pub del : Bytes → Store → Bool × Store
del key s = erase_value key (drop_lru key (drop_expiry key s))

unfoldable pub size : Store → ℕ
size s = (length s.m_data + length s.m_lists + length s.m_sets + length s.m_hashes) % 2 ^ 32

unfoldable pub exists : Bytes → Store → Bool
exists key s =
    contains key s.m_data
    || (not (is_empty s.m_lists) && contains key s.m_lists)
    || (not (is_empty s.m_sets) && contains key s.m_sets)
    || (not (is_empty s.m_hashes) && contains key s.m_hashes)

-- The answers of `type`: "string", "list", "set", "hash" and "none".
pub data TypeName : Type 0 where
  string list set hash absent : TypeName

unfoldable pub type_name : TypeName → String
type_name string = "string"
type_name list = "list"
type_name set = "set"
type_name hash = "hash"
type_name absent = "none"

unfoldable pub type : Bytes → Store → TypeName
type key s =
    if contains key s.m_data
    then string
    else if not (is_empty s.m_lists) && contains key s.m_lists
    then list
    else if not (is_empty s.m_sets) && contains key s.m_sets
    then set
    else if not (is_empty s.m_hashes) && contains key s.m_hashes
    then hash
    else absent
