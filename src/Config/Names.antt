-- ===== src/Config/Names.antt =====
-- The enumerations of a configuration as words, and the hash by which the words are told apart.
use Prim.Native.Nat.{bit_xor}
use socketley.Prelude.{
  ℕ, ◌+◌, ◌&&◌, leb, ◌*◌, ◌%◌, ◌^◌, ◌≡◌, refl, [], ◌∷◌, Bytes, codes, ◌==◌, if◌then◌else◌,
}
use socketley.Runtime.Instance.{RuntimeType, server, client, proxy, cache}

-- `fnv1a` of cli/command_hashing.h, from a hash on.
unfoldable pub fnv1a_from : ℕ → Bytes → ℕ
fnv1a_from hash [] = hash
fnv1a_from hash (c ∷ sv) = fnv1a_from ((bit_xor hash c * 16777619) % 2 ^ 32) sv

unfoldable pub fnv1a : Bytes → ℕ
fnv1a sv = fnv1a_from 2166136261 sv

-- `fnv1a_lower`: the letters are hashed as small ones.
unfoldable pub fnv1a_lower_from : ℕ → Bytes → ℕ
fnv1a_lower_from hash [] = hash
fnv1a_lower_from hash (c ∷ sv) =
    let lower = if leb b'A' c && leb c b'Z' then c + 32 else c in
    fnv1a_lower_from ((bit_xor hash lower * 16777619) % 2 ^ 32) sv

unfoldable pub fnv1a_lower : Bytes → ℕ
fnv1a_lower sv = fnv1a_lower_from 2166136261 sv

unfoldable pub type_str : RuntimeType → Bytes
type_str server = codes "server"
type_str client = codes "client"
type_str proxy = codes "proxy"
type_str cache = codes "cache"

unfoldable pub str_to_type : Bytes → RuntimeType
str_to_type s =
    if fnv1a s == fnv1a (codes "server")
    then server
    else if fnv1a s == fnv1a (codes "client")
    then client
    else if fnv1a s == fnv1a (codes "proxy")
    then proxy
    else if fnv1a s == fnv1a (codes "cache")
    then cache
    else server

unfoldable pub server_mode_str : ℕ → Bytes
server_mode_str m =
    if m == 0
    then codes "inout"
    else if m == 1
    then codes "in"
    else if m == 2
    then codes "out"
    else if m == 3
    then codes "master"
    else codes "inout"

unfoldable pub str_to_server_mode : Bytes → ℕ
str_to_server_mode s =
    if fnv1a s == fnv1a (codes "in")
    then 1
    else if fnv1a s == fnv1a (codes "out")
    then 2
    else if fnv1a s == fnv1a (codes "master")
    then 3
    else 0

unfoldable pub proxy_protocol_str : ℕ → Bytes
proxy_protocol_str p = if p == 1 then codes "tcp" else codes "http"

unfoldable pub str_to_proxy_protocol : Bytes → ℕ
str_to_proxy_protocol s = if fnv1a s == fnv1a (codes "tcp") then 1 else 0

unfoldable pub proxy_strategy_str : ℕ → Bytes
proxy_strategy_str s =
    if s == 1 then codes "random" else if s == 2 then codes "lua" else codes "round-robin"

unfoldable pub str_to_proxy_strategy : Bytes → ℕ
str_to_proxy_strategy s =
    if fnv1a s == fnv1a (codes "random") then 1 else if fnv1a s == fnv1a (codes "lua") then 2 else 0

unfoldable pub cache_mode_str : ℕ → Bytes
cache_mode_str m =
    if m == 0 then codes "readonly" else if m == 2 then codes "admin" else codes "readwrite"

unfoldable pub str_to_cache_mode : Bytes → ℕ
str_to_cache_mode s =
    if fnv1a s == fnv1a (codes "readonly")
    then 0
    else if fnv1a s == fnv1a (codes "admin")
    then 2
    else 1

unfoldable pub eviction_str : ℕ → Bytes
eviction_str e =
    if e == 1
    then codes "allkeys-lru"
    else if e == 2
    then codes "allkeys-random"
    else codes "noeviction"

unfoldable pub str_to_eviction : Bytes → ℕ
str_to_eviction s =
    if fnv1a s == fnv1a (codes "allkeys-lru")
    then 1
    else if fnv1a s == fnv1a (codes "allkeys-random")
    then 2
    else 0

-- Each type is read back from its word: the hashes of the four words differ.
pub str_to_type-type_str : (type : RuntimeType) → str_to_type (type_str type) ≡ type
unfolding str_to_type type_str fnv1a fnv1a_from
str_to_type-type_str server = refl
str_to_type-type_str client = refl
str_to_type-type_str proxy = refl
str_to_type-type_str cache = refl
