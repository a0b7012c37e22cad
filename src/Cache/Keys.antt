-- ===== src/Cache/Keys.antt =====
-- `keys` and `scan` of cache_store.cpp. `fnmatch` is the C library's, a parameter; the key and the
-- pattern are passed to it as they are.
use socketley.Prelude.{
  ℕ, ◌+◌, Bool, true, ◌||◌, List, [], ◌∷◌, ◌++◌, Bytes, ltb, beq, map, if◌then◌else◌,
}
use socketley.Cache.State.{Store}

abbrev pub FnMatch : Type 0
FnMatch = Bytes → Bytes → Bool

-- The keys of the four containers, in the order in which the loops meet them.
unfoldable pub all_keys : Store → List Bytes
all_keys s =
    map (λ e. e.0) s.m_data
    ++ (map (λ e. e.0) s.m_lists ++ (map (λ e. e.0) s.m_sets ++ map (λ e. e.0) s.m_hashes))

unfoldable pub matching : (Bytes → Bool) → List Bytes → List Bytes
matching match' [] = []
matching match' (k ∷ ks) = let rest = matching match' ks in if match' k then k ∷ rest else rest

abbrev pub star : Bytes
star = b'*' ∷ []

unfoldable pub keys : FnMatch → Bytes → Store → List Bytes
keys fnmatch pattern s =
    matching (λ k. if beq pattern star then true else fnmatch pattern k) (all_keys s)

-- The test of `scan`, for which an empty pattern matches too.
abbrev pub scan_match : FnMatch → Bytes → Bytes → Bool
scan_match fnmatch pattern k =
    if beq pattern [] || beq pattern star then true else fnmatch pattern k

-- The loops of `scan` over the keys: `pos` counts the keys met, `found` those put out. The answer is
-- the next cursor, 0 at the end, and the keys found from here on.
unfoldable pub scan_from : (Bytes → Bool) → ℕ → ℕ → ℕ → ℕ → List Bytes → ℕ × List Bytes
scan_from match' cursor count pos found [] = (0, [])
scan_from match' cursor count pos found (k ∷ ks) =
    let skip = scan_from match' cursor count (pos + 1) found ks in
    let out = scan_from match' cursor count (pos + 1) (found + 1) ks in
    if ltb pos cursor
    then skip
    else if match' k
    then (if ltb (found + 1) count then (out.0, k ∷ out.1) else (pos + 1, k ∷ []))
    else if ltb found count
    then skip
    else (pos + 1, [])

unfoldable pub scan : FnMatch → ℕ → Bytes → ℕ → Store → ℕ × List Bytes
scan fnmatch cursor pattern count s =
    scan_from (scan_match fnmatch pattern) cursor count 0 0 (all_keys s)
