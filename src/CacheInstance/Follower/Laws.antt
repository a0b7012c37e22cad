-- ===== src/CacheInstance/Follower/Laws.antt =====
-- A value that a leader stores by SET reaches the followers.
use socketley.Prelude.{ℕ, ◌≡◌, Bool, true, false, not, ◌&&◌, List, [], ◌∷◌, Bytes, codes, ◌==◌}
use socketley.Cache.Strings
use socketley.Config.Names.{fnv1a, fnv1a_lower}
use socketley.CacheInstance.Session.{Session}

-- A byte is not in a text.
unfoldable pub lacks : ℕ → Bytes → Bool
lacks b [] = true
lacks b (c ∷ text) = not (c == b) && lacks b text

-- A text does not end in a byte, and is not empty.
unfoldable pub ends_without : ℕ → Bytes → Bool
ends_without b [] = false
ends_without b (c ∷ []) = not (c == b)
ends_without b (c ∷ d ∷ text) = ends_without b (d ∷ text)

-- The word is SET, in small or large letters: its hash is the one that both switches have for it.
abbrev pub IsSetWord : Bytes → Type 0
IsSetWord word = fnv1a_lower word ≡ fnv1a (codes "set")
