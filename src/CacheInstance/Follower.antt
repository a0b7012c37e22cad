-- ===== src/CacheInstance/Follower.antt =====
-- `handle_master_read`: what a follower does with the bytes that its leader sends.
pub mod Laws
use Prim.Native.String.{String}
use socketley.Prelude.{
  ℕ, suc, Bool, true, false, Option, none, some, List, [], ◌∷◌, ◌++◌, Bytes, codes, ◌||◌, ◌==◌,
  if◌then◌else◌,
}
use socketley.Cache.State.{Store}
use socketley.Cache.Eviction.{Rng}
use socketley.Cache.General.{del}
use socketley.Cache.Strings
use socketley.Cache.Lists.{lpush, rpush}
use socketley.Cache.Sets.{sadd}
use socketley.Cache.Hashes.{hset}
use socketley.Config.Names.{fnv1a, fnv1a_lower}
use socketley.CacheInstance.Connection.{is_empty_list}
use socketley.CacheInstance.Text.{key_of, args_behind}
use socketley.CacheInstance.Input.{cut_lines, strip_cr}

-- The commands that a follower knows.
pub data MasterVerb : Type 0 where
  master_set master_del master_lpush master_rpush master_sadd master_hset master_other : MasterVerb

abbrev pub master_verbs : List (String × MasterVerb)
master_verbs =
    ("set", master_set)
    ∷ ("del", master_del)
    ∷ ("lpush", master_lpush)
    ∷ ("rpush", master_rpush)
    ∷ ("sadd", master_sadd)
    ∷ ("hset", master_hset)
    ∷ []

unfoldable pub master_verb_among : List (String × MasterVerb) → ℕ → MasterVerb
master_verb_among [] hash = master_other
master_verb_among ((name, verb) ∷ cases) hash =
    let later = master_verb_among cases hash in if hash == fnv1a (codes name) then verb else later

-- The store without the answer.
abbrev pub stored {ℓ} : {A : Type ℓ} → Option (A × Store) → Option Store
stored none = none
stored (some (answer, s)) = some s

-- Without a key or a value nothing is done.
abbrev pub unless_empty : Bytes → Bytes → Store → Option Store → Option Store
unless_empty a b s body = if is_empty_list a || is_empty_list b then some s else body

unfoldable pub master_perform : MasterVerb → Rng → Bytes → Store → Option Store
master_perform master_set r args s =
    unless_empty (key_of args) (args_behind args) s
      (some (Strings.set r (key_of args) (args_behind args) s).1)
master_perform master_del r args s = some (if is_empty_list args then s else (del args s).1)
master_perform master_lpush r args s =
    unless_empty (key_of args) (args_behind args) s
      (stored (lpush r (key_of args) (args_behind args) s))
master_perform master_rpush r args s =
    unless_empty (key_of args) (args_behind args) s
      (stored (rpush r (key_of args) (args_behind args) s))
master_perform master_sadd r args s =
    unless_empty (key_of args) (args_behind args) s
      (stored (sadd r (key_of args) (args_behind args) s))
master_perform master_hset r args s =
    let rest = args_behind args in
    if is_empty_list (key_of args)
    then some s
    else unless_empty (key_of rest) (args_behind rest) s
        (stored (hset r (key_of args) (key_of rest) (args_behind rest) s))
master_perform master_other r args s = some s

-- A line of the leader; an empty one is skipped.
unfoldable pub master_line : Rng → Bytes → Store → Option Store
master_line r [] s = some s
master_line r (c ∷ line) s =
    master_perform (master_verb_among master_verbs (fnv1a_lower (key_of (c ∷ line)))) r
      (args_behind (c ∷ line)) s

-- The lines that are whole, with the draws of each.
unfoldable pub master_lines : (ℕ → Rng) → List Bytes → Store → Option Store
master_lines draws [] s = some s
master_lines draws (line ∷ ls) s = elim (master_line (draws 0) (strip_cr line) s) [
  | none ↦ none
  | some t ↦ master_lines (λ n. draws (suc n)) ls t
]

-- Bytes from the leader: what stays in `m_master_partial`, and the store.
unfoldable pub handle_master_data : (ℕ → Rng) → Bytes → Bytes → Store → Option (Bytes × Store)
handle_master_data draws bytes partial s =
    elim (master_lines draws (cut_lines (partial ++ bytes)).0 s) [
      | none ↦ none
      | some t ↦ some ((cut_lines (partial ++ bytes)).1, t)
    ]
