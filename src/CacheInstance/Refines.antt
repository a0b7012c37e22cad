-- ===== src/CacheInstance/Refines.antt =====
-- What the instance does to the store, as steps of the store's own commands.
use socketley.Prelude.{ℕ, ◌≡◌, refl, true, false, some, Bytes}
use socketley.Prelude.Int.{ℤ}
use socketley.Cache.State.{Store}
use socketley.Cache.Eviction.{Rng}
use socketley.Cache.Commands.{Command, exec}
use socketley.CacheInstance.Session.{CacheMode, Session, World}
use socketley.CacheInstance.Keeps.{IsKept, allows}
use socketley.CacheInstance.Text.Keys.{is_admin}
use socketley.CacheInstance.Input.{handle_data}
use socketley.CacheInstance.Input.Keeps.{handle_data-Good}

-- The stores that commands of `cache_store` reach from `s`, at any times and with any draws, where the
-- mode allows each of them.
pub data Reaches (mode : CacheMode) (s : Store) : Store → Type 0 where
  stay : Reaches mode s s
  step :
      (r : Rng) (now : ℤ) (c : Command) (t u : Store)
      → allows mode c ≡ true
      → Reaches mode s t
      → exec r now c t ≡ some u
      → Reaches mode s u

Reaches-IsKept : (mode : CacheMode) (s : Store) → IsKept mode (Reaches mode s)
Reaches-IsKept mode s = record {
  keeps = λ r now c t u allowed far run. step r now c t u allowed far run;
}

-- Outside the mode `admin`, whatever bytes arrive in either protocol, the handler changes the store by
-- commands of the store alone, each of them one that the mode allows, and leaves the mode as it is.
pub handle_data-Reaches :
    (turns : ℕ → World) (bytes : Bytes) (x y : Session)
    → is_admin x.mode ≡ false
    → handle_data turns bytes x ≡ some y
    → (y.mode ≡ x.mode) × Reaches x.mode x.store y.store
handle_data-Reaches turns bytes x y plain run =
    handle_data-Good (Reaches-IsKept x.mode x.store) plain turns bytes x y (refl, stay) run
