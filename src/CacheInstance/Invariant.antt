-- ===== src/CacheInstance/Invariant.antt =====
-- The invariants of the store behind any commands of a connection.
use socketley.Prelude.{ℕ, ◌≡◌, refl, false, some, Bytes}
use socketley.Cache.Consistent.{IsConsistent}
use socketley.Cache.Commands.Invariant.{exec-IsSound}
use socketley.Cache.Lru.Helpers.{IsLinked}
use socketley.Cache.Lru.Commands.{exec-IsLinked}
use socketley.CacheInstance.Session.{CacheMode, Session, World}
use socketley.CacheInstance.Keeps.{IsKept}
use socketley.CacheInstance.Text.Keys.{is_admin}
use socketley.CacheInstance.Input.{handle_data}
use socketley.CacheInstance.Input.Keeps.{handle_data-Good}

invariants-IsKept : (mode : CacheMode) → IsKept mode (λ s. IsConsistent s × IsLinked s)
invariants-IsKept mode = record {
  keeps = λ r now c s t allowed h run.
      (record { at = λ j. exec-IsSound r now s t h.0 j c run }, exec-IsLinked r now s t h.1 c run);
}

-- Outside the mode `admin`, whatever bytes arrive in either protocol, the handler leaves the store
-- consistent (each key in one container at most, a deadline only with a value, no empty container) and
-- its eviction order linked, where it was so before.
pub handle_data-IsConsistent :
    (turns : ℕ → World) (bytes : Bytes) (x y : Session)
    → is_admin x.mode ≡ false
    → IsConsistent x.store
    → IsLinked x.store
    → handle_data turns bytes x ≡ some y
    → IsConsistent y.store × IsLinked y.store
handle_data-IsConsistent turns bytes x y plain h k run =
    (handle_data-Good (invariants-IsKept x.mode) plain turns bytes x y (refl, (h, k)) run).1
