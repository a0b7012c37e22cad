-- ===== src/Runtime/Manager/Names.antt =====
-- The names of the map: what a renaming does to the runtimes and their owners.
use mathlib.Core.Option
use socketley.Prelude.{
  ◌≡◌, ◌≢◌, inl, inr, arith, true, not, ◌&&◌, none, some, Bytes, beq, beq_iff, beq_refl,
  Option-cases, if◌then◌else◌,
}
use socketley.Map.{find, contains}
use socketley.Map.Laws.{find-erase}
use socketley.Runtime.Instance.{Instance}
use socketley.Runtime.Manager.{Manager, rename}

-- `rename` succeeds exactly where the old name is there and the new one is not, be it valid or not; the
-- instance then stands under the new name, the old one is free, and every other entry, its owner
-- included, is as it was.
pub rename_lem :
    (old new j : Bytes) (m : Manager)
    → ((rename old new m).0 ≡ (contains old m && not (contains new m)))
      × (find j (rename old new m).1 ≡ (
          if (rename old new m).0
          then (if beq new j
              then Option.map (λ (i : Instance). record i { m_name = new }) (find old m)
              else if beq old j
              then none
              else find j m)
          else find j m))
unfolding rename find Option.map
rename_lem old new j m = elim (Option-cases (find old m)) [
  | inl gone ↦ ground arith
  | inr (i, there) ↦ ground (arith, find-erase old j m)
]

-- A renaming that succeeds leaves the children of the runtime with an owner that is not there.
pub rename_orphans :
    (old new c : Bytes) (i : Instance) (m : Manager)
    → (rename old new m).0 ≡ true
    → find c m ≡ some i
    → i.m_owner ≡ old
    → c ≢ old
    → (find c (rename old new m).1 ≡ some i) × (find old (rename old new m).1 ≡ none)
rename_orphans old new c i m ok there own other = ground (
  arith,
  rename_lem old new c m,
  rename_lem old new old m,
  beq_iff new c,
  beq_iff old c,
  beq_iff new old,
  beq_refl old,
)
