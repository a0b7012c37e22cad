-- ===== src/Cache/Persist/Accounting.antt =====
-- `load_v2` and the accounting of memory.
use socketley.Prelude.{
  ℕ, zero, suc, ◌≡◌, inl, inr, arith, Bool, some, [], ◌∷◌, Bytes, length, Option-cases,
}
use socketley.Prelude.Int.{ℤ}
use socketley.Cache.State.{Store}
use socketley.Cache.Persist.Load.{
  read_string, Step, next, fail, undefined, set_deadline, load_string, read_expiry, finish,
  put_list, put_set, put_hash, load_list, load_set, load_hash, load_value, load_loop, clear,
  load_v2,
}

-- The count of bytes and the eviction order are those of another store.
abbrev pub SameAccount : Store → Store → Type 0
SameAccount s t = (t.m_current_memory ≡ s.m_current_memory) × (t.m_lru_order ≡ s.m_lru_order)

abbrev Unaccounted : Store → Step → Type 0
Unaccounted s (next t p) = SameAccount s t
Unaccounted s (fail t) = SameAccount s t
Unaccounted s undefined = Unit {0}

load_string-Unaccounted :
    (now : ℤ) (key p : Bytes) (s : Store) → Unaccounted s (load_string now key p s)
unfolding load_string set_deadline
load_string-Unaccounted now key p s = ground arith

read_expiry-Unaccounted :
    (now : ℤ) (key p : Bytes) (s : Store) → Unaccounted s (read_expiry now key p s)
unfolding read_expiry set_deadline
read_expiry-Unaccounted now key p s = ground arith

finish-Unaccounted :
    (now : ℤ) (key : Bytes) (put : Store → Store) (p : Bytes) (s : Store)
    → ((t : Store) → SameAccount t (put t))
    → Unaccounted s (finish now key put p s)
unfolding finish
finish-Unaccounted now key put p s keeps = grind (arith, read_expiry-Unaccounted now key p s, keeps)

load_value-Unaccounted :
    (now : ℤ) (type : ℕ) (key p : Bytes) (s : Store) → Unaccounted s (load_value now type key p s)
unfolding load_value load_list load_set load_hash put_list put_set put_hash
load_value-Unaccounted now type key p s =
    grind (arith, load_string-Unaccounted now key p s, finish-Unaccounted)

load_loop-SameAccount :
    (now : ℤ) (fuel : ℕ) (p : Bytes) (s t : Store) (b : Bool)
    → load_loop now fuel p s ≡ some (b, t)
    → SameAccount s t
unfolding load_loop
load_loop-SameAccount now zero p s t b run = ground arith
load_loop-SameAccount now (suc fuel) [] s t b run = ground arith
load_loop-SameAccount now (suc fuel) (type ∷ p) s t b run = elim (Option-cases (read_string p)) [
  | inl short ↦ ground arith
  | inr ((key, q), read) ↦
      grind (arith, load_value-Unaccounted now type key q s, load_loop-SameAccount now fuel)
]

-- Whatever the bytes, a `load_v2` that returns has accounted nothing and entered no key into the
-- eviction order.
pub load_v2_unaccounted :
    (now : ℤ) (p : Bytes) (s t : Store) (b : Bool)
    → load_v2 now p s ≡ some (b, t)
    → (t.m_current_memory ≡ 0) × (t.m_lru_order ≡ [])
unfolding load_v2 clear
load_v2_unaccounted now p s t b run = load_loop-SameAccount now (length p) p (clear s) t b run
