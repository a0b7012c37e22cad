-- ===== src/Cli/Resolver.antt =====
-- `resolve_names_impl` of shared/name_resolver.h. `fnmatch` is the C library's.
use socketley.Prelude.{
  ℕ, ◌≡◌, refl, arith, Bool, true, false, not, ◌&&◌, ◌||◌, List, [], ◌∷◌, ◌++◌, Bytes, beq, beq_iff,
  drop, ◌==◌, if◌then◌else◌,
}
use socketley.Map.{Map, find, contains}

abbrev pub is_glob : Bytes → Bool
is_glob [] = false
is_glob (c ∷ arg) = c == b'*' || c == b'?' || c == b'[' || is_glob arg

abbrev pub is_flag : Bytes → Bool
is_flag [] = true
is_flag (c ∷ arg) = c == b'-'

module _ {ℓ} {V : Type ℓ} (fnmatch : Bytes → Bytes → Bool) where
  -- The names that the pattern matches, in the order of the map.
  unfoldable pub matching_names : Bytes → Map V → List Bytes
  matching_names pattern [] = []
  matching_names pattern ((name, v) ∷ names) =
      let rest = matching_names pattern names in if fnmatch pattern name then name ∷ rest else rest

  unfoldable pub resolve_arg : Bytes → Map V → List Bytes
  resolve_arg arg names =
      if is_flag arg
      then []
      else if is_glob arg
      then matching_names arg names
      else if contains arg names
      then arg ∷ []
      else []

  unfoldable pub resolve_args : List Bytes → Map V → List Bytes
  resolve_args [] names = []
  resolve_args (arg ∷ args) names = resolve_arg arg names ++ resolve_args args names

  -- The arguments from `start` on.
  unfoldable pub resolve_names : ℕ → List Bytes → Map V → List Bytes
  resolve_names start args names = resolve_args (drop start args) names

abbrev pub listed : Bytes → List Bytes → Bool
listed name [] = false
listed name (n ∷ names) = beq n name || listed name names

listed-append :
    (name : Bytes) (xs ys : List Bytes)
    → listed name (xs ++ ys) ≡ (listed name xs || listed name ys)
listed-append name [] ys = refl
listed-append name (x ∷ xs) ys = ground (arith, listed-append name xs ys)

-- Whether an argument asks for a name: the name itself, or a pattern that matches it, and no flag.
abbrev pub asks : (Bytes → Bytes → Bool) → Bytes → Bytes → Bool
asks fnmatch name arg =
    not (is_flag arg) && (if is_glob arg then fnmatch arg name else beq arg name)

abbrev pub some_asks : (Bytes → Bytes → Bool) → Bytes → List Bytes → Bool
some_asks fnmatch name [] = false
some_asks fnmatch name (arg ∷ args) = asks fnmatch name arg || some_asks fnmatch name args

module _ {ℓ} {V : Type ℓ} (fnmatch : Bytes → Bytes → Bool) (name : Bytes) (names : Map V) where
  listed-matching_names :
      (pattern : Bytes) (m : Map V)
      → listed name (matching_names fnmatch pattern m) ≡ (contains name m && fnmatch pattern name)
  unfolding matching_names find
  listed-matching_names pattern [] = ground arith
  listed-matching_names pattern ((n, v) ∷ m) =
      ground (arith, listed-matching_names pattern m, beq_iff n name)

  listed-resolve_arg :
      (arg : Bytes)
      → listed name (resolve_arg fnmatch arg names) ≡ (contains name names && asks fnmatch name arg)
  unfolding resolve_arg
  listed-resolve_arg arg = ground (arith, listed-matching_names arg names, beq_iff arg name)

  listed-resolve_args :
      (args : List Bytes)
      → listed name (resolve_args fnmatch args names)
        ≡ (contains name names && some_asks fnmatch name args)
  unfolding resolve_args
  listed-resolve_args [] = ground arith
  listed-resolve_args (arg ∷ args) = ground (
    arith,
    listed-append name (resolve_arg fnmatch arg names) (resolve_args fnmatch args names),
    listed-resolve_arg arg,
    listed-resolve_args args,
  )

  -- A name is resolved exactly where it is there and an argument from the start on asks for it.
  pub listed-resolve_names :
      (start : ℕ) (args : List Bytes)
      → listed name (resolve_names fnmatch start args names)
        ≡ (contains name names && some_asks fnmatch name (drop start args))
  unfolding resolve_names
  listed-resolve_names start args = listed-resolve_args (drop start args)
