-- ===== src/Runtime/Manager.antt =====
-- `runtime_manager`: the map of the runtimes and the cascade from an owner to its children. The lock
-- is taken and left within each of the methods called, so a method is one step on the map.
pub mod Shrinks
pub mod Cascade
pub mod Quiet
pub mod Stopped
pub mod Names
use socketley.Prelude.{
  ℕ, zero, suc, Bool, true, false, not, ◌&&◌, ◌||◌, Option, none, some, List, [], ◌∷◌, Bytes, beq,
  length, ltb, leb, ◌==◌, is_some, if◌then◌else◌,
}
use socketley.Prelude.Int.{ℤ}
use socketley.Map.{Map, find, erase, assign, emplace, contains}
use socketley.Runtime.Instance.{
  RuntimeType, Instance, ChildPolicy, stop_child, remove_child, running, state_is, new_instance,
}
use socketley.Runtime.Instance

abbrev pub Manager : Type 0
Manager = Map Instance

-- The loop's test of a character, in the C locale, and that of the whole name.
abbrev pub name_char : ℕ → Bool
name_char c =
    (leb b'a' c && leb c b'z')
    || (leb b'A' c && leb c b'Z')
    || (leb b'0' c && leb c b'9')
    || c == b'-'
    || c == b'_'
    || c == b'.'

unfoldable pub all_chars : Bytes → Bool
all_chars [] = true
all_chars (c ∷ name) = name_char c && all_chars name

abbrev pub starts_with_dot : Bytes → Bool
starts_with_dot [] = false
starts_with_dot (c ∷ name) = c == b'.'

unfoldable pub valid_name : Bytes → Bool
valid_name name =
    not (ltb (length name) 1)
    && not (ltb 128 (length name))
    && not (starts_with_dot name)
    && all_chars name

unfoldable pub create : RuntimeType → Bytes → Manager → Bool × Manager
create type name m =
    if not (valid_name name)
    then (false, m)
    else if contains name m
    then (false, m)
    else (true, emplace name (new_instance type name) m)

-- The answers of `setup` and `fork` are arguments.
unfoldable pub start : Bool → ℤ → Bytes → Manager → Bool × Manager
start ready child name m = elim (find name m) [
  | none ↦ (false, m)
  | some i ↦ let after = Instance.start ready child i in (after.0, assign name after.1 m)
]

unfoldable pub remove : Bytes → Manager → Bool × Manager
remove name m = if contains name m then (true, erase name m) else (false, m)

unfoldable pub extract : Bytes → Manager → Option Instance × Manager
extract name m = elim (find name m) [ none ↦ (none, m) | some i ↦ (some i, erase name m) ]

unfoldable pub rename : Bytes → Bytes → Manager → Bool × Manager
rename old_name new_name m = elim (find old_name m) [
  | none ↦ (false, m)
  | some i ↦
      if contains new_name m
      then (false, m)
      else (true, emplace new_name (record i { m_name = new_name }) (erase old_name m))
]

unfoldable pub get_children : Bytes → Manager → List Bytes
get_children parent_name [] = []
get_children parent_name ((name, i) ∷ m) =
    let rest = get_children parent_name m in if beq i.m_owner parent_name then name ∷ rest else rest

unfoldable pub get_by_group : Bytes → Manager → List Bytes
get_by_group group [] = []
get_by_group group ((name, i) ∷ m) =
    let rest = get_by_group group m in
    if beq i.m_group group && state_is i.m_state running then name ∷ rest else rest

unfoldable pub stop_all : Manager → Manager
stop_all [] = []
stop_all ((name, i) ∷ m) =
    (name, if state_is i.m_state running then (Instance.stop i).1 else i) ∷ stop_all m

-- The three methods that call one another.
pub data Task : Type 0 where
  stop_task stop_children_task remove_children_task : Bytes → Task

-- A loop over names. `none` is a pointer to a removed instance that is followed, or fuel that is out.
unfoldable pub for_each : (Bytes → Manager → Option Manager) → List Bytes → Manager → Option Manager
for_each body [] m = some m
for_each body (name ∷ names) m = elim (body name m) [
  | none ↦ none
  | some m' ↦ for_each body names m'
]

abbrev pub is_running : Bytes → Manager → Bool
is_running name m = elim (find name m) [ none ↦ false | some i ↦ state_is i.m_state running ]

-- The two branches on the policy in the loop of `stop`: before the child is stopped, and after.
unfoldable pub children_task : ChildPolicy → Bytes → Task
children_task remove_child child = remove_children_task child
children_task stop_child child = stop_children_task child

unfoldable pub drop_child : ChildPolicy → Bytes → Manager → Manager
drop_child remove_child child m = (remove child m).1
drop_child stop_child child m = m

module _ (work : Task → Manager → Option Manager) where
  abbrev pub stop_if_running : Bytes → Manager → Option Manager
  stop_if_running name m = if is_running name m then work (stop_task name) m else some m

  -- The second half of the loop of `stop`, which reads the child through the pointer taken before.
  unfoldable pub settle_child : Bytes → Manager → Option Manager
  settle_child child m = elim (find child m) [
    | none ↦ none
    | some i ↦ elim (stop_if_running child m) [
      | none ↦ none
      | some m' ↦ some (drop_child i.m_child_policy child m')
    ]
  ]

  -- One round of the loop of `stop`.
  unfoldable pub cascade_child : Bytes → Manager → Option Manager
  cascade_child child m = elim (find child m) [
    | none ↦ some m
    | some i ↦ elim (work (children_task i.m_child_policy child) m) [
      | none ↦ none
      | some m' ↦ settle_child child m'
    ]
  ]

  unfoldable pub stop_body : Bytes → Manager → Option Manager
  stop_body name m = elim (find name m) [
    | none ↦ some m
    | some i ↦ elim (Instance.stop i).0 [
      | false ↦ some m
      | true ↦
          let m' = assign name (Instance.stop i).1 m in
          for_each cascade_child (get_children name m') m'
    ]
  ]

  unfoldable pub stop_children_round : Bytes → Manager → Option Manager
  stop_children_round child m = elim (work (stop_children_task child) m) [
    | none ↦ none
    | some m' ↦ work (stop_task child) m'
  ]

  unfoldable pub remove_children_round : Bytes → Manager → Option Manager
  remove_children_round child m = elim (work (remove_children_task child) m) [
    | none ↦ none
    | some m' ↦ elim (stop_if_running child m') [
      | none ↦ none
      | some m'' ↦ some (remove child m'').1
    ]
  ]

  unfoldable pub perform : Task → Manager → Option Manager
  perform (stop_task name) m = stop_body name m
  perform (stop_children_task parent) m = for_each stop_children_round (get_children parent m) m
  perform (remove_children_task parent) m = for_each remove_children_round (get_children parent m) m

-- The recursion of the three methods, on fuel.
unfoldable pub work_on : ℕ → Task → Manager → Option Manager
work_on zero task m = none
work_on (suc fuel) task m = perform (work_on fuel) task m

-- `stop` with its answer.
unfoldable pub stop : ℕ → Bytes → Manager → Option (Bool × Manager)
stop fuel name m = elim (work_on fuel (stop_task name) m) [
  | none ↦ none
  | some m' ↦ some (is_running name m, m')
]
