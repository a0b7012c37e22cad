-- ===== src/Runtime/Instance.antt =====
-- `runtime_instance`: the life cycle of one runtime. What the subclass, the script and the operating
-- system answer are arguments: `setup`, `fork`, and the script that a reload finds.
pub mod Lifecycle
use socketley.Prelude.{
  ℕ, ◌*◌, ◌/◌, ◌%◌, Bool, true, false, not, ◌&&◌, ◌||◌, Option, none, some, List, [], ◌∷◌, ◌++◌,
  Bytes, map, ltb, if◌then◌else◌,
}
use socketley.Prelude.Int.{ℤ, pos, ltb_ℤ}

pub data RuntimeState : Type 0 where
  created running stopped failed : RuntimeState

pub data RuntimeType : Type 0 where
  server client proxy cache : RuntimeType

pub data ChildPolicy : Type 0 where
  stop_child remove_child : ChildPolicy

-- What a loaded script says of its tick callback.
pub record Lua : Type 0 where
  pub has_on_tick : Bool
  pub tick_ms : ℕ

-- The members that the life cycle reads or writes. `m_tick` is the period of the armed timer, as
-- seconds and nanoseconds.
pub record Instance : Type 0 where
  pub m_name : Bytes
  pub m_type : RuntimeType
  pub m_state : RuntimeState
  pub m_owner : Bytes
  pub m_child_policy : ChildPolicy
  pub m_group : Bytes
  pub m_external : Bool
  pub m_managed : Bool
  pub m_exec_path : Bytes
  pub m_pid : ℤ
  pub m_lua : Option Lua
  pub m_lua_script_path : Bytes
  pub m_cb_on_tick : Bool
  pub m_cb_tick_ms : ℕ
  pub m_event_loop : Bool
  pub m_tick : Option (ℕ × ℕ)
  pub m_interactive_fds : List ℕ

-- The calls out of the class, in the order in which they are made.
pub data Event : Type 0 where
  setup on_start on_stop teardown : Event
  fork reap terminate : ℤ → Event
  signal_stopped : ℕ → Event

abbrev pub state_is : RuntimeState → RuntimeState → Bool
state_is created created = true
state_is running running = true
state_is stopped stopped = true
state_is failed failed = true
state_is _ _ = false

abbrev pub is_empty_path : Bytes → Bool
is_empty_path [] = true
is_empty_path (c ∷ path) = false

-- The constructor.
unfoldable pub new_instance : RuntimeType → Bytes → Instance
new_instance type name = record {
  m_name = name;
  m_type = type;
  m_state = created;
  m_owner = [];
  m_child_policy = stop_child;
  m_group = [];
  m_external = false;
  m_managed = false;
  m_exec_path = [];
  m_pid = pos 0;
  m_lua = none;
  m_lua_script_path = [];
  m_cb_on_tick = false;
  m_cb_tick_ms = 0;
  m_event_loop = false;
  m_tick = none;
  m_interactive_fds = [];
}

-- The period in milliseconds: the callback's, or the script's, or 100, and 10 at least.
unfoldable pub tick_period : Instance → ℕ
tick_period i =
    let ms : ℕ =
      if ltb 0 i.m_cb_tick_ms
      then i.m_cb_tick_ms
      else (elim i.m_lua [ none ↦ 100 | some lua ↦ lua.tick_ms ]) in
    if ltb ms 10 then 10 else ms

unfoldable pub timespec : ℕ → ℕ × ℕ
timespec ms = (ms / 1000, (ms % 1000) * 1_000_000)

unfoldable pub start_tick_timer : Instance → Instance
start_tick_timer i = record i { m_tick = some (timespec (tick_period i)) }

-- `m_lua && m_lua->has_on_tick()`
abbrev pub script_ticks : Instance → Bool
script_ticks i = elim i.m_lua [ none ↦ false | some lua ↦ lua.has_on_tick ]

-- The branch of `start` for a runtime of another process; `child` is what `fork` returns.
unfoldable pub start_external : ℤ → Instance → Bool × Instance × List Event
start_external child i =
    if i.m_managed && not (is_empty_path i.m_exec_path)
    then (let reaped = if ltb_ℤ (pos 0) i.m_pid then reap i.m_pid ∷ [] else [] in
        if ltb_ℤ child (pos 0)
        then (false, i, reaped ++ fork child ∷ [])
        else (true, record i { m_pid = child; m_state = running }, reaped ++ fork child ∷ []))
    else (true, record i { m_state = running }, [])

-- `ready` is what `setup` returns.
unfoldable pub start_internal : Bool → Instance → Bool × Instance × List Event
start_internal ready i =
    if not ready
    then (false, record i { m_state = failed }, setup ∷ [])
    else (let started = record i { m_state = running } in
        (
          true,
          if (i.m_cb_on_tick || script_ticks i) && i.m_event_loop
              then start_tick_timer started
              else started,
          setup ∷ on_start ∷ [],
        ))

unfoldable pub start : Bool → ℤ → Instance → Bool × Instance × List Event
start ready child i =
    if not (state_is i.m_state created) && not (state_is i.m_state stopped)
    then (false, i, [])
    else if i.m_external
    then start_external child i
    else start_internal ready i

unfoldable pub stop : Instance → Bool × Instance × List Event
stop i =
    if not (state_is i.m_state running)
    then (false, i, [])
    else if i.m_external
    then (
      true,
      record i { m_state = stopped },
      if ltb_ℤ (pos 0) i.m_pid
          then terminate i.m_pid ∷ (if i.m_managed then reap i.m_pid ∷ [] else [])
          else [],
    )
    else (
      true,
      record i { m_state = stopped; m_tick = none; m_interactive_fds = [] },
      on_stop ∷ teardown ∷ map signal_stopped i.m_interactive_fds,
    )

-- `reload_lua_script`; `script` is what `load_script` makes of the path. The timer is armed through
-- `m_event_loop` without a test of the pointer: `none` is the null dereference.
unfoldable pub reload_lua_script : Option Lua → Instance → Option (Bool × Instance)
reload_lua_script script i =
    if is_empty_path i.m_lua_script_path
    then some (false, i)
    else if not (state_is i.m_state running)
    then some (false, i)
    else (elim script [
      | none ↦ some (false, record i { m_lua = none })
      | some lua ↦
          let loaded = record i { m_lua = some lua } in
          elim i.m_tick [
            | none ↦
                if not lua.has_on_tick
                then some (true, loaded)
                else if loaded.m_event_loop
                then some (true, start_tick_timer loaded)
                else none
            | some _ ↦
                some (true, if lua.has_on_tick then loaded else record loaded { m_tick = none })
          ]
    ])
