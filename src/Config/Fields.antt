-- ===== src/Config/Fields.antt =====
-- `runtime_config`, `format_json_pretty` and `parse_json_string`. Floating-point numbers, `snprintf` with
-- `%g` and `std::stod` are a value of `Floats`; an integer of an unsigned type is a number.
pub mod Lookup
pub mod Laws
use socketley.Prelude.{
  ℕ, ◌%◌, ◌^◌, Bool, true, false, not, ◌&&◌, ◌||◌, Option, none, some, List, [], ◌∷◌, ◌++◌, Bytes,
  codes, beq, ltb, ◌==◌, if◌then◌else◌,
}
use socketley.Prelude.Int.{ℤ, pos, negsuc, ltb_ℤ, leb_ℤ}
use socketley.Prelude.Words.{to_chars, decimal}
use socketley.Runtime.Instance.{RuntimeType, server, client, proxy, cache}
use socketley.Config.Json.{
  quote, json_escape, json_get_string, json_get_bool, json_get_int, json_get_array, json_get_number,
  to_unsigned,
}
use socketley.Config.Names.{
  type_str, str_to_type, server_mode_str, str_to_server_mode, proxy_protocol_str,
  str_to_proxy_protocol, proxy_strategy_str, str_to_proxy_strategy, cache_mode_str,
  str_to_cache_mode, eviction_str, str_to_eviction,
}

pub record Floats : Type 1 where
  pub Double : Type 0
  pub zero_point : Double
  pub is_positive : Double → Bool
  pub print : Double → Bytes
  pub stod : Bytes → Option Double

pub record RuntimeConfig (Double : Type 0) : Type 0 where
  pub name : Bytes
  pub id : Bytes
  pub type : RuntimeType
  pub port : ℕ
  pub was_running : Bool
  pub log_file : Bytes
  pub write_file : Bytes
  pub lua_script : Bytes
  pub bash_output : Bool
  pub bash_prefix : Bool
  pub bash_timestamp : Bool
  pub max_connections : ℕ
  pub rate_limit : Double
  pub global_rate_limit : Double
  pub idle_timeout : ℕ
  pub drain : Bool
  pub reconnect : ℤ
  pub tls : Bool
  pub cert_path : Bytes
  pub key_path : Bytes
  pub ca_path : Bytes
  pub target : Bytes
  pub cache_name : Bytes
  pub group : Bytes
  pub owner : Bytes
  pub child_policy : ℤ
  pub external_runtime : Bool
  pub managed : Bool
  pub exec_path : Bytes
  pub pid : ℤ
  pub mode : ℕ
  pub udp : Bool
  pub master_pw : Bytes
  pub master_forward : Bool
  pub http_dir : Bytes
  pub http_cache : Bool
  pub upstreams : List Bytes
  pub protocol : ℕ
  pub strategy : ℕ
  pub backends : List Bytes
  pub health_check : ℕ
  pub health_interval : ℤ
  pub health_path : Bytes
  pub health_threshold : ℤ
  pub circuit_threshold : ℤ
  pub circuit_timeout : ℤ
  pub retry_count : ℤ
  pub retry_all : Bool
  pub mesh_client_ca : Bytes
  pub mesh_client_cert : Bytes
  pub mesh_client_key : Bytes
  pub persistent_path : Bytes
  pub cache_mode : ℕ
  pub resp_forced : Bool
  pub replicate_target : Bytes
  pub max_memory : ℕ
  pub eviction : ℕ

-- The helpers `append_str_field`, `append_bool_field`, `append_int_field` and `append_double_field`, as
-- the text that they append.
abbrev pub field_start : Bytes → Bytes
field_start key = codes "    " ++ (quote ∷ (key ++ (quote ∷ codes ": ")))

abbrev pub field_end : Bytes
field_end = b',' ∷ 10 ∷ []

unfoldable pub str_field : Bytes → Bytes → Bytes
str_field key val = field_start key ++ (quote ∷ (json_escape val ++ (quote ∷ field_end)))

unfoldable pub bare_field : Bytes → Bytes → Bytes
bare_field key val = field_start key ++ (val ++ field_end)

abbrev pub bool_text : Bool → Bytes
bool_text true = codes "true"
bool_text false = codes "false"

-- The elements of an array, with a comma and a blank before each but the first.
unfoldable pub array_rest : List Bytes → Bytes
array_rest [] = []
array_rest (e ∷ arr) = codes ", " ++ (quote ∷ (json_escape e ++ (quote ∷ array_rest arr)))

unfoldable pub array_field : Bytes → List Bytes → Bytes
array_field key [] = []
array_field key (e ∷ arr) =
    field_start key
    ++ (b'[' ∷ quote ∷ (json_escape e ++ (quote ∷ (array_rest arr ++ (b']' ∷ field_end)))))

-- A field written only where its value is not the default.
abbrev pub str_unless_empty : Bytes → Bytes → Bytes
str_unless_empty key [] = []
str_unless_empty key (c ∷ val) = str_field key (c ∷ val)

abbrev pub true_if : Bytes → Bool → Bytes
true_if key b = if b then bare_field key (bool_text true) else []

abbrev pub int_if : Bool → Bytes → ℤ → Bytes
int_if test key v = if test then bare_field key (to_chars v) else []

abbrev pub number_if_positive : Bytes → ℕ → Bytes
number_if_positive key n = int_if (ltb 0 n) key (pos n)

abbrev pub int_unless : ℤ → Bytes → ℤ → Bytes
int_unless default_val key v = int_if (not (leb_ℤ v default_val && leb_ℤ default_val v)) key v

abbrev pub str_unless : Bytes → Bytes → Bytes → Bytes
str_unless default_val key val = if beq val default_val then [] else str_unless_empty key val

-- The trailing comma is taken away, and the object closed.
unfoldable pub close_object : Bytes → Bytes
close_object [] = codes "}" ++ 10 ∷ []
close_object (c ∷ []) = c ∷ (codes "}" ++ 10 ∷ [])
close_object (c ∷ d ∷ []) =
    if c == b',' && d == 10 then 10 ∷ (codes "}" ++ 10 ∷ []) else c ∷ d ∷ (codes "}" ++ 10 ∷ [])
close_object (c ∷ d ∷ e ∷ j) = c ∷ close_object (d ∷ e ∷ j)

module _ (f : Floats) where
  abbrev pub double_if_positive : Bytes → f.Double → Bytes
  double_if_positive key v = if f.is_positive v then bare_field key (f.print v) else []

  abbrev pub Config : Type 0
  Config = RuntimeConfig f.Double

  unfoldable pub common_fields : Config → Bytes
  common_fields cfg =
      str_unless_empty (codes "log_file") cfg.log_file
      ++ (str_unless_empty (codes "write_file") cfg.write_file
          ++ (str_unless_empty (codes "lua_script") cfg.lua_script
              ++ (true_if (codes "bash_output") cfg.bash_output
                  ++ (true_if (codes "bash_prefix") cfg.bash_prefix
                      ++ (true_if (codes "bash_timestamp") cfg.bash_timestamp
                          ++ (number_if_positive (codes "max_connections") cfg.max_connections
                              ++ (double_if_positive (codes "rate_limit") cfg.rate_limit
                                  ++ (double_if_positive (codes "global_rate_limit")
                                        cfg.global_rate_limit
                                      ++ (number_if_positive (codes "idle_timeout") cfg.idle_timeout
                                          ++ (true_if (codes "drain") cfg.drain
                                              ++ (int_if (leb_ℤ (pos 0) cfg.reconnect)
                                                    (codes "reconnect") cfg.reconnect
                                                  ++ (true_if (codes "tls") cfg.tls
                                                      ++ (str_unless_empty (codes "cert_path")
                                                            cfg.cert_path
                                                          ++ (str_unless_empty (codes "key_path")
                                                            cfg.key_path
                                                            ++ (str_unless_empty (codes "ca_path")
                                                            cfg.ca_path
                                                            ++ (str_unless_empty (codes "target")
                                                            cfg.target
                                                            ++ (str_unless_empty
                                                            (codes "cache_name") cfg.cache_name
                                                            ++ (str_unless_empty (codes "group")
                                                            cfg.group
                                                            ++ (str_unless_empty (codes "owner")
                                                            cfg.owner
                                                            ++ (int_unless (pos 0)
                                                            (codes "child_policy") cfg.child_policy
                                                            ++ ((if cfg.external_runtime
                                                            then bare_field
                                                            (codes "external_runtime")
                                                            (bool_text true)
                                                            ++ ((if cfg.managed
                                                            then bare_field (codes "managed")
                                                            (bool_text true)
                                                            ++ str_unless_empty (codes "exec_path")
                                                            cfg.exec_path
                                                            else [])
                                                            ++ int_if (ltb_ℤ (pos 0) cfg.pid)
                                                            (codes "pid") cfg.pid)
                                                            else []))))))))))))))))))))))

  unfoldable pub server_fields : Config → Bytes
  server_fields cfg =
      str_field (codes "mode") (server_mode_str cfg.mode)
      ++ (true_if (codes "udp") cfg.udp
          ++ (str_unless_empty (codes "master_pw") cfg.master_pw
              ++ (true_if (codes "master_forward") cfg.master_forward
                  ++ (str_unless_empty (codes "http_dir") cfg.http_dir
                      ++ (true_if (codes "http_cache") cfg.http_cache
                          ++ (array_field (codes "upstreams") cfg.upstreams))))))

  unfoldable pub client_fields : Config → Bytes
  client_fields cfg =
      str_field (codes "mode") (server_mode_str cfg.mode) ++ (true_if (codes "udp") cfg.udp)

  unfoldable pub proxy_fields : Config → Bytes
  proxy_fields cfg =
      str_field (codes "protocol") (proxy_protocol_str cfg.protocol)
      ++ (str_field (codes "strategy") (proxy_strategy_str cfg.strategy)
          ++ (array_field (codes "backends") cfg.backends
              ++ (number_if_positive (codes "health_check") cfg.health_check
                  ++ (int_unless (pos 5) (codes "health_interval") cfg.health_interval
                      ++ (str_unless (codes "/health") (codes "health_path") cfg.health_path
                          ++ (int_unless (pos 3) (codes "health_threshold") cfg.health_threshold
                              ++ (int_unless (pos 5) (codes "circuit_threshold")
                                    cfg.circuit_threshold
                                  ++ (int_unless (pos 30) (codes "circuit_timeout")
                                        cfg.circuit_timeout
                                      ++ (int_if (ltb_ℤ (pos 0) cfg.retry_count)
                                            (codes "retry_count") cfg.retry_count
                                          ++ (true_if (codes "retry_all") cfg.retry_all
                                              ++ (str_unless_empty (codes "mesh_client_ca")
                                                    cfg.mesh_client_ca
                                                  ++ (str_unless_empty (codes "mesh_client_cert")
                                                        cfg.mesh_client_cert
                                                      ++ (str_unless_empty (codes "mesh_client_key")
                                                          cfg.mesh_client_key)))))))))))))

  unfoldable pub cache_fields : Config → Bytes
  cache_fields cfg =
      str_unless_empty (codes "persistent_path") cfg.persistent_path
      ++ (str_field (codes "cache_mode") (cache_mode_str cfg.cache_mode)
          ++ (true_if (codes "resp_forced") cfg.resp_forced
              ++ (str_unless_empty (codes "replicate_target") cfg.replicate_target
                  ++ (number_if_positive (codes "max_memory") cfg.max_memory
                      ++ (str_field (codes "eviction") (eviction_str cfg.eviction))))))

  unfoldable pub type_fields : Config → Bytes
  type_fields cfg = elim cfg.type [
    | server ↦ server_fields cfg
    | client ↦ client_fields cfg
    | proxy ↦ proxy_fields cfg
    | cache ↦ cache_fields cfg
  ]

  -- The fields behind the name.
  unfoldable pub later_fields : Config → Bytes
  later_fields cfg =
      str_field (codes "id") cfg.id
      ++ (str_field (codes "type") (type_str cfg.type)
          ++ (bare_field (codes "port") (decimal cfg.port)
              ++ (bare_field (codes "was_running") (bool_text cfg.was_running)
                  ++ (common_fields cfg ++ type_fields cfg))))

  unfoldable pub format_json_pretty : Config → Bytes
  format_json_pretty cfg =
      close_object (b'{' ∷ 10 ∷ (str_field (codes "name") cfg.name ++ later_fields cfg))

  abbrev pub json_get_double : Bytes → Bytes → f.Double
  json_get_double json key = elim (json_get_string json key) [
    | [] ↦ f.zero_point
    | c ∷ v ↦ elim (f.stod (c ∷ v)) [ none ↦ f.zero_point | some d ↦ d ]
  ]

  -- A positive number replaces the default that `cfg` came with.
  abbrev pub positive_or : ℤ → ℤ → ℤ
  positive_or default_val v = if ltb_ℤ (pos 0) v then v else default_val

  abbrev pub nonempty_or : Bytes → Bytes → Bytes
  nonempty_or default_val [] = default_val
  nonempty_or default_val (c ∷ v) = c ∷ v

  unfoldable pub parse_common : Bytes → Config → Config
  parse_common json cfg = record cfg {
    name = json_get_string json (codes "name");
    id = json_get_string json (codes "id");
    type = str_to_type (json_get_string json (codes "type"));
    port = to_unsigned (2 ^ 16) (json_get_int json (codes "port") (pos 0));
    was_running = json_get_bool json (codes "was_running") false;
    log_file = json_get_string json (codes "log_file");
    write_file = json_get_string json (codes "write_file");
    lua_script = json_get_string json (codes "lua_script");
    bash_output = json_get_bool json (codes "bash_output") false;
    bash_prefix = json_get_bool json (codes "bash_prefix") false;
    bash_timestamp = json_get_bool json (codes "bash_timestamp") false;
    max_connections = json_get_number (2 ^ 32) json (codes "max_connections");
    rate_limit = json_get_double json (codes "rate_limit");
    global_rate_limit = json_get_double json (codes "global_rate_limit");
    idle_timeout = json_get_number (2 ^ 32) json (codes "idle_timeout");
    drain = json_get_bool json (codes "drain") false;
    reconnect = json_get_int json (codes "reconnect") (negsuc 0);
    tls = json_get_bool json (codes "tls") false;
    cert_path = json_get_string json (codes "cert_path");
    key_path = json_get_string json (codes "key_path");
    ca_path = json_get_string json (codes "ca_path");
    target = json_get_string json (codes "target");
    cache_name = json_get_string json (codes "cache_name");
    group = json_get_string json (codes "group");
    owner = json_get_string json (codes "owner");
    child_policy = json_get_int json (codes "child_policy") (pos 0);
    external_runtime = json_get_bool json (codes "external_runtime") false;
    managed = json_get_bool json (codes "managed") false;
    exec_path = json_get_string json (codes "exec_path");
    pid = json_get_int json (codes "pid") (pos 0);
  }

  unfoldable pub parse_server : Bytes → Config → Config
  parse_server json cfg = record cfg {
    mode = str_to_server_mode (json_get_string json (codes "mode"));
    udp = json_get_bool json (codes "udp") false;
    master_pw = json_get_string json (codes "master_pw");
    master_forward = json_get_bool json (codes "master_forward") false;
    http_dir = json_get_string json (codes "http_dir");
    http_cache = json_get_bool json (codes "http_cache") false;
    upstreams = json_get_array json (codes "upstreams");
  }

  unfoldable pub parse_client : Bytes → Config → Config
  parse_client json cfg = record cfg {
    mode = str_to_server_mode (json_get_string json (codes "mode"));
    udp = json_get_bool json (codes "udp") false;
  }

  unfoldable pub parse_proxy : Bytes → Config → Config
  parse_proxy json cfg = record cfg {
    protocol = str_to_proxy_protocol (json_get_string json (codes "protocol"));
    strategy = str_to_proxy_strategy (json_get_string json (codes "strategy"));
    backends = json_get_array json (codes "backends");
    health_check = to_unsigned (2 ^ 8) (json_get_int json (codes "health_check") (pos 0));
    health_interval =
        positive_or cfg.health_interval (json_get_int json (codes "health_interval") (pos 0));
    health_path = nonempty_or cfg.health_path (json_get_string json (codes "health_path"));
    health_threshold =
        positive_or cfg.health_threshold (json_get_int json (codes "health_threshold") (pos 0));
    circuit_threshold =
        positive_or cfg.circuit_threshold (json_get_int json (codes "circuit_threshold") (pos 0));
    circuit_timeout =
        positive_or cfg.circuit_timeout (json_get_int json (codes "circuit_timeout") (pos 0));
    retry_count = json_get_int json (codes "retry_count") (pos 0);
    retry_all = json_get_bool json (codes "retry_all") false;
    mesh_client_ca = json_get_string json (codes "mesh_client_ca");
    mesh_client_cert = json_get_string json (codes "mesh_client_cert");
    mesh_client_key = json_get_string json (codes "mesh_client_key");
  }

  unfoldable pub parse_cache : Bytes → Config → Config
  parse_cache json cfg = record cfg {
    persistent_path = json_get_string json (codes "persistent_path");
    cache_mode = str_to_cache_mode (json_get_string json (codes "cache_mode"));
    resp_forced = json_get_bool json (codes "resp_forced") false;
    replicate_target = json_get_string json (codes "replicate_target");
    max_memory = json_get_number (2 ^ 64) json (codes "max_memory");
    eviction = str_to_eviction (json_get_string json (codes "eviction"));
  }

  unfoldable pub parse_json_string : Bytes → Config → Bool × Config
  parse_json_string json cfg =
      let common = parse_common json cfg in
      let whole : Config = elim common.type [
        | server ↦ parse_server json common
        | client ↦ parse_client json common
        | proxy ↦ parse_proxy json common
        | cache ↦ parse_cache json common
      ] in
      (not (beq common.name []), whole)
