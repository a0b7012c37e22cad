-- ===== src/Tests/Configs.antt =====
-- Configurations saved and read back, on a small instance of the floating-point numbers.
use socketley.Prelude.{ℕ, ◌≡◌, refl, true, false, some, [], ◌∷◌, Bytes, codes, ltb}
use socketley.Prelude.Int.{pos, negsuc}
use socketley.Prelude.Words.{decimal}
use socketley.Runtime.Instance.{RuntimeType, server, cache}
use socketley.Config.Json.{
  behind_key, behind_prefix, json_escape, json_unescape, json_get_array, elements, behind_char,
  until_char, read_quoted, behind_quoted,
}
use socketley.Config.Fields.{Floats, Config, format_json_pretty, parse_json_string}
use socketley.Config.Fields.Lookup.{mentions}
use socketley.Config.Fields.Laws.{parse-format}

-- Numbers without a fraction, printed in decimal.
abbrev whole : Floats
whole = record {
  Double = ℕ;
  zero_point = 0;
  is_positive = ltb 0;
  print = decimal;
  stod = λ v. some 0;
}

abbrev plain : Bytes → Bytes → RuntimeType → Config whole
plain name id type = record {
  name = name;
  id = id;
  type = type;
  port = 9000;
  was_running = true;
  log_file = [];
  write_file = [];
  lua_script = [];
  bash_output = false;
  bash_prefix = false;
  bash_timestamp = false;
  max_connections = 0;
  rate_limit = 0;
  global_rate_limit = 0;
  idle_timeout = 0;
  drain = false;
  reconnect = negsuc 0;
  tls = false;
  cert_path = [];
  key_path = [];
  ca_path = [];
  target = [];
  cache_name = [];
  group = [];
  owner = [];
  child_policy = pos 0;
  external_runtime = false;
  managed = false;
  exec_path = [];
  pid = pos 0;
  mode = 0;
  udp = false;
  master_pw = [];
  master_forward = false;
  http_dir = [];
  http_cache = false;
  upstreams = [];
  protocol = 0;
  strategy = 0;
  backends = [];
  health_check = 0;
  health_interval = pos 5;
  health_path = codes "/health";
  health_threshold = pos 3;
  circuit_threshold = pos 5;
  circuit_timeout = pos 30;
  retry_count = pos 0;
  retry_all = false;
  mesh_client_ca = [];
  mesh_client_cert = [];
  mesh_client_key = [];
  persistent_path = [];
  cache_mode = 0;
  resp_forced = false;
  replicate_target = [];
  max_memory = 0;
  eviction = 0;
}

abbrev saved : Config whole
saved = plain (codes "web") (codes "9f") cache

abbrev named_type : Config whole
named_type = plain (codes "type") (codes "proxy") server

parse-format_example :
    ((parse_json_string whole (format_json_pretty whole saved) named_type).1.name ≡ codes "web")
    × (mentions (codes "id") saved.name ≡ false
        → (parse_json_string whole (format_json_pretty whole saved) named_type).1.id ≡ codes "9f")
    × (mentions (codes "type") saved.name ≡ false
        → mentions (codes "type") saved.id ≡ false
        → (parse_json_string whole (format_json_pretty whole saved) named_type).1.type ≡ cache)
parse-format_example = parse-format whole saved named_type

saved_read_back :
    ((parse_json_string whole (format_json_pretty whole saved) named_type).1.id ≡ codes "9f")
    × ((parse_json_string whole (format_json_pretty whole saved) named_type).1.type ≡ cache)
unfolding behind_key behind_prefix json_escape
saved_read_back =
    let (n, id, type) = parse-format whole saved named_type in (id refl, type refl refl)

-- An address of IPv6 in a list of back-ends ends the list at its bracket.
array_cut :
    json_get_array (codes "\"backends\": [\"[::1]:9000\"]") (codes "backends") ≡ codes "[::1" ∷ []
unfolding json_get_array behind_key behind_prefix behind_char until_char elements json_unescape
    read_quoted behind_quoted
array_cut = refl
