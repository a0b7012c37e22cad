-- ===== src/Tests/Caches.antt =====
-- A connection of a cache in the mode `readonly`, in either protocol, about a key whose deadline has passed;
-- and a line that comes to a follower.
use socketley.Prelude.{
  ◌≡◌, refl, arith, true, false, ◌==◌, none, some, List, [], ◌∷◌, ◌++◌, Bytes, codes,
}
use socketley.Prelude.Int.{pos}
use socketley.Resp.Decode.{incomplete, parse_message_views}
use socketley.CacheInstance.Session.{readonly, readwrite, repl_leader, Session, World}
use socketley.CacheInstance.Dispatch.{Verb, perform}
use socketley.CacheInstance.Pipeline.{process_resp, with_partial, max_resp_args}
use socketley.CacheInstance.Pipeline.Order.{encode_commands, perform_all}
use socketley.Prelude.{beq, beq_iff}
use socketley.Map.{find, erase}
use socketley.Cache.State.{
  erase_value, drop_lru, drop_expiry, unlink, erase_data, track_sub, erase_list, list_size,
}
use socketley.Cache.Consistent.{IsConsistent}
use socketley.Cache.Lru.{key_at}
use socketley.Cache.Lru.Helpers.{IsLinked}
use socketley.Cache.Expiry.{check_expiry_and_get_ptr, expire}
use socketley.Resp.Encode.{encode_error_into, encode_null_into}
use socketley.Resp.Decode.{count_view, count_slow, find_crlf}
use socketley.Config.Names.{fnv1a, fnv1a_from, fnv1a_lower, fnv1a_lower_from}
use socketley.CacheInstance.Dispatch.{process_resp_command, verb_of, verb_among}
use socketley.CacheInstance.Keys.{del_command}
use socketley.CacheInstance.Strings.{get_command}
use socketley.CacheInstance.Pipeline.{resp_turn, capped}
use socketley.CacheInstance.Pipeline.Order.{process_resp-encode_commands}
use socketley.CacheInstance.Refines.{Reaches, handle_data-Reaches}
use socketley.CacheInstance.Connection.{flush_responses, submit}
use socketley.CacheInstance.Input.{
  handle_data, process_partial, detect, process_text, text_lines, cut_lines, strip_cr,
}
use socketley.CacheInstance.Text.{say, key_of, args_behind, cut_blank}
use socketley.CacheInstance.Text.Keys.{text_del}
use socketley.CacheInstance.Text.Strings.{text_get}
use socketley.CacheInstance.Text.Dispatch.{TextVerb, text_verb_among, text_perform, process_command}
use socketley.CacheInstance.Text.Denials.{text_perform-denied}
use socketley.CacheInstance.ReadOnly.{IsOldOrGone, handle_data-IsOldOrGone}
use socketley.CacheInstance.Invariant.{handle_data-IsConsistent}
use socketley.CacheInstance.Refusals.{IsRefused, perform-IsRefused}
use socketley.Cache.Strings
use socketley.CacheInstance.Session.{live}
use socketley.Tests.Stores.{other, first, key, full, full-IsConsistent}

abbrev pub late : World
late = record {
  admitted = true;
  now = pos 60;
  later = pos 61;
  now_each = λ n. pos 61;
  unix_seconds = pos 1700000000;
  unix_ms = pos 1700000000000;
  draws = first;
  draws_each = λ n. first;
  fnmatch = λ pattern text. true;
  takes_line = λ fd. true;
  send_zc = false;
  saved = true;
  snapshot = none;
}

abbrev sent : List (List Bytes)
sent = (codes "DEL" ∷ key ∷ []) ∷ (codes "get" ∷ key ∷ []) ∷ []

abbrev before : Session
before = record {
  store = full;
  mode = readonly;
  has_ttl_keys = true;
  stat_commands = 0;
  get_hits = 0;
  get_misses = 0;
  repl_role = repl_leader;
  follower_fds = [];
  sent_lines = [];
  persistent_path = [];
  resp_forced = false;
  conn = record {
    fd = 9;
    partial = encode_commands sent ++ codes "*1";
    response_buf = [];
    write_queue = [];
    write_batch = [];
    write_pending = false;
    closing = false;
    zc_notif_pending = false;
    resp_mode = true;
    resp_detected = true;
  };
  others = [];
}

abbrev end : Session
end = record before {
  store = record full {
    m_lists = [];
    m_expiry = [];
    m_current_memory = 0;
    m_lru_order = [];
    m_lru_map = [];
  };
  stat_commands = 2;
  get_misses = 1;
  conn = record before.conn {
    partial = codes "*1";
    response_buf = codes "-ERR readonly mode" ++ (13 ∷ 10 ∷ (codes "$-1" ++ 13 ∷ 10 ∷ []));
  };
}

performed : perform_all (λ n. late) sent before ≡ some (with_partial before.conn.partial end)
unfolding perform_all resp_turn capped process_resp_command verb_of verb_among fnv1a_lower
    fnv1a_lower_from fnv1a perform del_command get_command check_expiry_and_get_ptr expire find
    erase erase_value erase_list list_size fnv1a_from drop_lru drop_expiry unlink erase_data
    track_sub encode_error_into encode_null_into beq
performed = refl

cut_short : parse_message_views max_resp_args (codes "*1") ≡ incomplete
unfolding parse_message_views count_view count_slow find_crlf
cut_short = refl

process_resp-encode_commands_example :
    process_resp (λ n. late) before ≡ elim (perform_all (λ n. late) sent before) [
      | none ↦ none
      | some y ↦ some (with_partial (codes "*1") y)
    ]
process_resp-encode_commands_example =
    process_resp-encode_commands (λ n. late) sent (codes "*1") before (ground arith) cut_short refl

-- The same in the text protocol, on a connection that has not sent anything yet.
abbrev fresh : Session
fresh = record before {
  conn = record before.conn { partial = []; resp_mode = false; resp_detected = false };
}

abbrev lines : Bytes
lines = codes "del k" ++ (10 ∷ (codes "GET k" ++ (13 ∷ 10 ∷ codes "ge")))

abbrev told : Session
told = record end {
  conn = record fresh.conn {
    partial = codes "ge";
    response_buf = [];
    write_batch = (codes "denied: readonly mode" ++ (10 ∷ (codes "nil" ++ 10 ∷ []))) ∷ [];
    write_pending = true;
    resp_detected = true;
  };
}

ends : handle_data (λ n. late) lines fresh ≡ some told
unfolding handle_data process_partial detect process_text text_lines cut_lines strip_cr
    process_command text_perform text_verb_among fnv1a_lower fnv1a_lower_from fnv1a fnv1a_from
    key_of args_behind cut_blank text_del text_get check_expiry_and_get_ptr expire find erase
    erase_value erase_list list_size drop_lru drop_expiry unlink erase_data track_sub beq
    flush_responses submit
ends = refl

handle_data-Reaches_example : (told.mode ≡ fresh.mode) × Reaches fresh.mode fresh.store told.store
handle_data-Reaches_example = handle_data-Reaches (λ n. late) lines fresh told refl ends

handle_data-IsOldOrGone_example : IsOldOrGone key fresh.store told.store
handle_data-IsOldOrGone_example =
    handle_data-IsOldOrGone (λ n. late) lines fresh told refl full-IsConsistent ends key

full-IsLinked : IsLinked full
unfolding find key_at
full-IsLinked = record {
  links = record {
    live = λ k n e. ground (arith, beq_iff key k);
    unique = ground arith;
    fresh = λ k n e. ground arith;
  };
}

handle_data-IsConsistent_example : IsConsistent told.store × IsLinked told.store
handle_data-IsConsistent_example =
    handle_data-IsConsistent (λ n. late) lines fresh told refl full-IsConsistent full-IsLinked ends

text_perform-denied_example :
    text_perform TextVerb.lpop_line late (codes "lpop k") key before
    ≡ some (say "denied: readonly mode" before)
text_perform-denied_example =
    text_perform-denied late (codes "lpop k") key before TextVerb.lpop_line refl refl

perform-IsRefused_example :
    IsRefused before (perform Verb.sadd late (codes "sadd" ∷ key ∷ key ∷ []) before)
perform-IsRefused_example =
    perform-IsRefused (codes "sadd" ∷ key ∷ key ∷ []) before refl late Verb.sadd refl

-- A leader with two followers, of which one takes the line.
abbrev leader : Session
leader = record before { mode = readwrite; follower_fds = 4 ∷ 5 ∷ [] }

abbrev half_deaf : World
half_deaf = record late { takes_line = λ fd. fd == 5 }

abbrev written : Session
written = record leader {
  store = record full {
    m_data = (other, codes "a") ∷ [];
    m_current_memory = 4;
    m_lru_order = (0, key) ∷ (1, other) ∷ [];
    m_lru_map = (other, 1) ∷ (key, 0) ∷ [];
    next_node = 2;
  };
  stat_commands = 1;
  follower_fds = 5 ∷ [];
  sent_lines = (5, codes "Set q a" ++ 10 ∷ []) ∷ [];
  conn = record before.conn { response_buf = codes "+OK" ++ 13 ∷ 10 ∷ [] };
}
