-- ===== src/CacheInstance/Connection.antt =====
-- `client_connection` of cache_instance.h, and how its answers go to the event loop: `flush_responses`
-- and `flush_write_queue`. A batch that is submitted stays in `write_batch` until it is written.
use socketley.Prelude.{
  ℕ, ◌*◌, Bool, true, false, not, ◌&&◌, ◌||◌, List, [], ◌∷◌, ◌++◌, Bytes, length, take, drop, leb,
  if◌then◌else◌,
}

pub record Connection : Type 0 where
  pub fd : ℕ
  pub partial : Bytes
  pub response_buf : Bytes
  pub write_queue : List Bytes
  pub write_batch : List Bytes
  pub write_pending : Bool
  pub closing : Bool
  pub zc_notif_pending : Bool
  pub resp_mode : Bool
  pub resp_detected : Bool

abbrev pub max_write_batch : ℕ
max_write_batch = 16

abbrev pub max_write_queue : ℕ
max_write_queue = 4096

abbrev pub is_empty_list {ℓ} : {A : Type ℓ} → List A → Bool
is_empty_list [] = true
is_empty_list (x ∷ xs) = false

-- One buffer of 512 KiB or more goes by a zero-copy send, where the kernel has it (`send_zc`).
abbrev pub by_zero_copy : Bool → List Bytes → Bool
by_zero_copy send_zc (buf ∷ []) = send_zc && leb (512 * 1024) (length buf)
by_zero_copy send_zc _ = false

-- A batch is handed to the event loop.
unfoldable pub submit : Bool → List Bytes → Connection → Connection
submit send_zc batch conn = record conn {
  write_batch = batch;
  write_pending = true;
  zc_notif_pending = conn.zc_notif_pending || by_zero_copy send_zc batch;
}

unfoldable pub flush_write_queue : Bool → Connection → Connection
flush_write_queue send_zc conn =
    if is_empty_list conn.write_queue || conn.zc_notif_pending
    then conn
    else submit send_zc (take max_write_batch conn.write_queue)
        (record conn { write_queue = drop max_write_batch conn.write_queue })

-- The message joins the queue, which is flushed unless a write is under way.
unfoldable pub enqueue : Bool → Bytes → Connection → Connection
enqueue send_zc message conn =
    let queued = record conn { write_queue = conn.write_queue ++ message ∷ [] } in
    if conn.write_pending then queued else flush_write_queue send_zc queued

unfoldable pub flush_responses : Bool → Connection → Connection
flush_responses send_zc conn =
    if is_empty_list conn.response_buf || conn.closing
    then conn
    else if leb max_write_queue (length conn.write_queue)
    then record conn { closing = true }
    else if not conn.write_pending && is_empty_list conn.write_queue && not conn.zc_notif_pending
    then submit send_zc (conn.response_buf ∷ []) (record conn { response_buf = [] })
    else enqueue send_zc conn.response_buf (record conn { response_buf = [] })
