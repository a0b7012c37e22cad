-- ===== src/Cache/Frames.antt =====
-- What the helpers of `cache_store` leave alone: the eviction order and the byte count can change
-- without the containers, and the containers without the eviction order.
use socketley.Prelude.{◌≡◌, refl, arith, Bytes, ℕ}
use socketley.Cache.State.{Store, track_add, track_sub, touch_lru, drop_lru}

module _ (n : ℕ) (s : Store) where
  pub m_data-track_add : (track_add n s).m_data ≡ s.m_data
  unfolding track_add
  m_data-track_add = refl

  pub m_lists-track_add : (track_add n s).m_lists ≡ s.m_lists
  unfolding track_add
  m_lists-track_add = refl

  pub m_sets-track_add : (track_add n s).m_sets ≡ s.m_sets
  unfolding track_add
  m_sets-track_add = refl

  pub m_hashes-track_add : (track_add n s).m_hashes ≡ s.m_hashes
  unfolding track_add
  m_hashes-track_add = refl

  pub m_expiry-track_add : (track_add n s).m_expiry ≡ s.m_expiry
  unfolding track_add
  m_expiry-track_add = refl

  pub m_data-track_sub : (track_sub n s).m_data ≡ s.m_data
  unfolding track_sub
  m_data-track_sub = ground arith

  pub m_lists-track_sub : (track_sub n s).m_lists ≡ s.m_lists
  unfolding track_sub
  m_lists-track_sub = ground arith

  pub m_sets-track_sub : (track_sub n s).m_sets ≡ s.m_sets
  unfolding track_sub
  m_sets-track_sub = ground arith

  pub m_hashes-track_sub : (track_sub n s).m_hashes ≡ s.m_hashes
  unfolding track_sub
  m_hashes-track_sub = ground arith

  pub m_expiry-track_sub : (track_sub n s).m_expiry ≡ s.m_expiry
  unfolding track_sub
  m_expiry-track_sub = ground arith

  pub m_lru_order-track_sub : (track_sub n s).m_lru_order ≡ s.m_lru_order
  unfolding track_sub
  m_lru_order-track_sub = ground arith

  pub m_lru_map-track_sub : (track_sub n s).m_lru_map ≡ s.m_lru_map
  unfolding track_sub
  m_lru_map-track_sub = ground arith

module _ (key : Bytes) (s : Store) where
  pub m_data-touch_lru : (touch_lru key s).m_data ≡ s.m_data
  unfolding touch_lru
  m_data-touch_lru = ground arith

  pub m_lists-touch_lru : (touch_lru key s).m_lists ≡ s.m_lists
  unfolding touch_lru
  m_lists-touch_lru = ground arith

  pub m_sets-touch_lru : (touch_lru key s).m_sets ≡ s.m_sets
  unfolding touch_lru
  m_sets-touch_lru = ground arith

  pub m_hashes-touch_lru : (touch_lru key s).m_hashes ≡ s.m_hashes
  unfolding touch_lru
  m_hashes-touch_lru = ground arith

  pub m_expiry-touch_lru : (touch_lru key s).m_expiry ≡ s.m_expiry
  unfolding touch_lru
  m_expiry-touch_lru = ground arith

  pub m_current_memory-touch_lru : (touch_lru key s).m_current_memory ≡ s.m_current_memory
  unfolding touch_lru
  m_current_memory-touch_lru = ground arith

  pub m_data-drop_lru : (drop_lru key s).m_data ≡ s.m_data
  unfolding drop_lru
  m_data-drop_lru = ground arith

  pub m_lists-drop_lru : (drop_lru key s).m_lists ≡ s.m_lists
  unfolding drop_lru
  m_lists-drop_lru = ground arith

  pub m_sets-drop_lru : (drop_lru key s).m_sets ≡ s.m_sets
  unfolding drop_lru
  m_sets-drop_lru = ground arith

  pub m_hashes-drop_lru : (drop_lru key s).m_hashes ≡ s.m_hashes
  unfolding drop_lru
  m_hashes-drop_lru = ground arith

  pub m_expiry-drop_lru : (drop_lru key s).m_expiry ≡ s.m_expiry
  unfolding drop_lru
  m_expiry-drop_lru = ground arith

  pub m_current_memory-drop_lru : (drop_lru key s).m_current_memory ≡ s.m_current_memory
  unfolding drop_lru
  m_current_memory-drop_lru = ground arith

pub ruleset frames = (
  m_data-track_add, m_lists-track_add, m_sets-track_add, m_hashes-track_add, m_expiry-track_add,
  m_data-track_sub, m_lists-track_sub, m_sets-track_sub, m_hashes-track_sub, m_expiry-track_sub,
  m_lru_order-track_sub, m_lru_map-track_sub, m_data-touch_lru, m_lists-touch_lru, m_sets-touch_lru,
  m_hashes-touch_lru, m_expiry-touch_lru, m_current_memory-touch_lru, m_data-drop_lru,
  m_lists-drop_lru, m_sets-drop_lru, m_hashes-drop_lru, m_expiry-drop_lru,
  m_current_memory-drop_lru,
)
