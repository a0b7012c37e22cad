-- ===== src/Cache/PubSub.antt =====
-- The section "Pub/Sub" of cache_store.cpp. A set of descriptors is a list without repetitions, a
-- descriptor the number that the kernel gave.
pub mod Frames
use socketley.Prelude.{
  ℕ, ◌≡◌, refl, ◌≢◌, Bool, true, false, Option, none, some, List, [], ◌∷◌, Bytes, arith, beq,
  beq_iff, ◌==◌, inl, inr, Option-cases, if◌then◌else◌,
}
use socketley.Map.{Map, find, erase, assign, insert_or_assign, Distinct}
use socketley.Map.Laws.{find-insert_or_assign, find-erase, find-assign}
use socketley.Cache.State.{Store}

unfoldable pub fd_contains : ℕ → List ℕ → Bool
fd_contains fd [] = false
fd_contains fd (x ∷ fds) = if x == fd then true else fd_contains fd fds

unfoldable pub fd_insert : ℕ → List ℕ → List ℕ
fd_insert fd fds = if fd_contains fd fds then fds else fd ∷ fds

unfoldable pub fd_erase : ℕ → List ℕ → List ℕ
fd_erase fd [] = []
fd_erase fd (x ∷ fds) = let rest = fd_erase fd fds in if x == fd then rest else x ∷ rest

abbrev pub no_fds : List ℕ → Bool
no_fds [] = true
no_fds (x ∷ fds) = false

-- `m_channels[channel]`, an empty set where the channel is new.
abbrev pub members_of : Option (List ℕ) → List ℕ
members_of none = []
members_of (some fds) = fds

unfoldable pub subscribe : ℕ → Bytes → Store → Store
subscribe fd channel s = record s {
  m_channels =
      insert_or_assign channel (fd_insert fd (members_of (find channel s.m_channels))) s.m_channels;
}

unfoldable pub unsubscribe : ℕ → Bytes → Store → Store
unsubscribe fd channel s = elim (find channel s.m_channels) [
  | none ↦ s
  | some fds ↦
      let rest = fd_erase fd fds in
      if no_fds rest
      then record s { m_channels = erase channel s.m_channels }
      else record s { m_channels = assign channel rest s.m_channels }
]

-- The loop over the channels, which erases those left empty.
unfoldable pub leave_all : ℕ → Map (List ℕ) → Map (List ℕ)
leave_all fd [] = []
leave_all fd ((channel, fds) ∷ m) =
    let others = leave_all fd m in
    let rest = fd_erase fd fds in if no_fds rest then others else (channel, rest) ∷ others

unfoldable pub unsubscribe_all : ℕ → Store → Store
unsubscribe_all fd s = record s { m_channels = leave_all fd s.m_channels }

unfoldable pub get_subscribers : Bytes → Store → Option (List ℕ)
get_subscribers channel s = find channel s.m_channels

-- Whether a descriptor is subscribed to a channel.
abbrev pub subscribed : ℕ → Bytes → Store → Bool
subscribed fd channel s = fd_contains fd (members_of (get_subscribers channel s))

fd_contains-insert :
    (fd g : ℕ) (fds : List ℕ)
    → fd_contains g (fd_insert fd fds) ≡ (if fd == g then true else fd_contains g fds)
unfolding fd_contains fd_insert
fd_contains-insert fd g fds = ground arith

fd_contains-erase :
    (fd g : ℕ) (fds : List ℕ)
    → fd_contains g (fd_erase fd fds) ≡ (if fd == g then false else fd_contains g fds)
unfolding fd_contains fd_erase
fd_contains-erase fd g [] = ground arith
fd_contains-erase fd g (x ∷ fds) = ground (arith, fd_contains-erase fd g fds)

-- Subscribing adds the one descriptor to the one channel.
subscribed-subscribe :
    (fd g : ℕ) (channel other : Bytes) (s : Store)
    → subscribed g other (subscribe fd channel s) ≡ (
        if beq channel other
        then (if fd == g then true else subscribed g channel s)
        else subscribed g other s)
unfolding subscribe get_subscribers
subscribed-subscribe fd g channel other s =
    let fds = members_of (find channel s.m_channels) in
    ground (
      arith,
      find-insert_or_assign channel other (fd_insert fd fds) s.m_channels,
      fd_contains-insert fd g fds,
    )

-- No channel is kept without subscribers.
pub record HasNoEmpty (s : Store) : Type 0 where
  pub at : (channel : Bytes) → get_subscribers channel s ≢ some []

no_fds_contains : (g : ℕ) (fds : List ℕ) → no_fds fds ≡ true → fd_contains g fds ≡ false
unfolding fd_contains
no_fds_contains g [] h = refl
no_fds_contains g (x ∷ fds) h = ground arith

-- Unsubscribing takes the one descriptor from the one channel.
subscribed-unsubscribe :
    (fd g : ℕ) (channel other : Bytes) (s : Store)
    → subscribed g other (unsubscribe fd channel s) ≡ (
        if beq channel other
        then (if fd == g then false else subscribed g channel s)
        else subscribed g other s)
unfolding unsubscribe get_subscribers fd_contains
subscribed-unsubscribe fd g channel other s = elim (Option-cases (find channel s.m_channels)) [
  | inl absent ↦ ground (arith, beq_iff channel other)
  | inr (fds, there) ↦
      let rest = fd_erase fd fds in
      ground (
        arith,
        beq_iff channel other,
        find-erase channel other s.m_channels,
        find-assign channel other rest s.m_channels,
        fd_contains-erase fd g fds,
        no_fds_contains g rest,
      )
]

find-leave_all :
    (fd : ℕ) (channel : Bytes) (m : Map (List ℕ))
    → Distinct m
    → (g : ℕ)
    → (fd_contains g (members_of (find channel (leave_all fd m)))
        ≡ (if fd == g then false else fd_contains g (members_of (find channel m))))
      × (find channel m ≡ none → find channel (leave_all fd m) ≡ none)
      × (find channel (leave_all fd m) ≢ some [])
unfolding leave_all find fd_contains
find-leave_all fd channel [] d g = ground arith
find-leave_all fd channel ((k, fds) ∷ m) d g = ground (
  arith,
  find-leave_all fd channel m d.1 g,
  beq_iff k channel,
  fd_contains-erase fd g fds,
  no_fds_contains g (fd_erase fd fds),
)

-- After `unsubscribe_all` the descriptor is in no channel, every other subscription is as it was, and
-- no channel without subscribers is left.
pub unsubscribe_all_lem :
    (fd g : ℕ) (channel : Bytes) (s : Store)
    → Distinct s.m_channels
    → (subscribed g channel (unsubscribe_all fd s)
        ≡ (if fd == g then false else subscribed g channel s))
      × HasNoEmpty (unsubscribe_all fd s)
unfolding unsubscribe_all get_subscribers
unsubscribe_all_lem fd g channel s d = (
  (find-leave_all fd channel s.m_channels d g).0,
  record { at = λ c. (find-leave_all fd c s.m_channels d g).2 },
)

-- `subscribe` adds its descriptor to its channel, `unsubscribe` takes it from there, and neither changes
-- any other subscription.
pub subscribed_lem :
    (fd g : ℕ) (channel other : Bytes) (s : Store)
    → (subscribed g other (subscribe fd channel s) ≡ (
        if beq channel other
        then (if fd == g then true else subscribed g channel s)
        else subscribed g other s))
      × (subscribed g other (unsubscribe fd channel s) ≡ (
          if beq channel other
          then (if fd == g then false else subscribed g channel s)
          else subscribed g other s))
subscribed_lem fd g channel other s =
    (subscribed-subscribe fd g channel other s, subscribed-unsubscribe fd g channel other s)
