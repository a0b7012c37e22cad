-- ===== src/Runtime/Manager/Quiet.antt =====
-- What the cascade achieves: once a runtime has been stopped, nothing below it runs.
use socketley.Prelude.{
  ◌≡◌, refl, inl, inr, ◌⊎◌, arith, true, false, Option, some, List, [], ◌∷◌, Bytes, beq, beq_iff,
  Option-cases, Bool-cases, is_some,
}
use socketley.Map.{find}
use socketley.Runtime.Instance.{Instance}
use socketley.Runtime.Manager.{
  Manager, Task, stop_task, stop_children_task, remove_children_task, get_children, for_each,
  is_running,
}
use socketley.Runtime.Manager.Shrinks.{Shrinks, Shrinks-of_eq, Shrinks-trans}

-- A name is owned by another, directly or through others.
pub data Under (m : Manager) : Bytes → Bytes → Type 0 where
  owned : (x c : Bytes) (i : Instance) → find c m ≡ some i → i.m_owner ≡ x → Under m x c
  further :
      (x c d : Bytes) (i : Instance) → find c m ≡ some i → i.m_owner ≡ x → Under m c d → Under m x d

-- Nothing below the name runs.
abbrev pub Quiet : Manager → Bytes → Type 0
Quiet m x = (c : Bytes) → Under m x c → is_running c m ≡ false

-- Nor does the name itself.
abbrev pub Silent : Manager → Bytes → Type 0
Silent m x = (is_running x m ≡ false) × Quiet m x

Under-Shrinks : (m m' : Manager) (x c : Bytes) → Shrinks m m' → Under m' x c → Under m x c
Under-Shrinks m m' x c h (owned _ _ i' found own) = elim (Option-cases (find c m)) [
  | inl gone ↦ absurd (ground (arith, h.at c))
  | inr (i, there) ↦ owned x c i there (ground (arith, h.at c))
]
Under-Shrinks m m' x d h (further _ c _ i' found own below) = elim (Option-cases (find c m)) [
  | inl gone ↦ absurd (ground (arith, h.at c))
  | inr (i, there) ↦ further x c d i there (ground (arith, h.at c)) (Under-Shrinks m m' c d h below)
]

pub is_running-Shrinks :
    (m m' : Manager) (c : Bytes) → Shrinks m m' → is_running c m ≡ false → is_running c m' ≡ false
is_running-Shrinks m m' c h off = ground (arith, h.at c)

pub Silent-Shrinks : (m m' : Manager) (x : Bytes) → Shrinks m m' → Silent m x → Silent m' x
Silent-Shrinks m m' x h s = (
  is_running-Shrinks m m' x h s.0,
  λ c below. is_running-Shrinks m m' c h (s.1 c (Under-Shrinks m m' x c h below)),
)

abbrev pub Listed : Bytes → List Bytes → Type 0
Listed c [] = ⊥
Listed c (name ∷ names) = (name ≡ c) ⊎ Listed c names

Listed-get_children :
    (x c : Bytes) (i : Instance) (m : Manager)
    → find c m ≡ some i
    → i.m_owner ≡ x
    → Listed c (get_children x m)
unfolding get_children find
Listed-get_children x c i [] e own = absurd (ground arith)
Listed-get_children x c i ((k, j) ∷ m) e own = elim (Bool-cases (beq k c)) [
  | inl here ↦ ground (arith, beq_iff k c, beq_iff i.m_owner x)
  | inr later ↦ ground (arith, Listed-get_children x c i m)
]

-- What has gone has nothing running below it.
abbrev pub Tidy : Manager → Manager → Type 0
Tidy m m' = (c : Bytes) → is_some (find c m) ≡ true → is_some (find c m') ≡ false → Quiet m' c

pub Quiet-Shrinks : (m m' : Manager) (x : Bytes) → Shrinks m m' → Quiet m x → Quiet m' x
Quiet-Shrinks m m' x h q c below =
    is_running-Shrinks m m' c h (q c (Under-Shrinks m m' x c h below))

pub Tidy-trans : (m m' m'' : Manager) → Shrinks m' m'' → Tidy m m' → Tidy m' m'' → Tidy m m''
Tidy-trans m m' m'' h t u c here gone = elim (Bool-cases (is_some (find c m'))) [
  | inl still ↦ u c still gone
  | inr left ↦ Quiet-Shrinks m' m'' c h (t c here left)
]

pub Tidy-refl : (m m' : Manager) → m ≡ m' → Tidy m m'
Tidy-refl m m' e c here gone = absurd (ground arith)

-- A name that is in the map, or below which all is quiet.
abbrev pub Handled : Manager → Bytes → Type 0
Handled m c = (is_some (find c m) ≡ true) ⊎ Quiet m c

pub Handled-step :
    (m m' : Manager) (c : Bytes) → Shrinks m m' → Tidy m m' → Handled m c → Handled m' c
Handled-step m m' c h t (inr q) = inr (Quiet-Shrinks m m' c h q)
Handled-step m m' c h t (inl here) = elim (Bool-cases (is_some (find c m'))) [
  | inl still ↦ inl still
  | inr left ↦ inr (t c here left)
]

-- What a round must do for its name.
abbrev pub Settles : (Bytes → Manager → Option Manager) → Type 0
Settles body =
    (c : Bytes) (m m' : Manager)
    → Handled m c
    → body c m ≡ some m'
    → Shrinks m m' × Tidy m m' × Silent m' c

pub for_each-Settles :
    (body : Bytes → Manager → Option Manager)
    → Settles body
    → (names : List Bytes) (m m' : Manager) → ((c : Bytes) → Listed c names → Handled m c)
    → for_each body names m ≡ some m'
    → Shrinks m m' × Tidy m m' × ((c : Bytes) → Listed c names → Silent m' c)
unfolding for_each
for_each-Settles body step [] m m' all run =
    (Shrinks-of_eq m m' (ground arith), Tidy-refl m m' (ground arith), λ c listed. absurd listed)
for_each-Settles body step (name ∷ names) m m' all run = elim (Option-cases (body name m)) [
  | inl bad ↦ absurd (ground arith)
  | inr (u, good) ↦
      let (h, t, s) = step name m u (all name (inl refl)) good in
      let (h', t', s') =
        for_each-Settles body step names u m'
          (λ c listed. Handled-step m u c h t (all c (inr listed))) (ground arith) in
      (
        Shrinks-trans m u m' h h',
        Tidy-trans m u m' h' t t',
        λ c listed. elim listed [
          | inl e ↦ rw (← e) (Silent-Shrinks u m' name h' s)
          | inr later ↦ s' c later
        ],
      )
]

-- Where every child is silent, all below the owner is quiet.
pub Quiet-of_children :
    (x : Bytes) (m m' : Manager)
    → Shrinks m m'
    → ((c : Bytes) → Listed c (get_children x m) → Silent m' c)
    → Quiet m' x
Quiet-of_children x m m' h all c (owned _ _ i' found own) = elim (Option-cases (find c m)) [
  | inl gone ↦ absurd (ground (arith, h.at c))
  | inr (i, there) ↦ (all c (Listed-get_children x c i m there (ground (arith, h.at c)))).0
]
Quiet-of_children x m m' h all d (further _ c _ i' found own below) =
    elim (Option-cases (find c m)) [
      | inl gone ↦ absurd (ground (arith, h.at c))
      | inr (i, there) ↦
          (all c (Listed-get_children x c i m there (ground (arith, h.at c)))).1 d below
    ]

-- What each of the three methods achieves.
abbrev pub Achieves : Task → Manager → Manager → Type 0
Achieves (stop_task x) m m' = (is_running x m' ≡ false) × (is_running x m ≡ true → Quiet m' x)
Achieves (stop_children_task x) m m' = Quiet m' x
Achieves (remove_children_task x) m m' = Quiet m' x

pub Handled_of_child :
    (x c : Bytes) (m : Manager) → Listed c (get_children x m) → is_some (find c m) ≡ true
unfolding get_children find
Handled_of_child x c [] listed = absurd listed
Handled_of_child x c ((k, i) ∷ m) listed = ground (arith, beq_iff k c, Handled_of_child x c m)
