-- ===== src/Runtime/Goals/Laws.antt =====
-- What completing the first active goal does to a list of goals.
use gm_agent.Prelude.{
  ℕ, ◌+◌, ◌-◌, ◌≤◌, ◌≡◌, refl, ◌⊎◌, inl, inr, true, false, List, [], ◌∷◌, ◌++◌, arith, any, length,
  Bool-cases, if◌then◌else◌,
}
use gm_agent.Types.State.{Goal, goal_status_completed, is_active}
use gm_agent.Runtime.Goals.{complete_first}

abbrev pub count_active : List Goal → ℕ
count_active [] = 0
count_active (g ∷ gs) = (if is_active g then 1 else 0) + count_active gs

-- A goal stays as it is, or it was active and is completed.
abbrev pub Kept : Goal → Goal → Type 0
Kept g h = (h ≡ g) ⊎ ((is_active g ≡ true) × (h ≡ record g { status = goal_status_completed }))

-- Goals keep their places, each is kept in the sense above, and at most one is added at the end.
abbrev pub Progress : List Goal → List Goal → Type 0
Progress [] hs = length hs ≤ 1
Progress (g ∷ gs) [] = ⊥
Progress (g ∷ gs) (h ∷ hs) = Kept g h × Progress gs hs

pub Progress-refl : (gs : List Goal) → Progress gs gs
Progress-refl [] = omega arith
Progress-refl (g ∷ gs) = (inl refl, Progress-refl gs)

pub Progress-append : (gs : List Goal) (h : Goal) → Progress gs (gs ++ h ∷ [])
Progress-append [] h = omega arith
Progress-append (g ∷ gs) h = (inl refl, Progress-append gs h)

Progress-cons :
    (g h : Goal) (gs hs : List Goal) → Kept g h → Progress gs hs → Progress (g ∷ gs) (h ∷ hs)
Progress-cons g h gs hs k p = (k, p)

pub complete_first-Progress : (gs : List Goal) → Progress gs (complete_first gs)
unfolding complete_first
complete_first-Progress [] = omega arith
complete_first-Progress (g ∷ gs) = elim (Bool-cases (is_active g)) [
  | inl active ↦ rw active (inr (active, refl), Progress-refl gs)
  | inr other ↦ rw other (inl refl, complete_first-Progress gs)
]

completed-inactive : (g : Goal) → is_active (record g { status = goal_status_completed }) ≡ false
unfolding is_active
completed-inactive g = refl

pub count_active-complete_first :
    (gs : List Goal) → count_active (complete_first gs) ≡ count_active gs - 1
unfolding complete_first
count_active-complete_first [] = omega arith
count_active-complete_first (g ∷ gs) = elim (Bool-cases (is_active g)) [
  | inl active ↦ ground (arith, completed-inactive g)
  | inr other ↦ ground (arith, count_active-complete_first gs)
]

pub any-count_active : (gs : List Goal) → any is_active gs ≡ false → count_active gs ≡ 0
unfolding any
any-count_active [] h = refl
any-count_active (g ∷ gs) h = ground (arith, any-count_active gs)

pub any-append :
    (gs : List Goal) (h : Goal) → is_active h ≡ true → any is_active (gs ++ h ∷ []) ≡ true
unfolding any
any-append [] h e = ground arith
any-append (g ∷ gs) h e = ground (arith, any-append gs h)
