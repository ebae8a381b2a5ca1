-- ===== src/Pages/Tour/Walk.antt =====
-- What a tour shows: its index stays within the list, and it is walked to its end.
use pfv.Common.{
  ℕ, zero, suc, ◌+◌, ◌<◌, ◌≤◌, ◌≡◌, refl, arith, Bool, true, false, none, List, [], ◌∷◌,
  if◌then◌else◌, leb, length, get_elem?, is_some, Bool-cases, inl, inr, subst,
}
use pfv.Common.Int.{ℤ, pos, negsuc}
use pfv.Common.Text.{Text}
use pfv.Pages.Tour.{
  TourPhase, idle, active, finished, TourState, is_active_phase, next, prev, close, Engine, mounted,
  start, TourAction, on_start, microtask, on_next, on_prev, on_close, on_finish, on_reset, act,
  act_all, current_step,
}

-- An active tour stands on one of its steps, any other on none.
abbrev Stands : TourPhase → List Text → ℤ → Type 0
Stands active steps (pos n) = n < length steps
Stands active steps (negsuc n) = ⊥
Stands _ steps i = i ≡ negsuc 0

abbrev pub IsStanding : TourState → Type 0
IsStanding s = Stands s.phase s.steps s.index

step-IsStanding :
    (p : TourPhase) (steps : List Text) (i : ℤ)
    → Stands p steps i
    → IsStanding (next (record { phase = p; steps = steps; index = i }))
      × IsStanding (prev (record { phase = p; steps = steps; index = i }))
      × IsStanding (close (record { phase = p; steps = steps; index = i }))
unfolding next prev close
step-IsStanding idle steps i h = (h, h, h)
step-IsStanding finished steps i h = (h, h, h)
step-IsStanding active steps (negsuc n) h = absurd h
step-IsStanding active steps (pos zero) h = ground arith
step-IsStanding active steps (pos (suc n)) h = ground arith

act-IsStanding : (a : TourAction) (e : Engine) → IsStanding e.state → IsStanding (act a e).state
unfolding act start
act-IsStanding (on_start steps) e h = start_stands steps e.guard
  where
    start_stands :
        (steps : List Text) (g : Bool)
        → IsStanding (start steps (record { state = e.state; guard = g })).state
    start_stands steps true = h
    start_stands [] false = h
    start_stands (step ∷ steps) false = omega arith
act-IsStanding microtask e h = h
act-IsStanding on_next e h = (step-IsStanding e.state.phase e.state.steps e.state.index h).0
act-IsStanding on_prev e h = (step-IsStanding e.state.phase e.state.steps e.state.index h).1
act-IsStanding on_close e h = (step-IsStanding e.state.phase e.state.steps e.state.index h).2
act-IsStanding on_finish e h = refl
act-IsStanding on_reset e h = refl

act_all-IsStanding :
    (trace : List TourAction) (e : Engine) → IsStanding e.state → IsStanding (act_all trace e).state
unfolding act_all
act_all-IsStanding [] e h = h
act_all-IsStanding (a ∷ rest) e h = act_all-IsStanding rest (act a e) (act-IsStanding a e h)

lt-get_elem? : (steps : List Text) (n : ℕ) → n < length steps → is_some (get_elem? steps n) ≡ true
lt-get_elem? [] n h = absurd (omega (arith, h))
lt-get_elem? (x ∷ xs) zero h = refl
lt-get_elem? (x ∷ xs) (suc n) h = lt-get_elem? xs n (omega (arith, h))

standing_shows :
    (p : TourPhase) (steps : List Text) (i : ℤ)
    → Stands p steps i
    → is_some (current_step (record { phase = p; steps = steps; index = i })) ≡ is_active_phase p
unfolding current_step
standing_shows idle steps i h = refl
standing_shows finished steps i h = refl
standing_shows active steps (pos n) h = lt-get_elem? steps n h
standing_shows active steps (negsuc n) h = absurd h

-- After any sequence of actions on a fresh tour the index is within the list exactly while the tour
-- is active and -1 otherwise, and a step is shown exactly while it is active.
pub act_all-shows :
    (trace : List TourAction)
    → let s = (act_all trace mounted).state in
      IsStanding s × (is_some (current_step s) ≡ is_active_phase s.phase)
act_all-shows trace =
    let s = (act_all trace mounted).state in
    let h : IsStanding s = act_all-IsStanding trace mounted refl in
    (h, standing_shows s.phase s.steps s.index h)

-- `k` presses of the next button.
abbrev pub presses : ℕ → List TourAction
presses zero = []
presses (suc k) = on_next ∷ presses k

presses-finished :
    (k : ℕ) (steps : List Text) (g : Bool)
    → act_all
        (presses k)
        (record { state = record { phase = finished; steps = steps; index = negsuc 0 }; guard = g })
      ≡ record { state = record { phase = finished; steps = steps; index = negsuc 0 }; guard = g }
unfolding act_all act next
presses-finished zero steps g = refl
presses-finished (suc k) steps g = presses-finished k steps g

past-get_elem? : (steps : List Text) (n : ℕ) → length steps ≤ n → get_elem? steps n ≡ none
past-get_elem? [] n h = refl
past-get_elem? (x ∷ xs) zero h = absurd (omega (arith, h))
past-get_elem? (x ∷ xs) (suc n) h = past-get_elem? xs n (omega (arith, h))

abbrev at_index : List Text → ℕ → Bool → Engine
at_index steps n g = record {
  state = record { phase = active; steps = steps; index = pos n };
  guard = g;
}

-- What is shown and whether the tour is over, `n` being the step that is reached.
abbrev Reached : List Text → ℕ → Engine → Type 0
Reached steps n e =
    (current_step e.state ≡ get_elem? steps n)
    × (e.state.phase ≡ (if leb (length steps) n then finished else active))

next_last :
    (steps : List Text) (n : ℕ) (g : Bool)
    → leb (length steps) (suc n) ≡ true
    → act on_next (at_index steps n g)
      ≡ record { state = record { phase = finished; steps = steps; index = negsuc 0 }; guard = g }
unfolding act next
next_last steps n g h = rw h

next_more :
    (steps : List Text) (n : ℕ) (g : Bool)
    → leb (length steps) (suc n) ≡ false
    → act on_next (at_index steps n g) ≡ at_index steps (suc n) g
unfolding act next
next_more steps n g h = rw h

act_all-cons :
    (a : TourAction) (rest : List TourAction) (e : Engine)
    → act_all (a ∷ rest) e ≡ act_all rest (act a e)
unfolding act_all
act_all-cons a rest e = refl

start_at :
    (steps : List Text) (n : ℕ) (g : Bool)
    → n < length steps
    → Reached steps n (act_all [] (at_index steps n g))
unfolding act_all current_step
start_at steps n g h = ground arith

presses-Reached :
    (k n m : ℕ) (steps : List Text) (g : Bool)
    → m ≡ n + k
    → n < length steps
    → Reached steps m (act_all (presses k) (at_index steps n g))
presses-Reached zero n m steps g e h =
    subst (λ i. Reached steps i (act_all [] (at_index steps n g))) (omega (arith, e))
      (start_at steps n g h)
presses-Reached (suc k) n m steps g e h = elim (Bool-cases (leb (length steps) (suc n))) [
  | inl over ↦
      rw (act_all-cons, next_last steps n g over, presses-finished k steps g)
        (unfold current_step in ground (arith, past-get_elem? steps m (ground arith)))
  | inr more ↦
      rw (act_all-cons, next_more steps n g more)
        (presses-Reached k (suc n) m steps g (omega (arith, e)) (ground arith))
]

start_free :
    (step : Text) (steps : List Text) (e : Engine)
    → e.guard ≡ false
    → act (on_start (step ∷ steps)) e ≡ at_index (step ∷ steps) 0 true
unfolding act start
start_free step steps e h = rw h

-- From a tour that is not in the tick of another start, starting a list of at least one step and
-- pressing the next button `k` times shows the `k`-th step, and the tour is finished exactly when
-- `k` is at least the number of steps: every tour is walked to its end.
pub act_all-walks :
    (k : ℕ) (step : Text) (steps : List Text) (e : Engine)
    → e.guard ≡ false
    → let s = (act_all (on_start (step ∷ steps) ∷ presses k) e).state in
      (current_step s ≡ get_elem? (step ∷ steps) k)
      × (s.phase ≡ (if leb (length (step ∷ steps)) k then finished else active))
act_all-walks k step steps e h =
    rw (act_all-cons, start_free step steps e h)
      (presses-Reached k 0 k (step ∷ steps) true (omega arith) (omega arith))
