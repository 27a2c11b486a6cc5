-- ===== src/MattermostAgent/Limit.antt =====
-- Agent.allowed of agent.py: how often a user is answered.
use purdue_af.Common.{
  ℕ, ◌+◌, ◌-◌, ◌≤◌, ◌<◌, ◌≡◌, refl, ◌∙◌, sym, Bool, true, false, List, [], ◌∷◌, ◌++◌, length, ltb,
  leb, if◌then◌else◌, Bool-cases, inl, inr, arith,
}

-- `while asked and now - asked[0] > USER_WINDOW_SECONDS: asked.popleft()`
unfoldable pub drop_asked : ℕ → List ℕ → List ℕ
drop_asked now [] = []
drop_asked now (t ∷ asked) =
    let rest = drop_asked now asked in if ltb 600000 (now - t) then rest else t ∷ asked

-- Agent.allowed, of the user's deque: what it is afterwards, and whether the user is answered.
unfoldable pub allowed : ℕ → List ℕ → List ℕ × Bool
allowed now asked =
    let recent = drop_asked now asked in
    if leb 5 (length recent) then (recent, false) else (recent ++ now ∷ [], true)

-- The questions of a user, at their times: those answered, the last first, after some before.
abbrev add_answered : ℕ → List ℕ → Bool → List ℕ
add_answered now answered true = now ∷ answered
add_answered now answered false = answered

unfoldable pub answered : List ℕ → List ℕ → List ℕ → List ℕ
answered [] asked before = before
answered (now ∷ times) asked before =
    let (asked', yes_) = allowed now asked in answered times asked' (add_answered now before yes_)

-- How many of some times are within the window that ends at `now`.
unfoldable pub in_window : ℕ → List ℕ → ℕ
in_window now [] = 0
in_window now (t ∷ times) = (if leb (now - t) 600000 then 1 else 0) + in_window now times

-- Before each of the times, the last first, fewer than five others are within its window.
abbrev pub IsLimited : List ℕ → Type 0
IsLimited [] = Unit
IsLimited (t ∷ times) = (in_window t times < 5) × IsLimited times

-- The times do not go back.
abbrev pub IsOrdered : ℕ → List ℕ → Type 0
IsOrdered t [] = Unit
IsOrdered t (u ∷ times) = (t ≤ u) × IsOrdered u times

in_window-le-length : (now : ℕ) (times : List ℕ) → in_window now times ≤ length times
unfolding in_window
in_window-le-length now [] = omega arith
in_window-le-length now (t ∷ times) = ground (arith, in_window-le-length now times)

in_window-append :
    (now t : ℕ) (times : List ℕ) → in_window now (times ++ t ∷ []) ≡ in_window now (t ∷ times)
unfolding in_window
in_window-append now t [] = refl
in_window-append now t (u ∷ times) = omega (arith, in_window-append now t times)

-- What is forgotten is in no window that ends later.
in_window-drop_asked :
    (now later : ℕ)
    → now ≤ later
    → (asked : List ℕ) → in_window later (drop_asked now asked) ≡ in_window later asked
unfolding in_window drop_asked
in_window-drop_asked now later le [] = refl
in_window-drop_asked now later le (t ∷ asked) =
    ground (arith, in_window-drop_asked now later le asked)

-- What the deque has of the times answered.
abbrev Covers : ℕ → List ℕ → List ℕ → Type 0
Covers now asked before = (later : ℕ) → now ≤ later → in_window later before ≡ in_window later asked

add_now :
    (now later : ℕ) (before asked : List ℕ)
    → in_window later before ≡ in_window later asked
    → in_window later (now ∷ before) ≡ in_window later (now ∷ asked)
unfolding in_window
add_now now later before asked e = omega (arith, e)

allowed-IsLimited :
    (now : ℕ) (asked before : List ℕ)
    → Covers now asked before
    → IsLimited before
    → Covers now (allowed now asked).0 (add_answered now before (allowed now asked).1)
      × IsLimited (add_answered now before (allowed now asked).1)
unfolding allowed
allowed-IsLimited now asked before c l = elim (Bool-cases (leb 5 (length (drop_asked now asked)))) [
  | inl e ↦ rw e (λ later le. c later le ∙ sym (in_window-drop_asked now later le asked), l)
  | inr e ↦ rw e (covers, (few e, l))
]
  where
    kept :
        (later : ℕ) → now ≤ later → in_window later before ≡ in_window later (drop_asked now asked)
    kept later le = c later le ∙ sym (in_window-drop_asked now later le asked)

    covers : Covers now (drop_asked now asked ++ now ∷ []) (now ∷ before)
    covers later le =
        add_now now later before (drop_asked now asked) (kept later le)
        ∙ sym (in_window-append later now (drop_asked now asked))

    few : leb 5 (length (drop_asked now asked)) ≡ false → in_window now before < 5
    few e =
        let n : in_window now before ≡ in_window now (drop_asked now asked) =
          kept now (omega arith) in
        let m : in_window now (drop_asked now asked) ≤ length (drop_asked now asked) =
          in_window-le-length now (drop_asked now asked) in
        ground arith

IsLimited-answered :
    (now : ℕ) (times asked before : List ℕ)
    → Covers now asked before
    → IsOrdered now times
    → IsLimited before
    → IsLimited (answered times asked before)
unfolding answered
IsLimited-answered now [] asked before c o l = l
IsLimited-answered now (t ∷ times) asked before c o l =
    let (c', l') = allowed-IsLimited t asked before (λ later le. c later (omega (arith, o.0))) l in
    IsLimited-answered t times (allowed t asked).0 (add_answered t before (allowed t asked).1) c'
      o.1 l'

-- However often a user asks, at times that do not go back: fewer than five other questions of theirs
-- were answered within the ten minutes before each one that is.
pub answered-IsLimited : (times : List ℕ) → IsOrdered 0 times → IsLimited (answered times [] [])
answered-IsLimited times o = IsLimited-answered 0 times [] [] (λ later le. refl) o tt
