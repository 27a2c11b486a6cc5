-- ===== src/PixiSync/Lock.antt =====
-- FrozenHeartbeatObserver and acquire_lock of sync-global-env.py: when a daemon takes the lock over.
-- A heartbeat's time is `none` where it is missing or torn; the times are milliseconds.
use purdue_af.Common.{
  ℕ, ◌+◌, ◌-◌, Bool, true, false, Option, none, some, List, [], ◌∷◌, ltb, ◌==◌, if◌then◌else◌, ◌≡◌,
  refl, arith, ap, ◌<◌, Bool-cases, inl, inr, ◌⊎◌,
}

-- `_seen`: the heartbeat last seen, and when it was first.
abbrev pub Seen : Type 0
Seen = Option (Option ℕ × ℕ)

abbrev pub same_beat : Option ℕ → Option ℕ → Bool
same_beat none none = true
same_beat (some a) (some b) = a == b
same_beat _ _ = false

unfoldable pub frozen : ℕ → Option ℕ → ℕ → Seen → Seen × Bool
frozen threshold beat now none = (some (beat, now), false)
frozen threshold beat now (some (b, since)) =
    if same_beat b beat
    then (some (b, since), ltb threshold (now - since))
    else (some (beat, now), false)

-- A turn of acquire_lock's loop: whether the directory was made, and else the heartbeat that is read.
pub record Look : Type 0 where
  pub made : Bool
  pub beat : Option ℕ
  pub now : ℕ

-- How the loop ends: with the directory made, with the lock taken over at a time, or not yet.
pub data Acquired : Type 0 where
  made_it waiting : Acquired
  took_over : ℕ → Acquired

after_look : Look → Bool → Acquired → Acquired
after_look l true rest = took_over l.now
after_look l false rest = rest

unfoldable pub acquire_lock : List Look → Seen → Acquired
unfolding frozen after_look
acquire_lock [] seen = waiting
acquire_lock (l ∷ looks) seen =
    let (seen', dead) = frozen 90000 l.beat l.now seen in
    let rest = acquire_lock looks seen' in if l.made then made_it else after_look l dead rest

same_beat→eq : (a b : Option ℕ) → same_beat a b ≡ true → a ≡ b
same_beat→eq none none e = refl
same_beat→eq none (some b) e = cc
same_beat→eq (some a) none e = cc
same_beat→eq (some a) (some b) e = ap some (ground (arith, e))

-- Each look from here to one at time `t` reads the heartbeat `beat`.
abbrev pub IsStill : Option ℕ → ℕ → List Look → Type 0
IsStill beat t [] = ⊥
IsStill beat t (l ∷ looks) = (beat ≡ l.beat) × ((l.now ≡ t) ⊎ IsStill beat t looks)

-- A look reads a heartbeat that is the same at each look for more than 90 s, up to one at time `t`.
abbrev pub IsFrozen : ℕ → List Look → Type 0
IsFrozen t [] = ⊥
IsFrozen t (l ∷ looks) = (IsStill l.beat t looks × (l.now + 90000 < t)) ⊎ IsFrozen t looks

-- What a takeover says of what was seen before, or of what is seen later.
abbrev FromSeen : ℕ → Seen → List Look → Type 0
FromSeen t none looks = IsFrozen t looks
FromSeen t (some (beat, since)) looks =
    (IsStill beat t looks × (since + 90000 < t)) ⊎ IsFrozen t looks

made_over : (t : ℕ) → made_it ≡ took_over t → ⊥
made_over t e = cc

acquire_lock-FromSeen :
    (t : ℕ) (looks : List Look) (seen : Seen)
    → acquire_lock looks seen ≡ took_over t
    → FromSeen t seen looks
unfolding acquire_lock frozen after_look
acquire_lock-FromSeen t [] seen e = absurd (no e)
  where
    no : waiting ≡ took_over t → ⊥
    no e = cc
acquire_lock-FromSeen t (l ∷ looks) none e = elim (Bool-cases l.made) [
  | inl yes_ ↦ absurd (made_over t (rw yes_ at e))
  | inr no_ ↦ acquire_lock-FromSeen t looks (some (l.beat, l.now)) (rw no_ at e)
]
acquire_lock-FromSeen t (l ∷ looks) (some (b, since)) e = elim (Bool-cases l.made) [
  | inl yes_ ↦ absurd (made_over t (rw yes_ at e))
  | inr no_ ↦ elim (Bool-cases (same_beat b l.beat)) [
    | inl same_ ↦ elim (Bool-cases (ltb 90000 (l.now - since))) [
      | inl dead ↦ inl (
        (same_beat→eq b l.beat same_, inl (when (rw dead at (rw same_ at (rw no_ at e))))),
        long dead (when (rw dead at (rw same_ at (rw no_ at e)))),
      )
      | inr alive ↦
          elim (acquire_lock-FromSeen t looks (some (b, since))
            (rw alive at (rw same_ at (rw no_ at e)))) [
              | inl (still, lt) ↦ inl ((same_beat→eq b l.beat same_, inr still), lt)
              | inr later ↦ inr (inr later)
            ]
    ]
    | inr other ↦
        inr (acquire_lock-FromSeen t looks (some (l.beat, l.now)) (rw other at (rw no_ at e)))
  ]
]
  where
    when : took_over l.now ≡ took_over t → l.now ≡ t
    when e = cc

    long : ltb 90000 (l.now - since) ≡ true → l.now ≡ t → since + 90000 < t
    long dead at_ = ground arith

-- A daemon that waits for the lock takes it over at some time only if it read one and the same
-- heartbeat, or none, at each look for more than 90 s up to then: a holder whose heartbeat changes
-- within that is never taken over.
pub acquire_lock-IsFrozen :
    (t : ℕ) (looks : List Look) → acquire_lock looks none ≡ took_over t → IsFrozen t looks
acquire_lock-IsFrozen t looks e = acquire_lock-FromSeen t looks none e
