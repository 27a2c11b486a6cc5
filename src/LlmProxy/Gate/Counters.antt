-- ===== src/LlmProxy/Gate/Counters.antt =====
-- The counters of a gate and of the requests in flight, and the changes that leave them.
use purdue_af.Common.{
  ℕ, ◌+◌, ◌≤◌, ◌≡◌, refl, ◌∙◌, ◌⊎◌, Bool, true, false, Option, none, some, List, [], ◌∷◌, ◌++◌,
  if◌then◌else◌, length, arith,
}
use purdue_af.LlmProxy.{Settings, Model}
use purdue_af.LlmProxy.Gate.{
  Gate, Turn, pause, backoff_of, admitted, refused, waits, new_gate, enter, turn, release, observe,
  adjust, is_within, halve, succeeded, count_failure, mark_unhealthy, failed, cap,
}

-- A gate with, of each request in flight, the tokens that it holds.
pub record Flight : Type 0 where
  pub gate : Gate
  pub tokens : List ℕ

unfoldable pub sum : List ℕ → ℕ
sum [] = 0
sum (n ∷ ns) = n + sum ns

-- A request that is admitted is in flight.
abbrev pub after_turn : ℕ → List ℕ → Gate × Turn → Flight
after_turn n ns (g, admitted) = record { gate = g; tokens = n ∷ ns }
after_turn n ns (g, refused) = record { gate = g; tokens = ns }
after_turn n ns (g, waits t) = record { gate = g; tokens = ns }

-- A call of a method, by any thread: only a request in flight is released, with its own tokens.
pub data Step (c : Settings) (m : Model) (s t : Flight) : Type 0 where
  enters : (rank now : ℕ) → t ≡ record s { gate = enter rank now s.gate } → Step c m s t
  turns :
      (seq tokens now deadline : ℕ) (cancelled : Bool)
      → t ≡ after_turn tokens s.tokens (turn m seq tokens now deadline cancelled s.gate)
      → Step c m s t
  releases :
      (before after : List ℕ) (tokens completion now : ℕ)
      → s.tokens ≡ before ++ (tokens ∷ after)
      → t ≡ record { gate = release tokens completion now s.gate; tokens = before ++ after }
      → Step c m s t
  observes :
      (ttft decode : Option ℕ) (now : ℕ)
      → t ≡ record s { gate = observe m ttft decode now s.gate }
      → Step c m s t
  succeeds :
      (ttft decode : Option ℕ) (now : ℕ)
      → t ≡ record s { gate = succeeded m ttft decode now s.gate }
      → Step c m s t
  fails :
      (retry_after : Option ℕ) (attempt jitter now : ℕ)
      → t ≡ record s { gate = (failed c retry_after attempt jitter now s.gate).0 }
      → Step c m s t
  caps : (now : ℕ) → t ≡ record s { gate = (cap c m now s.gate).0 } → Step c m s t

pub data Reach (c : Settings) (m : Model) : Flight → Type 0 where
  start : Reach c m (record { gate = new_gate m; tokens = [] })
  next : {s t : Flight} → Reach c m s → Step c m s t → Reach c m t

pub record IsKept (m : Model) (s : Flight) : Type 0 where
  pub counted : s.gate.busy ≡ length s.tokens
  pub summed : s.gate.held ≡ sum s.tokens
  pub within : (s.gate.held ≤ m.budget) ⊎ (s.gate.busy ≤ 1)
  pub some_slot : 1 ≤ s.gate.slots
  pub few_slots : s.gate.slots ≤ m.most

-- A change of the other fields.
abbrev pub SameCounts : Gate → Gate → Type 0
SameCounts g h = (h.busy ≡ g.busy) × (h.held ≡ g.held) × (h.slots ≡ g.slots)

-- A change that keeps the counters, and the slots within their bounds.
abbrev pub Moves : Model → Gate → Gate → Type 0
Moves m g h = (h.busy ≡ g.busy) × (h.held ≡ g.held) × (1 ≤ h.slots) × (h.slots ≤ m.most)

pub Moves-IsKept :
    (m : Model) (g h : Gate) (ns : List ℕ)
    → IsKept m (record { gate = g; tokens = ns })
    → (1 ≤ g.slots → g.slots ≤ m.most → Moves m g h)
    → IsKept m (record { gate = h; tokens = ns })
Moves-IsKept m g h ns k moves =
    let (b, d, s, t) = moves k.some_slot k.few_slots in
    record {
      counted = rw b k.counted;
      summed = rw d k.summed;
      within = rw (b, d) k.within;
      some_slot = s;
      few_slots = t;
    }

halve-Moves :
    (m : Model) (now : ℕ) (g : Gate) → 1 ≤ g.slots → g.slots ≤ m.most → Moves m g (halve now g)
unfolding halve
halve-Moves m now g h k = (refl, refl, omega arith, omega arith)

pub adjust-Moves :
    (m : Model) (now : ℕ) (g : Gate) → 1 ≤ g.slots → g.slots ≤ m.most → Moves m g (adjust m now g)
unfolding adjust
adjust-Moves m now g h k = ground (arith, halve-Moves m now g h k)

count_failure-SameCounts :
    (c : Settings) (now : ℕ) (g : Gate) → SameCounts g (count_failure c now g)
unfolding count_failure
count_failure-SameCounts c now g = ground arith

mark_unhealthy-SameCounts : (now : ℕ) (g : Gate) → SameCounts g (mark_unhealthy now g)
unfolding mark_unhealthy
mark_unhealthy-SameCounts now g = ground arith

halved-Moves :
    (m : Model) (b : Bool) (now : ℕ) (g h : Gate)
    → SameCounts g h
    → 1 ≤ g.slots
    → g.slots ≤ m.most
    → Moves m g (if b then h else halve now h)
halved-Moves m true now g h (b, d, s) k l = (b, d, omega arith, omega arith)
halved-Moves m false now g h (b, d, s) k l =
    let (b', d', s', t') = halve-Moves m now h (omega arith) (omega arith) in
    (b' ∙ b, d' ∙ d, s', t')

Moves_then_same : (m : Model) (g h i : Gate) → Moves m g h → SameCounts h i → Moves m g i
Moves_then_same m g h i (b, d, s, t) (b', d', s') = (b' ∙ b, d' ∙ d, omega arith, omega arith)

pause-Moves :
    (m : Model) (g : Gate) (retry_after : Option ℕ) (backoff now : ℕ) (h : Gate)
    → Moves m g h
    → Moves m g (pause retry_after backoff now h).0
unfolding pause
pause-Moves m g none backoff now h v = v
pause-Moves m g (some wait) backoff now h v = v

pub failed-Moves :
    (c : Settings) (retry_after : Option ℕ) (attempt jitter now : ℕ) (m : Model) (g : Gate)
    → 1 ≤ g.slots
    → g.slots ≤ m.most
    → Moves m g (failed c retry_after attempt jitter now g).0
unfolding failed
failed-Moves c retry_after attempt jitter now m g k l =
    let counted = count_failure c now g in
    let halved = if is_within 300000 now counted.adjusted then counted else halve now counted in
    pause-Moves m g retry_after (backoff_of c attempt jitter) now (mark_unhealthy now halved) (
      Moves_then_same m g halved (mark_unhealthy now halved)
        (halved-Moves m (is_within 300000 now counted.adjusted) now g counted
          (count_failure-SameCounts c now g) k l)
        (mark_unhealthy-SameCounts now halved))
