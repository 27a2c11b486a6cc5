-- ===== src/LlmProxy/Gate/Held.antt =====
-- What a gate's counters say of the requests in flight, whatever order its methods run in.
use purdue_af.Common.{
  ℕ, ◌+◌, ◌≤◌, ◌≡◌, refl, sym, ◌∙◌, subst, ◌⊎◌, inl, inr, Bool, true, false, Option, List, [], ◌∷◌,
  ◌++◌, leb, if◌then◌else◌, length, length-middle, Bool-cases, arith,
}
use purdue_af.LlmProxy.{Settings, Model, IsChecked}
use purdue_af.LlmProxy.Gate.{
  Gate, refused, waits, new_gate, enter, leave, wake, turn, after_fits, fits, out, has_room, first,
  release, observe, trim, succeeded, cap,
}
use purdue_af.LlmProxy.Gate.Counters.{
  Flight, sum, after_turn, Step, enters, turns, releases, observes, succeeds, fails, caps, Reach,
  start, next, IsKept, SameCounts, Moves, Moves-IsKept, adjust-Moves, failed-Moves,
}

fits-SameCounts : (m : Model) (tokens now : ℕ) (g : Gate) → SameCounts g (fits m tokens now g).0
unfolding fits out
fits-SameCounts m tokens now g = ground arith

fits-room :
    (m : Model) (tokens now : ℕ) (g : Gate)
    → (fits m tokens now g).1 ≡ true
    → has_room m tokens now g ≡ true
unfolding fits
fits-room m tokens now g h = ground arith

has_room-within :
    (m : Model) (tokens now : ℕ) (g : Gate)
    → has_room m tokens now g ≡ true
    → (g.held + tokens ≤ m.budget) ⊎ (g.busy ≡ 0)
unfolding has_room
has_room-within m tokens now g h = ground arith

admit-IsKept :
    (m : Model) (g : Gate) (ns : List ℕ) (tokens now : ℕ)
    → IsKept m (record { gate = g; tokens = ns })
    → has_room m tokens now g ≡ true
    → (h : Gate) → h.busy ≡ g.busy + 1
    → h.held ≡ g.held + tokens
    → h.slots ≡ g.slots
    → IsKept m (record { gate = h; tokens = tokens ∷ ns })
unfolding sum
admit-IsKept m g ns tokens now k room h b d t = record {
  counted = omega (arith, k.counted);
  summed = omega (arith, k.summed);
  within = elim (has_room-within m tokens now g room) [
    | inl le ↦ inl (omega arith)
    | inr none_busy ↦ inr (omega arith)
  ];
  some_slot = omega (arith, k.some_slot);
  few_slots = omega (arith, k.few_slots);
}

stay-IsKept :
    (m : Model) (seq tokens now deadline : ℕ) (g : Gate) (ns : List ℕ) (h : Gate)
    → IsKept m (record { gate = g; tokens = ns })
    → SameCounts g h
    → IsKept m (
        after_turn tokens ns
          (if leb deadline now then (leave seq h, refused) else (h, waits (wake now deadline h))))
stay-IsKept m seq tokens now deadline g ns h k (b, d, t) = elim (Bool-cases (leb deadline now)) [
  | inl e ↦ rw e (Moves-IsKept m g _ ns k (λ x y. (b, d, omega arith, omega arith)))
  | inr e ↦ rw e (Moves-IsKept m g _ ns k (λ x y. (b, d, omega arith, omega arith)))
]

after_fits-IsKept :
    (m : Model) (seq tokens now deadline : ℕ) (g : Gate) (ns : List ℕ) (h : Gate) (fit : Bool)
    → IsKept m (record { gate = g; tokens = ns })
    → SameCounts g h
    → (fit ≡ true → has_room m tokens now g ≡ true)
    → IsKept m (after_turn tokens ns (after_fits seq tokens now deadline (h, fit)))
unfolding after_fits
after_fits-IsKept m seq tokens now deadline g ns h false k same room =
    stay-IsKept m seq tokens now deadline g ns h k same
after_fits-IsKept m seq tokens now deadline g ns h true k same room =
    elim (Bool-cases (first seq now h.waiting)) [
      | inl e ↦
          rw e (admit-IsKept m g ns tokens now k (room refl) _ (omega arith) (omega arith) same.2)
      | inr e ↦ rw e (stay-IsKept m seq tokens now deadline g ns h k same)
    ]

turn-IsKept :
    (m : Model) (seq tokens now deadline : ℕ) (cancelled : Bool) (g : Gate) (ns : List ℕ)
    → IsKept m (record { gate = g; tokens = ns })
    → IsKept m (after_turn tokens ns (turn m seq tokens now deadline cancelled g))
unfolding turn
turn-IsKept m seq tokens now deadline true g ns k =
    Moves-IsKept m g _ ns k (λ a b. (refl, refl, a, b))
turn-IsKept m seq tokens now deadline false g ns k =
    after_fits-IsKept m seq tokens now deadline g ns (fits m tokens now g).0 (fits m tokens now g).1
      k (fits-SameCounts m tokens now g) (fits-room m tokens now g)

sum_middle :
    (before after : List ℕ) (n : ℕ) → sum (before ++ (n ∷ after)) ≡ n + sum (before ++ after)
unfolding sum
sum_middle [] after n = refl
sum_middle (b ∷ before) after n = omega (arith, sum_middle before after n)

sum_none : (ns : List ℕ) → length ns ≡ 0 → sum ns ≡ 0
unfolding sum
sum_none [] e = refl
sum_none (n ∷ ns) e = absurd (omega arith)

release-IsKept :
    (m : Model) (g : Gate) (before after : List ℕ) (tokens completion now : ℕ)
    → IsKept m (record { gate = g; tokens = before ++ (tokens ∷ after) })
    → IsKept m (record { gate = release tokens completion now g; tokens = before ++ after })
unfolding release
release-IsKept m g before after tokens completion now k =
    let b : g.busy ≡ 1 + length (before ++ after) = k.counted ∙ length-middle before after tokens in
    let d : g.held ≡ tokens + sum (before ++ after) = k.summed ∙ sum_middle before after tokens in
    record {
      counted = omega arith;
      summed = omega arith;
      within = elim k.within [ inl le ↦ inl (omega arith) | inr one ↦ inr (omega arith) ];
      some_slot = k.some_slot;
      few_slots = k.few_slots;
    }

observe-Moves :
    (m : Model) (ttft decode : Option ℕ) (now : ℕ) (g : Gate)
    → 1 ≤ g.slots
    → g.slots ≤ m.most
    → Moves m g (observe m ttft decode now g)
unfolding observe trim
observe-Moves m ttft decode now g k l = adjust-Moves m now _ k l

Step-IsKept : (c : Settings) (m : Model) (s t : Flight) → Step c m s t → IsKept m s → IsKept m t
unfolding enter succeeded cap trim
Step-IsKept c m s t (enters rank now e) k =
    subst (IsKept m) (sym e) (Moves-IsKept m s.gate _ s.tokens k (λ a b. (refl, refl, a, b)))
Step-IsKept c m s t (turns seq tokens now deadline cancelled e) k =
    subst (IsKept m) (sym e) (turn-IsKept m seq tokens now deadline cancelled s.gate s.tokens k)
Step-IsKept c m s t (releases before after tokens completion now p e) k = subst (IsKept m) (sym e) (
    release-IsKept m s.gate before after tokens completion now
      (subst (λ ns. IsKept m (record { gate = s.gate; tokens = ns })) p k))
Step-IsKept c m s t (observes ttft decode now e) k =
    subst (IsKept m) (sym e)
      (Moves-IsKept m s.gate _ s.tokens k (observe-Moves m ttft decode now s.gate))
Step-IsKept c m s t (succeeds ttft decode now e) k =
    subst (IsKept m) (sym e)
      (Moves-IsKept m s.gate _ s.tokens k (observe-Moves m ttft decode now _))
Step-IsKept c m s t (fails retry_after attempt jitter now e) k =
    subst (IsKept m) (sym e)
      (Moves-IsKept m s.gate _ s.tokens k (failed-Moves c retry_after attempt jitter now m s.gate))
Step-IsKept c m s t (caps now e) k =
    subst (IsKept m) (sym e) (Moves-IsKept m s.gate _ s.tokens k (λ a b. (refl, refl, a, b)))

-- A gate of a model whose numbers `load` accepted, after any of its methods' calls, by any threads in
-- any order and at any times, each release being of a request in flight: the requests in flight are
-- counted, the tokens held are the sum of theirs, and are within the model's budget unless one
-- request alone is in flight; the slots are between one and the model's most.
pub Reach-IsKept :
    (c : Settings) (m : Model) → IsChecked m → (s : Flight) → Reach c m s → IsKept m s
unfolding new_gate sum
Reach-IsKept c m checked s start = record {
  counted = refl;
  summed = refl;
  within = inr (omega arith);
  some_slot = checked.some_slot;
  few_slots = checked.start_most;
}
Reach-IsKept c m checked s (next r st) = Step-IsKept c m _ _ st (Reach-IsKept c m checked _ r)
