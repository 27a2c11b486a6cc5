-- ===== src/LlmProxy/Gate/Queue.antt =====
-- Which waiting request a gate admits.
use purdue_af.Common.{
  ℕ, ◌-◌, ◌*◌, ◌≤◌, ◌<◌, ◌≡◌, ◌≢◌, refl, sym, ap, ◌∙◌, subst, inl, inr, Bool, true, false, List, [],
  ◌∷◌, ◌++◌, All, All-map, ◌==◌, ==_iff, Bool-cases, arith,
}
use purdue_af.LlmProxy.{Model}
use purdue_af.LlmProxy.Gate.{
  Gate, Waiter, admitted, class_of, is_before, least, first, turn, after_fits, fits, out,
}

-- A request that has waited AGING for each class it is in is in the first.
class_of_aged : (now : ℕ) (w : Waiter) → w.rank * 600000 ≤ now - w.since → class_of now w ≡ 0
unfolding class_of
class_of_aged now w h = omega arith

is_before_aged :
    (now : ℕ) (w x : Waiter)
    → w.rank * 600000 ≤ now - w.since
    → w.since < x.since
    → (is_before now w x ≡ true) × (is_before now x w ≡ false)
unfolding is_before
is_before_aged now w x h l = rw (class_of_aged now w h) ground arith

-- Nothing that follows the least comes before it.
least_keeps :
    (now : ℕ) (w : Waiter) (ws : List Waiter)
    → All (λ x. is_before now x w ≡ false) ws
    → least now w ws ≡ w
unfolding least
least_keeps now w [] h = refl
least_keeps now w (x ∷ ws) h = rw h.0 (least_keeps now w ws h.1)

least_finds :
    (now : ℕ) (w best : Waiter) (before after : List Waiter)
    → is_before now w best ≡ true
    → All (λ x. is_before now w x ≡ true) before
    → All (λ x. is_before now x w ≡ false) after
    → least now best (before ++ (w ∷ after)) ≡ w
unfolding least
least_finds now w best [] after b hb ha = rw (b, least) (least_keeps now w after ha)
least_finds now w best (x ∷ before) after b hb ha = elim (Bool-cases (is_before now x best)) [
  | inl e ↦ rw (e, least) (least_finds now w x before after hb.0 hb.1 ha)
  | inr e ↦ rw (e, least) (least_finds now w best before after b hb.1 ha)
]

first_eq :
    (now seq : ℕ) (w : Waiter) (before after : List Waiter)
    → w.rank * 600000 ≤ now - w.since
    → All (λ x. w.since < x.since) before
    → All (λ x. w.since < x.since) after
    → first seq now (before ++ (w ∷ after)) ≡ (w.seq == seq)
unfolding first
first_eq now seq w [] after h hb ha =
    ap (λ (x : Waiter). x.seq == seq)
      (least_keeps now w after (All-map (λ x l. (is_before_aged now w x h l).1) after ha))
first_eq now seq w (x ∷ before) after h hb ha =
    ap (λ (x : Waiter). x.seq == seq)
      (least_finds now w x before after (is_before_aged now w x h hb.0).0
        (All-map (λ x l. (is_before_aged now w x h l).0) before hb.1)
        (All-map (λ x l. (is_before_aged now w x h l).1) after ha))

fits_waiting : (m : Model) (tokens now : ℕ) (g : Gate) → (fits m tokens now g).0.waiting ≡ g.waiting
unfolding fits out
fits_waiting m tokens now g = ground arith

after_fits-admitted :
    (seq n now deadline : ℕ) (h : Gate) (fit : Bool)
    → (after_fits seq n now deadline (h, fit)).1 ≡ admitted
    → first seq now h.waiting ≡ true
unfolding after_fits
after_fits-admitted seq n now deadline h fit e = ground arith

after_fits-first :
    (seq n now deadline : ℕ) (h : Gate) (fit : Bool)
    → fit ≡ true
    → first seq now h.waiting ≡ true
    → (after_fits seq n now deadline (h, fit)).1 ≡ admitted
unfolding after_fits
after_fits-first seq n now deadline h fit e f = ground arith

turn-admitted :
    (m : Model) (seq n now deadline : ℕ) (gone : Bool) (g : Gate)
    → (turn m seq n now deadline gone g).1 ≡ admitted
    → first seq now g.waiting ≡ true
unfolding turn
turn-admitted m seq n now deadline true g e = cc
turn-admitted m seq n now deadline false g e =
    subst (λ ws. first seq now ws ≡ true) (fits_waiting m n now g)
      (after_fits-admitted seq n now deadline (fits m n now g).0 (fits m n now g).1 e)

turn-first :
    (m : Model) (seq n now deadline : ℕ) (g : Gate)
    → first seq now g.waiting ≡ true
    → (fits m n now g).1 ≡ true
    → (turn m seq n now deadline false g).1 ≡ admitted
unfolding turn
turn-first m seq n now deadline g f e =
    after_fits-first seq n now deadline (fits m n now g).0 (fits m n now g).1 e
      (subst (λ ws. first seq now ws ≡ true) (sym (fits_waiting m n now g)) f)

-- A request that waits has AGING milliseconds behind it for each step of its class, and came before
-- all others that wait: if it fits, its turn admits it, and no turn of another admits that one.
pub turn_aged :
    (m : Model) (g : Gate) (w : Waiter) (before after : List Waiter) (tokens now deadline : ℕ)
    → g.waiting ≡ before ++ (w ∷ after)
    → w.rank * 600000 ≤ now - w.since
    → All (λ x. w.since < x.since) before
    → All (λ x. w.since < x.since) after
    → (fits m tokens now g).1 ≡ true
    → (seq n : ℕ) (gone : Bool) → w.seq ≢ seq
    → ((turn m w.seq tokens now deadline false g).1 ≡ admitted)
      × ((turn m seq n now deadline gone g).1 ≢ admitted)
turn_aged m g w before after tokens now deadline e h hb ha fit seq n gone ne = (
  turn-first m w.seq tokens now deadline g (who w.seq ∙ (==_iff w.seq w.seq).1 refl) fit,
  λ a. ne ((==_iff w.seq seq).0 (sym (who seq) ∙ turn-admitted m seq n now deadline gone g a)),
)
  where
    who : (k : ℕ) → first k now g.waiting ≡ (w.seq == k)
    who k = ap (first k now) e ∙ first_eq now k w before after h hb ha
