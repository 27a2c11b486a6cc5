-- ===== src/Ray/Jobs/Logs.antt =====
-- The end of a job's log that is kept.
use purdue_af.Common.{
  by_if, ◌⊎◌, ◌<◌, Bool, true, ltb→lt, ==_iff, ◌==◌, if◌then◌else◌, subst, ℕ, ◌+◌, ◌*◌, ◌≤◌, ◌≡◌,
  refl, sym, ap, ◌∙◌, inl, inr, false, List, [], ◌∷◌, ◌++◌, arith, ltb, leb, ◌&&◌, length,
  Bool-cases,
}
use purdue_af.Ray.Jobs.{last, keep_from, kept_logs, decoded, after_line}

length-last : (n : ℕ) (xs : List ℕ) → length (last n xs) ≤ n
unfolding last
length-last n [] = omega arith
length-last n (x ∷ xs) = ground (arith, length-last n xs)

length-append : (xs ys : List ℕ) → length (xs ++ ys) ≡ length xs + length ys
length-append [] ys = omega arith
length-append (x ∷ xs) ys = omega (arith, length-append xs ys)

last_short : (n : ℕ) (xs : List ℕ) → length xs ≤ n → last n xs ≡ xs
unfolding last
last_short n [] h = refl
last_short n (x ∷ xs) h = ground (arith, h)

-- What is cut before the last n changes nothing of the last n of what comes after.
last-append : (n : ℕ) (xs ys : List ℕ) → last n (last n xs ++ ys) ≡ last n (xs ++ ys)
unfolding last
last-append n [] ys = refl
last-append n (x ∷ xs) ys = elim (Bool-cases (ltb (length xs) n)) [
  | inl e ↦ rw e refl
  | inr e ↦
      let long : ltb (length (xs ++ ys)) n ≡ false = ground (arith, e, length-append xs ys) in
      rw (e, long) (last-append n xs ys)
]

-- All that the messages brought.
abbrev pub all_of : List (List ℕ) → List ℕ
all_of [] = []
all_of (m ∷ ms) = m ++ all_of ms

append_assoc : (xs ys zs : List ℕ) → (xs ++ ys) ++ zs ≡ xs ++ (ys ++ zs)
append_assoc [] ys zs = refl
append_assoc (x ∷ xs) ys zs = ap (λ l. x ∷ l) (append_assoc xs ys zs)

append_nil : (xs : List ℕ) → xs ++ [] ≡ xs
append_nil [] = refl
append_nil (x ∷ xs) = ap (λ l. x ∷ l) (append_nil xs)

keep_from-last :
    (n : ℕ) (kept : List ℕ) (ms : List (List ℕ))
    → last n (keep_from n kept ms) ≡ last n (kept ++ all_of ms)
unfolding keep_from
keep_from-last n kept [] = ap (last n) (sym (append_nil kept))
keep_from-last n kept (m ∷ ms) = elim (Bool-cases (ltb (2 * n) (length (kept ++ m)))) [
  | inl e ↦ rw e (
      keep_from-last n (last n (kept ++ m)) ms
      ∙ last-append n (kept ++ m) (all_of ms)
      ∙ ap (last n) (append_assoc kept m (all_of ms)))
  | inr e ↦ rw e (keep_from-last n (kept ++ m) ms ∙ ap (last n) (append_assoc kept m (all_of ms)))
]

length-last-le : (n : ℕ) (xs : List ℕ) → length (last n xs) ≤ length xs
unfolding last
length-last-le n [] = omega arith
length-last-le n (x ∷ xs) = ground (arith, length-last-le n xs)

keep_from-length :
    (n : ℕ) (kept : List ℕ) (ms : List (List ℕ))
    → length (keep_from n kept ms) ≤ length kept + length (all_of ms)
unfolding keep_from
keep_from-length n kept [] = omega arith
keep_from-length n kept (m ∷ ms) = elim (Bool-cases (ltb (2 * n) (length (kept ++ m)))) [
  | inl e ↦ rw e (
      omega (
        arith,
        keep_from-length n (last n (kept ++ m)) ms,
        length-last-le n (kept ++ m),
        length-append kept m,
        length-append m (all_of ms),
      ))
  | inr e ↦ rw e (
      omega (
        arith,
        keep_from-length n (kept ++ m) ms,
        length-append kept m,
        length-append m (all_of ms),
      ))
]

-- A text is another without some bytes at the start.
abbrev pub IsEndOf : List ℕ → List ℕ → Type 0
IsEndOf end all = (cut : List ℕ) × (all ≡ cut ++ end)

IsEndOf-trans : (a b c : List ℕ) → IsEndOf a b → IsEndOf b c → IsEndOf a c
IsEndOf-trans a b c (p, e) (q, f) = (q ++ p, f ∙ ap (λ x. q ++ x) e ∙ sym (append_assoc q p a))

last-IsEndOf : (n : ℕ) (xs : List ℕ) → IsEndOf (last n xs) xs
unfolding last
last-IsEndOf n [] = ([], refl)
last-IsEndOf n (x ∷ xs) =
    by_if (λ s. IsEndOf s (x ∷ xs)) (ltb (length xs) n) _ _ (λ _. ([], refl))
      (λ _. let (p, e) = last-IsEndOf n xs in (x ∷ p, ap (λ l. x ∷ l) e))

decoded-IsEndOf : (s : List ℕ) → IsEndOf (decoded s) s
unfolding decoded
decoded-IsEndOf [] = ([], refl)
decoded-IsEndOf (c ∷ s) =
    by_if (λ r. IsEndOf r (c ∷ s)) (leb 128 c && ltb c 192) _ _
      (λ _. let (p, e) = decoded-IsEndOf s in (c ∷ p, ap (λ l. c ∷ l) e)) (λ _. ([], refl))

-- The text starts a line of the other, or is empty.
abbrev pub IsLineOf : List ℕ → List ℕ → Type 0
IsLineOf end all = ((cut : List ℕ) × (all ≡ cut ++ (10 ∷ end))) ⊎ (end ≡ [])

after_line-IsLineOf : (s : List ℕ) → IsLineOf (after_line s) s
unfolding after_line
after_line-IsLineOf [] = inr refl
after_line-IsLineOf (c ∷ s) =
    by_if (λ r. IsLineOf r (c ∷ s)) (c == 10) _ _
      (λ e. inl ([], ap (λ d. d ∷ s) ((==_iff c 10).0 e)))
      (λ _. elim (after_line-IsLineOf s) [
        | inl (p, e) ↦ inl (c ∷ p, ap (λ l. c ∷ l) e)
        | inr e ↦ inr e
      ])

IsLineOf-IsEndOf : (a b : List ℕ) → IsLineOf a b → IsEndOf a b
IsLineOf-IsEndOf a b (inl (p, e)) = (p ++ (10 ∷ []), e ∙ sym (append_assoc p (10 ∷ []) a))
IsLineOf-IsEndOf a b (inr e) = (b, sym (append_nil b) ∙ ap (λ x. b ++ x) (sym e))

IsLineOf-of : (a b c : List ℕ) → IsLineOf a b → IsEndOf b c → IsLineOf a c
IsLineOf-of a b c (inl (p, e)) (q, f) =
    inl (q ++ p, f ∙ ap (λ x. q ++ x) e ∙ sym (append_assoc q p (10 ∷ a)))
IsLineOf-of a b c (inr e) end = inr e

IsEndOf-length : (a b : List ℕ) → IsEndOf a b → length a ≤ length b
IsEndOf-length a b (p, e) = omega (arith, ap length e, length-append p a)

-- What is kept of `all`, and whether it is marked as cut.
abbrev pub IsKept : ℕ → List ℕ → Bool × List ℕ → Type 0
IsKept n all (false, text) = (text ≡ decoded (last n all)) × IsEndOf text all
IsKept n all (true, text) =
    (n < length all) × (text ≡ after_line (decoded (last n all))) × IsLineOf text all

last_end-IsEndOf : (n : ℕ) (all : List ℕ) → IsEndOf (decoded (last n all)) all
last_end-IsEndOf n all =
    IsEndOf-trans (decoded (last n all)) (last n all) all (decoded-IsEndOf (last n all))
      (last-IsEndOf n all)

last_line-IsLineOf : (n : ℕ) (all : List ℕ) → IsLineOf (after_line (decoded (last n all))) all
last_line-IsLineOf n all =
    IsLineOf-of (after_line (decoded (last n all))) (decoded (last n all)) all
      (after_line-IsLineOf (decoded (last n all))) (last_end-IsEndOf n all)

decoded_length : (n : ℕ) (xs : List ℕ) → length (decoded (last n xs)) ≤ n
decoded_length n xs = omega (
  arith,
  IsEndOf-length (decoded (last n xs)) (last n xs) (decoded-IsEndOf (last n xs)),
  length-last n xs,
)

line_length : (n : ℕ) (xs : List ℕ) → length (after_line (decoded (last n xs))) ≤ n
line_length n xs =
    let s = decoded (last n xs) in
    omega (
      arith,
      decoded_length n xs,
      IsEndOf-length (after_line s) s (IsLineOf-IsEndOf (after_line s) s (after_line-IsLineOf s)),
    )

-- Whatever messages a log comes in: what is kept is an end of all of it, of as many bytes as may be
-- kept or fewer. It is the last of so many bytes, less the rest of a character that these cut; where it
-- is marked as cut, then of a log that is longer, it also lacks what these have of a first line, and
-- so starts at the start of a line or is empty. A log that is not longer is kept whole, unmarked.
pub kept_logs-last :
    (n : ℕ) (ms : List (List ℕ))
    → IsKept n (all_of ms) (kept_logs n ms)
      × (length (kept_logs n ms).1 ≤ n)
      × ((n < length (all_of ms)) ⊎ (kept_logs n ms ≡ (false, decoded (all_of ms))))
unfolding kept_logs
kept_logs-last n ms =
    subst
      (λ (l : List ℕ).
        P (if ltb n (length kept) then (true, after_line (decoded l)) else (false, decoded l)))
      (sym (keep_from-last n [] ms))
      (by_if P (ltb n (length kept)) _ _
        (λ more.
          ((longer more, refl, last_line-IsLineOf n all), line_length n all, inl (longer more)))
        (λ _. ((refl, last_end-IsEndOf n all), decoded_length n all, short_or)))
  where
    all : List ℕ
    all = all_of ms

    kept : List ℕ
    kept = keep_from n [] ms

    P : Bool × List ℕ → Type 0
    P x =
        IsKept n (all_of ms) x
        × (length x.1 ≤ n)
        × ((n < length (all_of ms)) ⊎ (x ≡ (false, decoded (all_of ms))))

    longer : ltb n (length (keep_from n [] ms)) ≡ true → n < length (all_of ms)
    longer more =
        omega (arith, ltb→lt n (length (keep_from n [] ms)) more, keep_from-length n [] ms)

    short_or :
        (n < length (all_of ms))
        ⊎ (Path (Bool × List ℕ) (false, decoded (last n (all_of ms))) (false, decoded (all_of ms)))
    short_or = elim (Bool-cases (ltb n (length (all_of ms)))) [
      | inl e ↦ inl (ltb→lt n (length (all_of ms)) e)
      | inr e ↦ inr (ap (λ l. (false, decoded l)) (last_short n (all_of ms) (ground (arith, e))))
    ]
