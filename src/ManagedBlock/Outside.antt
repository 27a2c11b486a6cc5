-- ===== src/ManagedBlock/Outside.antt =====
-- What is kept of a file in which the managed part is written.
use purdue_af.Common.{
  length, ◌+◌, ◌≤◌, if◌then◌else◌, subst, ℕ, ◌≡◌, refl, ap, sym, ◌∙◌, ◌⊎◌, inl, inr, true, false,
  Option, none, some, [], ◌∷◌, ◌++◌, ◌==◌, Bool-cases, arith, true≢false, cons≢nil,
}
use purdue_af.Common.Text.{Text, starts_with, starts_with→append, strip, lstrip, rstrip, is_space}
use purdue_af.ManagedBlock.{
  begin_mark, end_mark, newline, is_empty, found_after, find, skip, drop_newline, rstrip_newlines,
  lstrip_newlines, render, join_parts, keep_parts, append_block, replace_block, up_to_end,
  from_begin, apply_block,
}

-- No place of the text has the mark.
abbrev pub Lacks : Text → Text → Type 0
Lacks mark s = (before at : Text) → s ≡ before ++ at → starts_with at mark ≡ true → ⊥

-- `at` is the text from the first place of the mark, and `before` what is before that.
abbrev pub IsFirst : Text → Text → Text → Text → Type 0
IsFirst mark s before at =
    (s ≡ before ++ at)
    × (starts_with at mark ≡ true)
    × ((b a : Text) → s ≡ b ++ a → starts_with a mark ≡ true → length before ≤ length b)

-- The text has no begin mark, or no end mark after its first one.
abbrev pub HasNoBlock : Text → Type 0
HasNoBlock s =
    Lacks begin_mark s
    ⊎ ((head : Text) × (at : Text) × IsFirst begin_mark s head at × Lacks end_mark at)

-- The text's block: from its first begin mark to the first end mark after that.
abbrev pub HasBlock : Text → Text → Text → Type 0
HasBlock s head tail =
    (at : Text) × (inside : Text) × IsFirst begin_mark s head at
    × IsFirst end_mark at inside (end_mark ++ tail)

-- `head` and `tail` are what is outside the managed part: of a file without one, all of it is
-- before, or nothing where the file is blank.
abbrev pub IsOutside : Text → Text → Text → Type 0
IsOutside existing head tail =
    HasBlock existing head tail
    ⊎ (HasNoBlock existing
        × (tail ≡ [])
        × (head ≡ (if is_empty (strip existing) then [] else existing)))

IsFoundAt : Text → Text → Option (Text × Text) → Type 0
IsFoundAt mark s none = Lacks mark s
IsFoundAt mark s (some (before, at)) = IsFirst mark s before at

cons_tail : (c d : ℕ) (s t : Text) → c ∷ s ≡ d ∷ t → s ≡ t
cons_tail c d s t e = cc

module _ (mark : Text) (c : ℕ) (s : Text) (other : starts_with (c ∷ s) mark ≡ false) where
  -- Where the text does not start with the mark, a place of it is one of the rest.
  later_place :
      (before at : Text)
      → c ∷ s ≡ before ++ at
      → starts_with at mark ≡ true
      → (b : Text) × (s ≡ b ++ at) × (length before ≡ 1 + length b)
  later_place [] at e m = absurd (true≢false (sym m ∙ ap (λ x. starts_with x mark) (sym e) ∙ other))
  later_place (d ∷ b) at e m = (b, cons_tail c d s (b ++ at) e, omega arith)

  found_after-IsFoundAt :
      (o : Option (Text × Text)) → IsFoundAt mark s o → IsFoundAt mark (c ∷ s) (found_after c o)
  unfolding IsFoundAt
  found_after-IsFoundAt none lacks =
      λ before at e m. let (b, q, n) = later_place before at e m in lacks b at q m
  found_after-IsFoundAt (some (before, at)) (e, m, least) = (
    ap (λ x. c ∷ x) e,
    m,
    λ b a q k.
        let (b', q', n) = later_place b a q k in
        let le : length before ≤ length b' = least b' a q' k in omega arith,
  )

empty_end : (before at : Text) → [] ≡ before ++ at → at ≡ []
empty_end [] at e = sym e
empty_end (c ∷ before) at e = absurd (cons≢nil (sym e))

begin_mark-some : starts_with [] begin_mark ≡ false
unfolding starts_with
begin_mark-some = refl

end_mark-some : starts_with [] end_mark ≡ false
unfolding starts_with
end_mark-some = refl

-- `find` gives the first place of a mark that is not empty, or there is none.
find-IsFoundAt : (mark s : Text) → starts_with [] mark ≡ false → IsFoundAt mark s (find mark s)
unfolding IsFoundAt find
find-IsFoundAt mark [] empty = λ before at e m.
    absurd (true≢false (sym m ∙ ap (λ x. starts_with x mark) (empty_end before at e) ∙ empty))
find-IsFoundAt mark (c ∷ s) empty = elim (Bool-cases (starts_with (c ∷ s) mark)) [
  | inl e ↦ rw e (refl, e, λ b a q m. omega arith)
  | inr e ↦ rw e (found_after-IsFoundAt mark c s e (find mark s) (find-IsFoundAt mark s empty))
]

skip-append : (mark s : Text) → skip mark (mark ++ s) ≡ s
unfolding skip
skip-append [] s = refl
skip-append (m ∷ mark) s = skip-append mark s

drop_newline_empty : (c : ℕ) (t : Text) → drop_newline c t ≡ [] → (t ≡ []) × ((c == 10) ≡ true)
drop_newline_empty c [] h = elim (Bool-cases (c == 10)) [
  | inl e ↦ (refl, e)
  | inr e ↦ absurd (cons≢nil (rw e at h))
]
drop_newline_empty c (d ∷ t) h = absurd (cons≢nil h)

is_space_newline : (c : ℕ) → (c == 10) ≡ true → is_space c ≡ true
unfolding is_space
is_space_newline c e = ground arith

lstrip_blank : (s : Text) → rstrip_newlines s ≡ [] → lstrip s ≡ []
unfolding lstrip rstrip_newlines
lstrip_blank [] h = refl
lstrip_blank (c ∷ s) h =
    let (t, e) = drop_newline_empty c (rstrip_newlines s) h in
    rw (is_space_newline c e) (lstrip_blank s t)

empty_eq : (s : Text) → is_empty s ≡ true → s ≡ []
empty_eq [] h = refl
empty_eq (c ∷ s) h = cc

strip_blank : (s : Text) → is_empty (rstrip_newlines s) ≡ true → is_empty (strip s) ≡ true
unfolding strip rstrip
strip_blank s h = rw (lstrip_blank s (empty_eq (rstrip_newlines s) h)) refl

append_assoc : (p q r : Text) → p ++ (q ++ r) ≡ (p ++ q) ++ r
append_assoc [] q r = refl
append_assoc (c ∷ p) q r = ap (λ s. c ∷ s) (append_assoc p q r)

-- A file with `head` and `tail` around its managed part.
abbrev pub around : Text → Text → Text → Text
around head block tail =
    join_parts
      (keep_parts (rstrip_newlines head ∷ block ∷ rstrip_newlines (lstrip_newlines tail) ∷ []))
    ++ newline

IsWritten : Text → Text → Text → Type 0
IsWritten existing section result =
    (head : Text) × (tail : Text) × IsOutside existing head tail
    × (result ≡ around head (render section) tail)

append_block-IsWritten :
    (e section : Text) → HasNoBlock e → IsWritten e section (append_block e (render section))
unfolding IsWritten append_block render join_parts keep_parts rstrip_newlines lstrip_newlines
append_block-IsWritten e section no_block = elim (Bool-cases (is_empty (strip e))) [
  | inl b ↦ ([], [], inr (no_block, refl, rw b refl), rw b refl)
  | inr b ↦ (
    e,
    [],
    inr (no_block, refl, rw b refl),
    rw (b, not_blank e b) (append_assoc (rstrip_newlines e) _ newline),
  )
]
  where
    not_blank : (s : Text) → is_empty (strip s) ≡ false → is_empty (rstrip_newlines s) ≡ false
    not_blank s b = elim (Bool-cases (is_empty (rstrip_newlines s))) [
      | inl e ↦ absurd (true≢false (sym (strip_blank s e) ∙ b))
      | inr e ↦ e
    ]

up_to_end-IsWritten :
    (e section head at : Text) (o : Option (Text × Text))
    → IsFirst begin_mark e head at
    → IsFoundAt end_mark at o
    → IsWritten e section (up_to_end e (render section) head o)
unfolding IsFoundAt up_to_end IsWritten replace_block
up_to_end-IsWritten e section head at none first lacks =
    append_block-IsWritten e section (inr (head, at, first, lacks))
up_to_end-IsWritten e section head at (some (inside, last)) first last_first =
    let (tail, t) = starts_with→append last end_mark last_first.1 in
    (
      head,
      tail,
      inl (at, inside, first, subst (IsFirst end_mark at inside) t last_first),
      ap (λ x. around head (render section) x) (ap (skip end_mark) t ∙ skip-append end_mark tail),
    )

from_begin-IsWritten :
    (e section : Text) (o : Option (Text × Text))
    → IsFoundAt begin_mark e o
    → IsWritten e section (from_begin e (render section) o)
unfolding IsFoundAt from_begin
from_begin-IsWritten e section none lacks = append_block-IsWritten e section (inl lacks)
from_begin-IsWritten e section (some (head, at)) first =
    up_to_end-IsWritten e section head at (find end_mark at) first
      (find-IsFoundAt end_mark at end_mark-some)

-- Whatever the file and the section: if the file has a block, from its first begin mark to the first
-- end mark after that, the result has the section's block in its place; if not, the result has it
-- after all of the file, or alone where the file is blank. What is before and after keeps its text
-- but for the newlines at its end and, after the block, at its start; a blank line separates the
-- parts that are not empty.
pub apply_block-IsOutside :
    (existing section : Text)
    → (head : Text) × (tail : Text) × IsOutside existing head tail
      × (apply_block existing section ≡ around head (render section) tail)
unfolding apply_block IsWritten
apply_block-IsOutside existing section =
    from_begin-IsWritten existing section (find begin_mark existing)
      (find-IsFoundAt begin_mark existing begin_mark-some)
