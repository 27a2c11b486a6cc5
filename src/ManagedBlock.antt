-- ===== src/ManagedBlock.antt =====
-- The managed part of an agent file: docker/purdue-af/scripts/managed-block.py. A file is its text,
-- and none where there is none.
pub mod Outside
mod Examples
use purdue_af.Common.{
  ℕ, Bool, true, false, Option, none, some, List, [], ◌∷◌, ◌++◌, ◌==◌, if◌then◌else◌,
}
use purdue_af.Common.Text.{Text, codes, same, starts_with, strip}

abbrev pub begin_mark : Text
begin_mark = codes "<!-- BEGIN PURDUE AF — managed, edits inside are overwritten -->"

abbrev pub end_mark : Text
end_mark = codes "<!-- END PURDUE AF -->"

abbrev pub newline : Text
newline = 10 ∷ []

abbrev pub is_empty : Text → Bool
is_empty [] = true
is_empty (c ∷ s) = false

abbrev pub found_after : ℕ → Option (Text × Text) → Option (Text × Text)
found_after c none = none
found_after c (some (before, at)) = some (c ∷ before, at)

-- str.find: what is before the first place of `mark`, and the text from there.
unfoldable pub find : Text → Text → Option (Text × Text)
find mark [] = none
find mark (c ∷ s) =
    let rest = find mark s in
    if starts_with (c ∷ s) mark then some ([], c ∷ s) else found_after c rest

-- What follows a text of the length of `mark`.
unfoldable pub skip : Text → Text → Text
skip [] s = s
skip (m ∷ mark) [] = []
skip (m ∷ mark) (c ∷ s) = skip mark s

abbrev pub drop_newline : ℕ → Text → Text
drop_newline c [] = if c == 10 then [] else c ∷ []
drop_newline c (d ∷ t) = c ∷ d ∷ t

unfoldable pub rstrip_newlines : Text → Text
rstrip_newlines [] = []
rstrip_newlines (c ∷ s) = drop_newline c (rstrip_newlines s)

unfoldable pub lstrip_newlines : Text → Text
lstrip_newlines [] = []
lstrip_newlines (c ∷ s) = let rest = lstrip_newlines s in if c == 10 then rest else c ∷ s

unfoldable pub render : Text → Text
render section = begin_mark ++ (newline ++ (strip section ++ (newline ++ end_mark)))

unfoldable pub join_parts : List Text → Text
join_parts [] = []
join_parts (p ∷ []) = p
join_parts (p ∷ q ∷ parts) = p ++ (newline ++ (newline ++ join_parts (q ∷ parts)))

unfoldable pub keep_parts : List Text → List Text
keep_parts [] = []
keep_parts (p ∷ parts) = let rest = keep_parts parts in if is_empty p then rest else p ∷ rest

unfoldable pub append_block : Text → Text → Text
append_block existing block =
    if is_empty (strip existing)
    then block ++ newline
    else rstrip_newlines existing ++ (newline ++ (newline ++ (block ++ newline)))

unfoldable pub replace_block : Text → Text → Text → Text
replace_block head block tail =
    join_parts
      (keep_parts (rstrip_newlines head ∷ block ∷ rstrip_newlines (lstrip_newlines tail) ∷ []))
    ++ newline

unfoldable pub up_to_end : Text → Text → Text → Option (Text × Text) → Text
up_to_end existing block head none = append_block existing block
up_to_end existing block head (some (inside, at)) = replace_block head block (skip end_mark at)

unfoldable pub from_begin : Text → Text → Option (Text × Text) → Text
from_begin existing block none = append_block existing block
from_begin existing block (some (head, at)) = up_to_end existing block head (find end_mark at)

unfoldable pub apply_block : Text → Text → Text
apply_block existing section = from_begin existing (render section) (find begin_mark existing)

abbrev pub text_of : Option Text → Text
text_of none = []
text_of (some s) = s

-- The target after a run, and whether it was written.
unfoldable pub main : Text → Option Text → Option Text × Bool
main section target =
    let updated = apply_block (text_of target) section in
    if same updated (text_of target) then (target, false) else (some updated, true)
