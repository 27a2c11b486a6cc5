-- ===== src/ManagedBlock/Examples.antt =====
-- A file with a managed part: the theorem at it.
use purdue_af.Common.{◌≡◌, ◌++◌}
use purdue_af.Common.Text.{Text, codes}
use purdue_af.ManagedBlock.{begin_mark, end_mark, newline, render, apply_block}
use purdue_af.ManagedBlock.Outside.{IsOutside, around, apply_block-IsOutside}

abbrev notes : Text
notes = codes "notes" ++ (newline ++ (begin_mark ++ (codes "old" ++ (end_mark ++ codes " more"))))

apply_block-IsOutside_example :
    (head : Text) × (tail : Text) × IsOutside notes head tail
    × (apply_block notes (codes " new ") ≡ around head (render (codes " new ")) tail)
apply_block-IsOutside_example = apply_block-IsOutside notes (codes " new ")
