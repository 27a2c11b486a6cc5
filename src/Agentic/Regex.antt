-- ===== src/Agentic/Regex.antt =====
-- The regular expressions that promql_scope.py writes, parsed, and which texts Prometheus matches by
-- them: the whole text, as its matchers do. `.` is any character but a line's end.
use purdue_af.Common.{ℕ, false, List, [], ◌∷◌, ◌++◌, ◌≡◌, ◌⊎◌, ◌==◌, All}
use purdue_af.Common.Text.{Text, IsFree}

pub data Regex : Type 0 where
  nothing dots : Regex
  literal : ℕ → Regex
  none_of : List ℕ → Regex
  cat alt : Regex → Regex → Regex

-- `re.escape(text)`
abbrev pub text_of : Text → Regex
text_of [] = nothing
text_of (c ∷ s) = cat (literal c) (text_of s)

abbrev pub Matches : Regex → Text → Type 0
Matches nothing s = s ≡ []
Matches dots s = IsFree 10 s
Matches (literal c) s = s ≡ c ∷ []
Matches (none_of cs) s = (c : ℕ) × (s ≡ c ∷ []) × All (λ d. (c == d) ≡ false) cs
Matches (cat r q) s = (a : Text) × (b : Text) × (s ≡ a ++ b) × Matches r a × Matches q b
Matches (alt r q) s = Matches r s ⊎ Matches q s
