-- ===== src/Patch/Backups/Laws.antt =====
-- The hunks of a diff, put together again, are its lines from the first header on.
use gm_agent.Prelude.{
  String, none, some, List, [], ◌∷◌, ◌++◌, append_assoc, ◌≡◌, refl, ap, ◌∙◌, inl, inr, Bool-cases,
  if◌then◌else◌,
}
use gm_agent.Prelude.Text.{split_lines}
use gm_agent.Patch.Backups.{DiffHunk, parse_hunks, parse_diff}
use text.Mathlib.Text.{starts_with}

unfoldable pub lines_of : List DiffHunk → List String
lines_of [] = []
lines_of (h ∷ hs) = (h.header ∷ h.lines) ++ lines_of hs

-- The lines from the first header on.
unfoldable pub from_header : List String → List String
from_header [] = []
from_header (l ∷ ls) = let rest = from_header ls in if starts_with l "@@" then l ∷ ls else rest

lines_of-parse_hunks-current :
    (h : DiffHunk) (ls : List String)
    → lines_of (parse_hunks (some h) ls) ≡ (h.header ∷ h.lines) ++ ls
unfolding lines_of parse_hunks
lines_of-parse_hunks-current h [] = refl
lines_of-parse_hunks-current h (l ∷ ls) = elim (Bool-cases (starts_with l "@@")) [
  | inl e ↦
      rw (parse_hunks, e)
        (ap (λ (t : List String). (h.header ∷ h.lines) ++ t)
          (lines_of-parse_hunks-current (record { header = l; lines = [] }) ls))
  | inr e ↦
      rw (parse_hunks, e)
        (lines_of-parse_hunks-current (record h { lines = h.lines ++ l ∷ [] }) ls
          ∙ ap (λ (t : List String). h.header ∷ t) (append_assoc h.lines (l ∷ []) ls))
]

lines_of-parse_hunks : (ls : List String) → lines_of (parse_hunks none ls) ≡ from_header ls
unfolding lines_of parse_hunks from_header
lines_of-parse_hunks [] = refl
lines_of-parse_hunks (l ∷ ls) = elim (Bool-cases (starts_with l "@@")) [
  | inl e ↦
      rw (parse_hunks, e) (lines_of-parse_hunks-current (record { header = l; lines = [] }) ls)
  | inr e ↦ rw (parse_hunks, e) (lines_of-parse_hunks ls)
]

pub lines_of-parse_diff :
    (diff : String) → lines_of (parse_diff diff) ≡ from_header (split_lines diff)
unfolding parse_diff
lines_of-parse_diff diff = lines_of-parse_hunks (split_lines diff)
