-- ===== src/Prelude/Text.antt =====
-- Texts in lines, as `strings.Split(text, "\n")` cuts them.
use Prim.Native.Char.{Char}
use Prim.Native.String.{String}
use mathlib.Core.Path.{◌≡◌, sym, refl, ap, ◌∙◌, subst}
use mathlib.Core.Bool.{false}
use mathlib.Core.List.{List, [], ◌∷◌}
use text.Mathlib.Text.{◌==◌}
use text.Mathlib.TextLemmas.{nil-append, cons-append}
use gm_agent.Prelude.Tests.{◌<+>◌, if◌then◌else◌, Bool-cases}
use mathlib.Core.Logic.{inl, inr}

extend_line : String → List String → List String
extend_line c [] = c ∷ []
extend_line c (l ∷ ls) = (c <+> l) ∷ ls

-- `strings.Split(text, "\n")`
unfoldable pub split_lines : String → List String
unfolding extend_line
split_lines String.[] = "" ∷ []
split_lines (String.◌∷◌ c text) =
    let rest = split_lines text in
    let char = String.◌∷◌ c String.[] in if char == "\n" then "" ∷ rest else extend_line char rest

-- A text without a line break.
abbrev pub IsLine : String → Type 0
IsLine String.[] = Unit
IsLine (String.◌∷◌ c text) = (((String.◌∷◌ c String.[]) == "\n") ≡ false) × IsLine text

line_break : (text : String) → "\n" <+> text ≡ String.◌∷◌ "\n" text
line_break text =
    cons-append "\n" "" text ∙ ap (λ (t : String). String.◌∷◌ "\n" t) (nil-append text)

single_append :
    (c : Char) (line : String) (lines : List String)
    → ((String.◌∷◌ c String.[]) <+> line) ∷ lines ≡ String.◌∷◌ c line ∷ lines
single_append c line lines =
    ap (λ (t : String). t ∷ lines)
      (cons-append c "" line ∙ ap (λ (t : String). String.◌∷◌ c t) (nil-append line))

pub split_lines-line :
    (line text : String)
    → IsLine line
    → split_lines (line <+> "\n" <+> text) ≡ line ∷ split_lines text
unfolding split_lines
split_lines-line String.[] text _ = ap split_lines (nil-append ("\n" <+> text) ∙ line_break text)
split_lines-line (String.◌∷◌ c line) text (plain, rest) =
    rw (cons-append c line ("\n" <+> text), split_lines, plain, split_lines-line line text rest)
      (single_append c line (split_lines text))

pub IsLine-append : (a b : String) → IsLine a → IsLine b → IsLine (a <+> b)
IsLine-append String.[] b _ h = subst (λ (t : String). IsLine t) (sym (nil-append b)) h
IsLine-append (String.◌∷◌ c a) b (plain, rest) h =
    subst (λ (t : String). IsLine t) (sym (cons-append c a b)) (plain, IsLine-append a b rest h)

extend_line-ne-nil :
    (c : String) (lines : List String)
    → (first : String) × (rest : List String) × (extend_line c lines ≡ first ∷ rest)
unfolding extend_line
extend_line-ne-nil c [] = (c, [], refl)
extend_line-ne-nil c (l ∷ ls) = (c <+> l, ls, refl)

pub split_lines-ne-nil :
    (text : String) → (first : String) × (rest : List String) × (split_lines text ≡ first ∷ rest)
unfolding split_lines
split_lines-ne-nil String.[] = ("", [], refl)
split_lines-ne-nil (String.◌∷◌ c text) = elim (Bool-cases ((String.◌∷◌ c String.[]) == "\n")) [
  | inl e ↦ rw e ("", split_lines text, refl)
  | inr e ↦ rw e (extend_line-ne-nil (String.◌∷◌ c String.[]) (split_lines text))
]
