-- ===== src/Prelude/Trim.antt =====
-- `strings.TrimSpace` and `strings.TrimPrefix`, and what they make of a line "label: value".
use Prim.Native.Nat.{ℕ}
use Prim.Native.Char.{code}
use Prim.Native.String.{String, len, slice}
use mathlib.Core.Path.{◌≡◌, sym, ap, ◌∙◌, subst}
use mathlib.Core.Bool.{Bool, true, false, ◌&&◌, ◌||◌}
use mathlib.Core.Logic.{inl, inr}
use native.Mathlib.Omega.{arith}
use text.Mathlib.Text.{◌==◌, starts_with}
use text.Mathlib.TextEquality.{eq_iff}
use text.Mathlib.TextLemmas.{nil-append, cons-append, append-nil, append_assoc, append-eq-nil_iff}
use text.Mathlib.TextPositions.{starts_with-append, slice-append_right, len-append}
use gm_agent.Prelude.Tests.{◌<+>◌, if◌then◌else◌, leb, eqb, Bool-cases}

-- `unicode.IsSpace`
unfoldable pub is_space : ℕ → Bool
is_space n =
    (leb 9 n && leb n 13)
    || eqb n 32
    || eqb n 0x85
    || eqb n 0xa0
    || eqb n 0x1680
    || (leb 0x2000 n && leb n 0x200a)
    || eqb n 0x2028
    || eqb n 0x2029
    || eqb n 0x202f
    || eqb n 0x205f
    || eqb n 0x3000

unfoldable pub left_trim : String → String
unfolding is_space
left_trim String.[] = ""
left_trim (String.◌∷◌ c text) =
    let rest = left_trim text in if is_space (code c) then rest else String.◌∷◌ c text

unfoldable pub right_trim : String → String
unfolding is_space
right_trim String.[] = ""
right_trim (String.◌∷◌ c text) =
    let rest = right_trim text in if is_space (code c) && rest == "" then "" else String.◌∷◌ c rest

unfoldable pub trim_space : String → String
unfolding left_trim right_trim
trim_space text = right_trim (left_trim text)

-- `strings.TrimPrefix` of a text that has the prefix
abbrev pub trim_prefix : String → String → String
trim_prefix text prefix = slice text (len prefix) (len text)

-- No space at either end.
abbrev pub IsTrimmed : String → Type 0
IsTrimmed text = (left_trim text ≡ text) × (right_trim text ≡ text)

filled-append : (s t : String) → (t == "") ≡ false → ((s <+> t) == "") ≡ false
filled-append s t full = elim (Bool-cases ((s <+> t) == "")) [
  | inr e ↦ e
  | inl e ↦
      let nothing = ((append-eq-nil_iff).0 ((eq_iff (s <+> t) "").0 e)).1 in
      cc (sym full ∙ (eq_iff t "").1 nothing)
]

pub right_trim-append :
    (s t : String) → (t == "") ≡ false → right_trim t ≡ t → right_trim (s <+> t) ≡ s <+> t
unfolding right_trim
right_trim-append String.[] t full trimmed = rw (nil-append t) trimmed
right_trim-append (String.◌∷◌ c s) t full trimmed =
    rw (cons-append c s t, right_trim, right_trim-append s t full trimmed, filled-append s t full)
      (ground arith)

trim-label :
    (label value : String)
    → left_trim (label <+> " " <+> value) ≡ label <+> " " <+> value
    → (value == "") ≡ false
    → IsTrimmed value
    → trim_space (label <+> " " <+> value) ≡ label <+> " " <+> value
unfolding trim_space
trim-label label value starts full trimmed =
    rw (starts, ← append_assoc label " " value)
      (right_trim-append (label <+> " ") value full trimmed.1)

-- The value of a line "label: value", as the readers of such lines take it.
abbrev pub value_of : String → String → String
value_of label line = trim_space (trim_prefix (trim_space line) label)

trim_prefix-append : (s t : String) → trim_prefix (s <+> t) s ≡ t
trim_prefix-append s t = rw (len-append s t) (slice-append_right s t)

trim_prefix_self : (s : String) → trim_prefix s s ≡ ""
trim_prefix_self s =
    ap (λ (t : String). trim_prefix t s) (sym (append-nil s)) ∙ trim_prefix-append s ""

trim_space-blank : (t : String) → trim_space (" " <+> t) ≡ trim_space t
unfolding trim_space left_trim
trim_space-blank t =
    ap trim_space (cons-append " " "" t ∙ ap (λ (u : String). String.◌∷◌ " " u) (nil-append t))

pub starts_with_self : (s : String) → starts_with s s ≡ true
starts_with_self s =
    ap (λ (t : String). starts_with t s) (sym (append-nil s)) ∙ starts_with-append s ""

value_of-blank :
    (label : String)
    → trim_space (label <+> " ") ≡ label
    → (starts_with (trim_space (label <+> " ")) label ≡ true)
      × (value_of label (label <+> " ") ≡ "")
unfolding trim_space left_trim right_trim
value_of-blank label bare = rw bare (starts_with_self label, ap trim_space (trim_prefix_self label))

pub value_of-label :
    (label value : String)
    → left_trim (label <+> " " <+> value) ≡ label <+> " " <+> value
    → right_trim (label <+> " ") ≡ label
    → IsTrimmed value
    → (starts_with (trim_space (label <+> " " <+> value)) label ≡ true)
      × (value_of label (label <+> " " <+> value) ≡ value)
unfolding trim_space
value_of-label label value starts bare trimmed = elim (Bool-cases (value == "")) [
  | inl e ↦ rw ((eq_iff value "").0 e) (
      value_of-blank label (
        ap right_trim (
          subst (λ (v : String). left_trim (label <+> " " <+> v) ≡ label <+> " " <+> v)
            ((eq_iff value "").0 e) starts)
        ∙ bare))
  | inr e ↦ rw (trim-label label value starts e trimmed) (
    starts_with-append label (" " <+> value),
    ap trim_space (trim_prefix-append label (" " <+> value))
        ∙ trim_space-blank value
        ∙ ap right_trim trimmed.0
        ∙ trimmed.1,
  )
]
