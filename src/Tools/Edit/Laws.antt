-- ===== src/Tools/Edit/Laws.antt =====
-- findSubstring finds the first occurrence, and replace puts the new text in its place.
use Prim.Native.Char.{Char, len_utf8}
use Prim.Native.String
use Prim.Native.String.len
use gm_agent.Prelude.{
  true-false, ℕ, ◌+◌, ◌≤◌, String, Bool, true, false, ◌&&◌, ◌||◌, none, some, ◌≡◌, ◌≢◌, refl, sym,
  ap, ◌∙◌, ◌⊎◌, inl, inr, ◌==◌, eq_iff, ◌<+>◌, leb, arith, Bool-cases,
}
use text.Mathlib.Text.{starts_with}
use text.Mathlib.TextEquality.{starts_with_iff}
use text.Mathlib.TextLemmas.{
  nil-append, append-nil, cons-append, append_assoc, nil≢cons, head-eq_of_cons-eq,
  tail-eq_of_cons-eq,
}
use text.Mathlib.TextPositions.{slice-append_left, slice-append_right, len-append}
use gm_agent.Tools.Edit.{find_from, find_substring, contains, replace}

-- The first place where `s` has `sub` lies between `pre` and `post`.
pub record FirstAt (s sub pre post : String) : Type 0 where
  pub splits : s ≡ pre <+> sub <+> post
  pub first :
      (before after : String) → s ≡ before <+> sub <+> after → String.len pre ≤ String.len before

abbrev pub Absent : String → String → Type 0
Absent s sub = (before after : String) → s ≢ before <+> sub <+> after

begins : (s sub after : String) → s ≡ sub <+> after → starts_with s sub ≡ true
begins s sub after h = (starts_with_iff s sub).1 (after, sym h)

len-nil : String.len String.[] ≡ 0
len-nil = λ i. String.len.nil i

len-cons : (c : Char) (s : String) → String.len (String.◌∷◌ c s) ≡ len_utf8 c + String.len s
len-cons c s = λ i. String.len.cons c s i

-- An occurrence of what does not stand at the front lies behind the first character.
behind :
    (s sub before after : String)
    → starts_with s sub ≡ false
    → s ≡ before <+> sub <+> after
    → (c : Char) × (rest : String) × (before ≡ String.◌∷◌ c rest)
      × (s ≡ String.◌∷◌ c (rest <+> sub <+> after))
behind s sub String.[] after missing h =
    absurd (true-false (sym (begins s sub after (h ∙ nil-append (sub <+> after))) ∙ missing))
behind s sub (String.◌∷◌ c rest) after missing h =
    (c, rest, refl, h ∙ cons-append c rest (sub <+> after))

Absent-nil : (sub : String) → starts_with String.[] sub ≡ false → Absent String.[] sub
Absent-nil sub missing before after h =
    let (c, rest, _, e) = behind String.[] sub before after missing h in nil≢cons e

Absent-cons :
    (c : Char) (s sub : String)
    → starts_with (String.◌∷◌ c s) sub ≡ false
    → Absent s sub
    → Absent (String.◌∷◌ c s) sub
Absent-cons c s sub missing absent before after h =
    let (d, rest, _, e) = behind (String.◌∷◌ c s) sub before after missing h in
    absent rest after (tail-eq_of_cons-eq e)

first-here : (s sub after : String) → s ≡ sub <+> after → FirstAt s sub String.[] after
first-here s sub after h = record {
  splits = h ∙ sym (nil-append (sub <+> after));
  first = λ before rest _. rw (len-nil) (omega arith);
}

first-behind :
    (c : Char) (s sub pre post : String)
    → starts_with (String.◌∷◌ c s) sub ≡ false
    → FirstAt s sub pre post
    → FirstAt (String.◌∷◌ c s) sub (String.◌∷◌ c pre) post
first-behind c s sub pre post missing at = record {
  splits = ap (λ (t : String). String.◌∷◌ c t) at.splits ∙ sym (cons-append c pre (sub <+> post));
  first = λ before after h.
      let (d, rest, e, split) = behind (String.◌∷◌ c s) sub before after missing h in
      omega (
        arith,
        ap String.len e,
        len-cons c pre,
        len-cons d rest,
        ap len_utf8 (head-eq_of_cons-eq split),
        at.first rest after (tail-eq_of_cons-eq split),
      );
}

find_from-cases :
    (s sub : String) (i : ℕ)
    → ((pre : String) × (post : String) × FirstAt s sub pre post
        × (find_from s sub i ≡ some (i + String.len pre)))
      ⊎ (Absent s sub × (find_from s sub i ≡ none))
unfolding find_from
find_from-cases String.[] sub i = elim (Bool-cases (starts_with String.[] sub)) [
  | inl here ↦
      let (after, e) = (starts_with_iff String.[] sub).0 here in
      inl (
        String.[],
        after,
        first-here String.[] sub after (sym e),
        rw (here) (ap (λ (k : ℕ). some k) (rw (len-nil) (omega arith))),
      )
  | inr missing ↦ inr (Absent-nil sub missing, rw (missing) refl)
]
find_from-cases (String.◌∷◌ c s) sub i = elim (Bool-cases (starts_with (String.◌∷◌ c s) sub)) [
  | inl here ↦
      let (after, e) = (starts_with_iff (String.◌∷◌ c s) sub).0 here in
      inl (
        String.[],
        after,
        first-here (String.◌∷◌ c s) sub after (sym e),
        rw (here) (ap (λ (k : ℕ). some k) (rw (len-nil) (omega arith))),
      )
  | inr missing ↦ elim (find_from-cases s sub (i + len_utf8 c)) [
    | inl (pre, post, at, found) ↦ inl (
      String.◌∷◌ c pre,
      post,
      first-behind c s sub pre post missing at,
      rw (missing, found) (ap (λ (k : ℕ). some k) (rw (len-cons c pre) (omega arith))),
    )
    | inr (absent, gone) ↦ inr (Absent-cons c s sub missing absent, rw (missing, gone) refl)
  ]
]

cut-pre :
    (s pre old post : String) → s ≡ pre <+> old <+> post → String.slice s 0 (String.len pre) ≡ pre
cut-pre s pre old post h = rw (h) (slice-append_left pre (old <+> post))

cut-post :
    (s pre old post : String)
    → s ≡ pre <+> old <+> post
    → String.slice s (String.len pre + String.len old) (String.len s) ≡ post
cut-post s pre old post h =
    rw (h, sym (append_assoc pre old post), len-append (pre <+> old) post, sym (len-append pre old))
      (slice-append_right (pre <+> old) post)

not_longer :
    (s pre old post : String)
    → s ≡ pre <+> old <+> post
    → leb (String.len old) (String.len s) ≡ true
not_longer s pre old post h =
    rw (h, len-append pre (old <+> post), len-append old post) (ground arith)

Absent-eq : (s sub : String) → Absent s sub → (s == sub) ≡ false
Absent-eq s sub absent = elim (Bool-cases (s == sub)) [
  | inl same ↦
      absurd (absent "" "" ((eq_iff s sub).0 same ∙ sym (nil-append (sub <+> "") ∙ append-nil sub)))
  | inr other ↦ other
]

or-true : (a b : Bool) → a ≡ true → (a && (b || true)) ≡ true
or-true a b h = ground arith

and-false : (a : Bool) → (a && false) ≡ false
and-false a = ground arith

zero-add : (n : ℕ) → 0 + n ≡ n
zero-add n = omega arith

-- Either contains is true, and replace puts the new text in the place of the first occurrence of the old
-- one, or contains is false, the old text does not occur and replace returns the text as it was.
pub replace-cases :
    (s old new : String)
    → ((contains s old ≡ true)
        × ((pre : String) × (post : String) × FirstAt s old pre post
            × (replace s old new ≡ pre <+> new <+> post)))
      ⊎ ((contains s old ≡ false) × Absent s old × (replace s old new ≡ s))
unfolding contains find_substring replace
replace-cases s old new = elim (find_from-cases s old 0) [
  | inl (pre, post, at, found) ↦ inl (
    rw (found) (or-true _ _ (not_longer s pre old post at.splits)),
    (
      pre,
      post,
      at,
      rw
          (
            replace,
            find_substring,
            found,
            zero-add (String.len pre),
            cut-pre s pre old post at.splits,
            cut-post s pre old post at.splits,
          )
          refl,
    ),
  )
  | inr (absent, gone) ↦ inr (
    rw (gone, Absent-eq s old absent) (and-false _),
    absent,
    rw (replace, find_substring, gone) refl,
  )
]
