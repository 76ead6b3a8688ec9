-- ===== src/Store/Events/Scan.antt =====
-- The scan of the log in pkg/store/fs_store.go, read against the list of the events in it.

use Prim.Native.String.{len}
use text.Mathlib.TextLemmas as Text
use gm_agent.Prelude.{
  String, true, false, Option, none, some, List, [], ◌∷◌, ◌++◌, append_assoc, append-nil, map, ◌≡◌,
  refl, sym, ap, ◌∙◌, inl, inr, ◌==◌, ◌<+>◌, ltb, if◌then◌else◌, All, Bool-cases, Option-cases,
}
use gm_agent.Prelude.Result.{Error, value, failed, canceled, not_found}
use gm_agent.Prelude.Text.{split_lines, IsLine, split_lines-line}
use gm_agent.Types.Event.{Event, base_of, event_id}
use gm_agent.Store.Events.{
  EventCodec, max_line, drop_cr, entry, decode_as, decode, read_line, scan_lines, look_for,
  found_event, collect_since,
}

-- What a visitor sees of a list of events: all of them, or those up to its first error.
unfoldable pub visit_all :
    {S : Type 0} → (Event → S → Option Error × S) → List Event → S → Option Error × S
visit_all visit [] s = (none, s)
visit_all visit (e ∷ es) s =
    let (stop, s') = visit e s in elim stop [ some x ↦ (some x, s') | none ↦ visit_all visit es s' ]

-- The events behind the first one with the identifier.
unfoldable pub behind : String → List Event → List Event
unfolding event_id
behind after [] = []
behind after (e ∷ es) = let rest = behind after es in if event_id e == after then es else rest

-- All events for the empty identifier, else those behind the first one that has it.
unfoldable pub events_after : String → List Event → List Event
unfolding behind
events_after after es = if after == "" then es else behind after es

module _ (codec : EventCodec) (encode : Event → String) where
  -- The event as it is read back from its line.
  unfoldable pub reread : Event → Event
  unfolding decode_as base_of
  reread e = decode_as codec (base_of e).type (encode e) (base_of e)

  -- The event is marshalled to a line that the scanner takes whole, and its base is read back.
  abbrev pub IsStorable : Event → Type 0
  IsStorable e =
      (codec.marshal e ≡ value (encode e))
      × IsLine (encode e)
      × (ltb (len (encode e)) max_line ≡ true)
      × (drop_cr (encode e) ≡ encode e)
      × ((encode e == "") ≡ false)
      × (codec.unmarshal_base (encode e) ≡ value (base_of e))

  unfoldable pub text_of : List Event → String
  text_of [] = ""
  text_of (e ∷ es) = encode e <+> "\n" <+> text_of es

  pub text_of-append :
      (es : List Event) (e : Event) → text_of (es ++ e ∷ []) ≡ text_of es <+> encode e <+> "\n"
  unfolding text_of
  text_of-append [] e =
      ap (λ (t : String). encode e <+> t) (Text.append-nil "\n")
      ∙ sym (Text.nil-append (encode e <+> "\n"))
  text_of-append (d ∷ es) e =
      ap (λ (t : String). encode d <+> "\n" <+> t) (text_of-append es e)
      ∙ ap (λ (t : String). encode d <+> t)
          (sym (Text.append_assoc "\n" (text_of es) (encode e <+> "\n")))
      ∙ sym (Text.append_assoc (encode d) ("\n" <+> text_of es) (encode e <+> "\n"))

  decode-encode : (e : Event) → IsStorable e → decode codec (encode e) ≡ entry (reread e)
  unfolding decode reread
  decode-encode e (_, _, _, _, _, based) = rw (based, decode) refl

  read_line-encode : (e : Event) → IsStorable e → read_line codec (encode e) ≡ entry (reread e)
  unfolding read_line
  read_line-encode e storable =
      let (_, _, short, bare, written, _) = storable in
      rw (short, bare, written, read_line) (decode-encode e storable)

  module _ {S : Type 0} (visit : Event → S → Option Error × S) where
    pub scan_lines-text_of :
        (es : List Event) (s : S)
        → All IsStorable es
        → scan_lines codec visit (split_lines (text_of es)) s ≡ visit_all visit (map reread es) s
    unfolding text_of scan_lines split_lines visit_all
    scan_lines-text_of [] s _ = refl
    scan_lines-text_of (e ∷ es) s (storable, rest) =
        rw
          (
            split_lines-line (encode e) (text_of es) storable.1,
            read_line-encode e storable,
            scan_lines,
          )
          (elim (Option-cases (visit (reread e) s).0) [
            | inl goes ↦ rw (goes, visit_all) (scan_lines-text_of es (visit (reread e) s).1 rest)
            | inr (x, stops) ↦ rw (stops, visit_all) refl
          ])

pub collecting :
    (after : String) (es found : List Event)
    → visit_all (collect_since after) es (true, found) ≡ (none, (true, found ++ es))
unfolding visit_all collect_since
collecting after [] found = ap (λ (l : List Event). (none, (true, l))) (sym (append-nil found))
collecting after (e ∷ es) found =
    collecting after es (found ++ e ∷ [])
    ∙ ap (λ (l : List Event). (none, (true, l))) (append_assoc found (e ∷ []) es)

pub waiting :
    (after : String) (es : List Event)
    → ((visit_all (collect_since after) es (false, [])).0 ≡ none)
      × ((visit_all (collect_since after) es (false, [])).1.1 ≡ behind after es)
unfolding visit_all collect_since behind
waiting after [] = (refl, refl)
waiting after (e ∷ es) = elim (Bool-cases (event_id e == after)) [
  | inl same ↦ rw (same, collecting after es []) (refl, refl)
  | inr other ↦ rw (other) (waiting after es)
]

pub since :
    (after : String) (es : List Event)
    → ((visit_all (collect_since after) es (after == "", [])).0 ≡ none)
      × ((visit_all (collect_since after) es (after == "", [])).1.1 ≡ events_after after es)
unfolding events_after
since after es = elim (Bool-cases (after == "")) [
  | inl all ↦ rw (all, collecting after es []) (refl, refl)
  | inr given ↦ rw (given) (waiting after es)
]

-- The first event with the identifier.
unfoldable pub first_with : String → List Event → Option Event
unfolding event_id
first_with id [] = none
first_with id (e ∷ es) = let rest = first_with id es in if event_id e == id then some e else rest

look_for-same :
    (id : String) (e : Event) (found : Option Event)
    → (event_id e == id) ≡ true
    → look_for id e found ≡ (some canceled, some e)
unfolding look_for
look_for-same id e found same = rw (same, look_for) refl

look_for-other :
    (id : String) (e : Event) (found : Option Event)
    → (event_id e == id) ≡ false
    → look_for id e found ≡ (none, found)
unfolding look_for
look_for-other id e found other = rw (other, look_for) refl

pub found-first :
    (id : String) (es : List Event)
    → found_event (visit_all (look_for id) es none)
      ≡ elim (first_with id es) [ none ↦ failed not_found | some e ↦ value (some e) ]
unfolding visit_all found_event first_with look_for
found-first id [] = refl
found-first id (e ∷ es) = elim (Bool-cases (event_id e == id)) [
  | inl same ↦ rw (visit_all, found_event, look_for-same id e none same, same) refl
  | inr other ↦ rw (visit_all, look_for-other id e none other, other) (found-first id es)
]
