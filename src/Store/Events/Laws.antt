-- ===== src/Store/Events/Laws.antt =====
-- The event log of pkg/store/fs_store.go as the list of the events appended to it.
use text.Mathlib.TextLemmas as Text
use gm_agent.Prelude.{
  String, true, Option, none, some, List, [], map, ◌≡◌, refl, ap, ◌∙◌, ◌⊎◌, inl, inr, ◌<+>◌, All,
}
use gm_agent.Prelude.Result.{Error, value, failed, not_found}
use gm_agent.Types.Event.{Event}
use gm_agent.Store.Events.{EventCodec, LogOs, scan_events, look_for, found_event, get_event}
use gm_agent.Store.Events.Scan.{
  visit_all, reread, IsStorable, text_of, scan_lines-text_of, first_with, found-first,
}

module _ (codec : EventCodec) (encode : Event → String) {W : Type 0} (os : LogOs W) where
  -- The file of the world holds the log; where there is none, the log is empty.
  abbrev pub Holds : List Event → W → Type 0
  Holds es w =
      (os.read_all w ≡ value (text_of codec encode es))
      ⊎ ((es ≡ []) × ((x : Error) × (os.read_all w ≡ failed x) × (os.is_not_exist x ≡ true)))

  scan_events-Holds :
      {S : Type 0} (visit : Event → S → Option Error × S) (es : List Event) (s : S) (w : W)
      → All (IsStorable codec encode) es
      → Holds es w
      → scan_events codec os visit s w ≡ visit_all visit (map (reread codec encode) es) s
  unfolding scan_events visit_all
  scan_events-Holds visit es s w storable (inl held) =
      rw (held, scan_events) (scan_lines-text_of codec encode visit es s storable)
  scan_events-Holds visit es s w storable (inr (empty, (x, missing, absent))) =
      rw (empty, missing, absent, scan_events) refl

  -- GetEvent answers with the first event of the log that has the identifier, as it is read back,
  -- and that there is none is the error of a missing record. Every event of the log is storable.
  pub get_event-Holds :
      (id : String) (es : List Event) (w : W)
      → All (IsStorable codec encode) es
      → Holds es w
      → get_event codec os id w ≡ elim (first_with id (map (reread codec encode) es)) [
        | none ↦ failed not_found
        | some e ↦ value (some e)
      ]
  unfolding get_event
  get_event-Holds id es w storable held =
      ap found_event (scan_events-Holds (look_for id) es none w storable held)
      ∙ found-first id (map (reread codec encode) es)

  -- A write appends to the log file, opening it for appending creates it, and a flush keeps it.
  abbrev pub Appends : Type 0
  Appends =
      (text held : String) (w : W)
      → (os.write text w).0 ≡ none
      → os.read_all w ≡ value held
      → os.read_all (os.write text w).1 ≡ value (held <+> text)

  abbrev pub Opens : Type 0
  Opens =
      (w : W)
      → (os.open_append w).0 ≡ none
      → ((held : String)
          → os.read_all w ≡ value held
          → os.read_all (os.open_append w).1 ≡ value held)
        × ((x : Error)
            → os.read_all w ≡ failed x
            → os.is_not_exist x ≡ true
            → os.read_all (os.open_append w).1 ≡ value "")

  abbrev pub Keeps : Type 0
  Keeps = (w : W) → os.read_all (os.sync w).1 ≡ os.read_all w
