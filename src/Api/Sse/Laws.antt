-- ===== src/Api/Sse/Laws.antt =====
-- What a client of the event stream gets: the events behind its cursor, in order, each once.
use mathlib.Core.Path.{subst}
use mathlib.Core.List.{map-append}
use gm_agent.Prelude.{
  String, true, false, none, List, [], ◌∷◌, ◌++◌, append-nil, append_assoc, map, ◌≡◌, refl, sym, ap,
  ◌∙◌, inl, inr, ◌==◌, All, Bool-cases, List-cases, eq_iff, eq_refl, arith,
}
use gm_agent.Prelude.Result.{Reply, value}
use gm_agent.Types.Event.{Event, base_of, event_id}
use gm_agent.Session.Service.{Resources}
use gm_agent.Store.Events.Scan.{behind, events_after}
use gm_agent.Api.Sse.{tick, event_frame, deliver, poll, follow}

-- No event of the list has the identifier.
abbrev pub Absent : String → List Event → Type 0
Absent id es = All (λ (e : Event). (event_id e == id) ≡ false) es

-- The identifiers are there and differ.
abbrev pub IsNumbered : List Event → Type 0
IsNumbered [] = Unit
IsNumbered (e ∷ es) = ((event_id e == "") ≡ false) × Absent (event_id e) es × IsNumbered es

-- The cursor after a list of events.
last_id : String → List Event → String
last_id last [] = last
last_id last (e ∷ es) = last_id (event_id e) es

last_id-Absent :
    (id last : String) (es : List Event)
    → (last == id) ≡ false
    → Absent id es
    → (last_id last es == id) ≡ false
unfolding last_id
last_id-Absent id last [] h a = h
last_id-Absent id last (e ∷ es) h a = last_id-Absent id (event_id e) es a.0 a.1

last_id-other :
    (id : String) (before : List Event) (e : Event) (es : List Event)
    → Absent id (before ++ e ∷ es)
    → (id == last_id (event_id e) es) ≡ false
last_id-other id [] e es a =
    let apart = last_id-Absent id (event_id e) es a.0 a.1 in
    ground (arith, eq_iff id (last_id (event_id e) es), eq_iff (last_id (event_id e) es) id)
last_id-other id (b ∷ before) e es a = last_id-other id before e es a.1

-- Behind the last event of a log stands what comes later.
behind-last :
    (before : List Event) (e : Event) (es later : List Event)
    → IsNumbered (before ++ e ∷ es)
    → behind (last_id (event_id e) es) ((before ++ e ∷ es) ++ later) ≡ later
unfolding behind last_id
behind-last [] e [] later n = rw (eq_refl (event_id e)) refl
behind-last [] e (x ∷ es) later n =
    rw (last_id-other (event_id e) [] x es n.1) (behind-last [] x es later n.2)
behind-last (b ∷ before) e es later n =
    rw (last_id-other (event_id b) before e es n.1) (behind-last before e es later n.2)

behind-suffix :
    (after : String) (log : List Event) → (before : List Event) × (log ≡ before ++ behind after log)
unfolding behind
behind-suffix after [] = ([], refl)
behind-suffix after (e ∷ es) = elim (Bool-cases (event_id e == after)) [
  | inl h ↦ rw h (e ∷ [], refl)
  | inr h ↦
      let (before, split) = behind-suffix after es in
      rw h (e ∷ before, ap (λ (l : List Event). e ∷ l) split)
]

behind-append :
    (after : String) (log later : List Event) (x : Event) (xs : List Event)
    → behind after log ≡ x ∷ xs
    → behind after (log ++ later) ≡ (x ∷ xs) ++ later
unfolding behind
behind-append after [] later x xs h = cc
behind-append after (e ∷ es) later x xs h = ground (arith, behind-append after es later x xs)

IsNumbered-filled : (log : List Event) → IsNumbered log → Absent "" log
IsNumbered-filled [] n = tt
IsNumbered-filled (e ∷ es) (filled, _, n) = (filled, IsNumbered-filled es n)

All-suffix : (id : String) (before es : List Event) → Absent id (before ++ es) → Absent id es
All-suffix id [] es a = a
All-suffix id (b ∷ before) es a = All-suffix id before es a.1

-- The cursor at the end of a log sees what comes later.
at_end :
    (last : String) (before : List Event) (x : Event) (xs later : List Event)
    → IsNumbered (before ++ x ∷ xs)
    → events_after (last_id last (x ∷ xs)) ((before ++ x ∷ xs) ++ later) ≡ later
unfolding events_after last_id
at_end last before x xs later n =
    let filled = All-suffix "" before (x ∷ xs) (IsNumbered-filled (before ++ x ∷ xs) n) in
    rw (last_id-Absent "" (event_id x) xs filled.0 filled.1) (behind-last before x xs later n)

-- Where the cursor stands in the log, what comes later is seen as well.
behind_found :
    (last : String) (log later : List Event) (x : Event) (xs : List Event)
    → IsNumbered log
    → behind last log ≡ x ∷ xs
    → (x ∷ xs) ++ events_after (last_id last (x ∷ xs)) (log ++ later) ≡ behind last (log ++ later)
behind_found last log later x xs n h =
    let (before, split) = behind-suffix last log in
    let whole = split ∙ ap (λ (l : List Event). before ++ l) h in
    ap (λ (l : List Event). (x ∷ xs) ++ l)
      (subst (λ (l : List Event). events_after (last_id last (x ∷ xs)) (l ++ later) ≡ later)
        (sym whole)
        (at_end last before x xs later (subst (λ (l : List Event). IsNumbered l) whole n)))
    ∙ sym (behind-append last log later x xs h)

all_seen :
    (last : String) (log later : List Event)
    → (last == "") ≡ true
    → IsNumbered log
    → log ++ events_after (last_id last log) (log ++ later) ≡ log ++ later
unfolding events_after last_id
all_seen last [] later e n = rw e refl
all_seen last (x ∷ xs) later e n =
    ap (λ (l : List Event). (x ∷ xs) ++ l) (at_end last [] x xs later n)

events_after-nil : (after : String) → events_after after [] ≡ []
unfolding events_after behind
events_after-nil after = ground arith

-- One poll moves the cursor behind what it has read, whatever the log gains later.
events_after-continues :
    (last : String) (log later : List Event)
    → IsNumbered log
    → events_after last log ++ events_after (last_id last (events_after last log)) (log ++ later)
      ≡ events_after last (log ++ later)
unfolding events_after last_id
events_after-continues last log later n = elim (Bool-cases (last == "")) [
  | inl e ↦ rw e (all_seen last log later e n)
  | inr e ↦ elim (List-cases (behind last log)) [
    | inl h ↦ rw (e, h, e) refl
    | inr (x, xs, h) ↦ rw (e, h) (behind_found last log later x xs n h)
  ]
]

abbrev pub frame_of : (Event → String) → Event → String
frame_of encode e = event_frame (base_of e).type (encode e)

module _ (marshal : Event → Reply String) (encode : Event → String) where
  abbrev pub Marshals : List Event → Type 0
  Marshals es = All (λ (e : Event). marshal e ≡ value (encode e)) es

  Marshals-behind : (after : String) (es : List Event) → Marshals es → Marshals (behind after es)
  unfolding behind
  Marshals-behind after [] h = tt
  Marshals-behind after (e ∷ es) h = ground (arith, Marshals-behind after es h.1)

  Marshals-events_after :
      (after : String) (es : List Event) → Marshals es → Marshals (events_after after es)
  unfolding events_after
  Marshals-events_after after es h = ground (arith, Marshals-behind after es h)

  deliver-all :
      (es : List Event) (last : String)
      → Marshals es
      → deliver marshal es last ≡ (map (frame_of encode) es, last_id last es)
  unfolding deliver last_id
  deliver-all [] last h = refl
  deliver-all (e ∷ es) last h = rw (h.0, deliver, deliver-all es (event_id e) h.1) refl

  module _ {W : Type 0} (r : Resources W) (log : W → List Event) where
    -- What a poll relies on: the store shows its log, whose events differ and can be marshalled.
    pub record Shows (w : W) : Type 0 where
      pub since : (after : String) → r.get_events_since after w ≡ (events_after after (log w), none)
      pub numbered : IsNumbered (log w)
      pub marshals : Marshals (log w)

    -- From poll to poll events are only added at the end.
    abbrev pub Grows : List Event → List W → Type 0
    Grows old [] = Unit
    Grows old (w ∷ ws) = ((new : List Event) × (log w ≡ old ++ new)) × Grows (log w) ws

    -- The log at the last poll.
    unfoldable pub final : List Event → List W → List Event
    final old [] = old
    final old (w ∷ ws) = final (log w) ws

    poll_of :
        (last : String) (w : W) (events : List Event)
        → r.get_events_since last w ≡ (events, none)
        → poll marshal r last w ≡ deliver marshal events last
    unfolding poll
    poll_of last w events e = ground arith

    poll-Shows :
        (last : String) (w : W)
        → Shows w
        → poll marshal r last w ≡ (
          map (frame_of encode) (events_after last (log w)),
          last_id last (events_after last (log w)),
        )
    poll-Shows last w s =
        poll_of last w (events_after last (log w)) (s.since last)
        ∙ (deliver-all (events_after last (log w)) last
            (Marshals-events_after last (log w) s.marshals))

    advance :
        (first last : String) (delivered old new : List Event) (w : W)
        → ((later : List Event)
            → delivered ++ events_after last (old ++ later) ≡ events_after first (old ++ later))
        → log w ≡ old ++ new
        → Shows w
        → (later : List Event)
        → (delivered ++ events_after last (log w))
            ++ events_after (last_id last (events_after last (log w))) (log w ++ later)
          ≡ events_after first (log w ++ later)
    advance first last delivered old new w inv grown s later =
        let same = sym (ap (λ (l : List Event). l ++ later) grown ∙ append_assoc old new later) in
        append_assoc delivered (events_after last (log w)) _
        ∙ ap (λ (l : List Event). delivered ++ l)
            (events_after-continues last (log w) later s.numbered)
        ∙ subst (λ (l : List Event). delivered ++ events_after last l ≡ events_after first l) same
            (inv (new ++ later))

    -- `delivered` and what stands behind the cursor `last` make what stands behind the first one.
    follow-delivered :
        (first last : String) (delivered old : List Event) (ws : List W)
        → ((later : List Event)
            → delivered ++ events_after last (old ++ later) ≡ events_after first (old ++ later))
        → delivered ≡ events_after first old
        → Grows old ws
        → All Shows ws
        → map (frame_of encode) delivered ++ follow marshal r (map tick ws) last
          ≡ map (frame_of encode) (events_after first (final old ws))
    unfolding follow final
    follow-delivered first last delivered old [] inv so_far g s =
        append-nil _ ∙ ap (λ (l : List Event). map (frame_of encode) l) so_far
    follow-delivered first last delivered old (w ∷ ws) inv so_far ((new, grown), g) (s, rest) =
        let news = events_after last (log w) in
        let last' = last_id last news in
        let ih =
          follow-delivered first last' (delivered ++ news) (log w) ws
            (advance first last delivered old new w inv grown s)
            (subst (λ (l : List Event). delivered ++ events_after last l ≡ events_after first l)
              (sym grown) (inv new))
            g rest in
        rw (poll-Shows last w s) (
          sym (
            append_assoc (map (frame_of encode) delivered) (map (frame_of encode) news)
              (follow marshal r (map tick ws) last'))
          ∙ ap (λ (l : List String). l ++ follow marshal r (map tick ws) last')
              (sym (map-append (frame_of encode) delivered news))
          ∙ ih)

    -- Over a log that grows, the stream is the events behind the cursor, in order and each once.
    pub follow-Complete :
        (after : String) (ws : List W)
        → Grows [] ws
        → All Shows ws
        → follow marshal r (map tick ws) after
          ≡ map (frame_of encode) (events_after after (final [] ws))
    follow-Complete after ws g s =
        follow-delivered after after [] [] ws (λ later. refl) (sym (events_after-nil after)) g s
