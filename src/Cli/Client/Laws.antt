-- ===== src/Cli/Client/Laws.antt =====
-- The client's reader takes the event stream apart as the server has put it together.

use text.Mathlib.Text.{starts_with}
use text.Mathlib.TextLemmas
use gm_agent.Prelude.{String, true, List, [], ◌∷◌, map, ◌≡◌, refl, sym, ap, ◌∙◌, ◌<+>◌, All}
use mathlib.Core.Path.{subst}
use gm_agent.Prelude.Text.{split_lines-ne-nil, split_lines, IsLine, split_lines-line, IsLine-append}
use gm_agent.Prelude.Trim.{IsTrimmed, left_trim, right_trim, trim_space, value_of, value_of-label}
use gm_agent.Api.Sse.{event_frame}
use gm_agent.Cli.Client.{StreamEvent, complete_lines, read_events, stream_events}

-- A text that stands whole in a line of the stream.
abbrev pub IsValue : String → Type 0
IsValue text = IsLine text × IsTrimmed text

abbrev pub frame : StreamEvent → String
frame e = event_frame e.type e.body

unfoldable pub joined : List String → String
joined [] = ""
joined (t ∷ ts) = t <+> joined ts

event_line :
    (type : String)
    → IsTrimmed type
    → (starts_with (trim_space ("event: " <+> type)) "event:" ≡ true)
      × (value_of "event:" ("event: " <+> type) ≡ type)
unfolding left_trim right_trim
event_line type trimmed =
    subst
      (λ (line : String).
        (starts_with (trim_space line) "event:" ≡ true) × (value_of "event:" line ≡ type))
      (sym (TextLemmas.append_assoc "event:" " " type))
      (value_of-label "event:" type (rw (TextLemmas.cons-append "e" "vent:" (" " <+> type)) refl)
        refl trimmed)

data_line :
    (body : String)
    → IsTrimmed body
    → (starts_with (trim_space ("data: " <+> body)) "data:" ≡ true)
      × (value_of "data:" ("data: " <+> body) ≡ body)
unfolding left_trim right_trim
data_line body trimmed =
    subst
      (λ (line : String).
        (starts_with (trim_space line) "data:" ≡ true) × (value_of "data:" line ≡ body))
      (sym (TextLemmas.append_assoc "data:" " " body))
      (value_of-label "data:" body (rw (TextLemmas.cons-append "d" "ata:" (" " <+> body)) refl) refl
        trimmed)

regroup :
    (type body rest : String)
    → event_frame type body <+> rest
      ≡ ("event: " <+> type) <+> "\n" <+> (("data: " <+> body) <+> "\n" <+> ("" <+> "\n" <+> rest))
unfolding event_frame
regroup type body rest = simp (TextLemmas.append_assoc, TextLemmas.nil-append)

split_lines-frame :
    (type body rest : String)
    → IsLine type
    → IsLine body
    → split_lines (event_frame type body <+> rest)
      ≡ ("event: " <+> type) ∷ ("data: " <+> body) ∷ "" ∷ split_lines rest
unfolding event_frame
split_lines-frame type body rest whole_type whole_body =
    ap split_lines (regroup type body rest)
    ∙ split_lines-line ("event: " <+> type) _ (
        IsLine-append "event: " type (refl, (refl, (refl, (refl, (refl, (refl, (refl, tt)))))))
          whole_type)
    ∙ ap (λ (ls : List String). ("event: " <+> type) ∷ ls)
        (split_lines-line ("data: " <+> body) _ (
            IsLine-append "data: " body (refl, (refl, (refl, (refl, (refl, (refl, tt))))))
              whole_body)
          ∙ ap (λ (ls : List String). ("data: " <+> body) ∷ ls) (split_lines-line "" rest tt))

read_events-blank : (lines : List String) → read_events ("" ∷ lines) ≡ read_events lines
unfolding read_events trim_space left_trim right_trim
read_events-blank [] = refl
read_events-blank (l ∷ lines) = refl

read_events-pair :
    (type body : String) (lines : List String)
    → IsTrimmed type
    → IsTrimmed body
    → read_events (("event: " <+> type) ∷ ("data: " <+> body) ∷ lines)
      ≡ record { type = type; body = body } ∷ read_events lines
unfolding read_events
read_events-pair type body lines trimmed_type trimmed_body =
    let (is_event, event_is) = event_line type trimmed_type in
    let (is_data, data_is) = data_line body trimmed_body in
    rw (is_event, is_data, event_is, data_is) refl

complete_lines-skip :
    (line text : String)
    → complete_lines (line ∷ split_lines text) ≡ line ∷ complete_lines (split_lines text)
unfolding complete_lines
complete_lines-skip line text = let (first, rest, e) = split_lines-ne-nil text in rw e refl

-- One frame at the head of the stream is one event.
stream_events-frame :
    (e : StreamEvent) (rest : String)
    → IsValue e.type
    → IsValue e.body
    → stream_events (frame e <+> rest) ≡ e ∷ stream_events rest
unfolding stream_events complete_lines
stream_events-frame e rest (whole_type, trimmed_type) (whole_body, trimmed_body) =
    rw (split_lines-frame e.type e.body rest whole_type whole_body, complete_lines-skip "" rest)
      (read_events-pair e.type e.body ("" ∷ complete_lines (split_lines rest)) trimmed_type
          trimmed_body
        ∙ ap (λ (es : List StreamEvent). e ∷ es)
            (read_events-blank (complete_lines (split_lines rest))))

-- What is written as frames is read as the same events, in order.
pub stream_events-frames :
    (es : List StreamEvent)
    → All (λ (e : StreamEvent). IsValue e.type × IsValue e.body) es
    → stream_events (joined (map frame es)) ≡ es
unfolding joined stream_events split_lines complete_lines read_events
stream_events-frames [] h = refl
stream_events-frames (e ∷ es) ((t, b), h) =
    stream_events-frame e (joined (map frame es)) t b
    ∙ ap (λ (l : List StreamEvent). e ∷ l) (stream_events-frames es h)
