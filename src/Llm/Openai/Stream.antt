-- ===== src/Llm/Openai/Stream.antt =====
-- The stream of OpenAI: its texts in order, and its tool calls put together from their pieces.
use gm_agent.Prelude.{
  ℕ, String, Bool, true, false, ◌≡◌, refl, ap, ◌∙◌, Option, none, some, Option-cases, inl, inr,
  List, [], ◌∷◌, ◌++◌, map, not, ◌==◌, ◌||◌, eqb, ◌<+>◌, if◌then◌else◌, arith, Bool-cases,
  append-nil, eq_iff,
}
use text.Mathlib.TextLemmas
use mathlib.Core.List.{Perm}
use mathlib.Core.List.Perm
use gm_agent.Types.Tool.{ToolCall}
use gm_agent.Runtime.Services.{StreamChunk}
use gm_agent.Prelude.Result.{value}
use gm_agent.Llm.{ProviderRequest}
use gm_agent.Llm.Openai.{
  OpenaiProvider, completion_request, call_stream, Fragment, Choice, Builder, extend, first_piece,
  put_piece, add_fragment, gather, text_chunk, calls_chunk, receive,
}

-- The tool call that the builder holds at an index.
unfoldable pub built : ℕ → Builder → Option ToolCall
built i [] = none
built i ((j, c) ∷ rest) = if eqb j i then some c else built i rest

-- The pieces of one call, in the order of their arrival.
unfoldable pub pieces : ℕ → List Fragment → List Fragment
pieces i [] = []
pieces i (f ∷ fs) = elim f.index [
  | none ↦ pieces i fs
  | some j ↦ if eqb j i then f ∷ pieces i fs else pieces i fs
]

-- The last text that is not empty, or the one given.
unfoldable pub last_text : String → List String → String
last_text found [] = found
last_text found (t ∷ ts) = last_text (if t == "" then found else t) ts

unfoldable pub joined : List String → String
joined [] = ""
joined (t ∷ ts) = t <+> joined ts

-- What a call should be: the last identifier and name that its pieces give, and all arguments.
unfoldable pub assembled : List Fragment → Option ToolCall
unfolding last_text joined
assembled [] = none
assembled (f ∷ fs) = some (record {
  id = last_text "" (map (λ (g : Fragment). g.id) (f ∷ fs));
  name = last_text "" (map (λ (g : Fragment). g.name) (f ∷ fs));
  arguments = joined (map (λ (g : Fragment). g.arguments) (f ∷ fs));
})

extend_all : List Fragment → ToolCall → ToolCall
unfolding extend
extend_all [] c = c
extend_all (f ∷ fs) c = extend_all fs (extend f c)

resume : List Fragment → Option ToolCall → Option ToolCall
unfolding extend_all first_piece
resume fs (some c) = some (extend_all fs c)
resume [] none = none
resume (f ∷ fs) none = some (extend_all (f ∷ fs) (first_piece f))

built-put_piece :
    (i j : ℕ) (f : Fragment) (b : Builder)
    → built i (put_piece j f b) ≡ (if eqb j i then resume (f ∷ []) (built i b) else built i b)
unfolding built put_piece resume
built-put_piece i j f [] = ground arith
built-put_piece i j f ((k, c) ∷ rest) = ground (arith, built-put_piece i j f rest)

resume-resume :
    (f : Fragment) (fs : List Fragment) (o : Option ToolCall)
    → resume fs (resume (f ∷ []) o) ≡ resume (f ∷ fs) o
unfolding resume
resume-resume f fs (some c) = refl
resume-resume f fs none = refl

resume_none : (o : Option ToolCall) → o ≡ resume [] o
unfolding resume
resume_none (some c) = refl
resume_none none = refl

built-gather :
    (i : ℕ) (fs : List Fragment) (b : Builder)
    → built i (gather fs b) ≡ resume (pieces i fs) (built i b)
unfolding gather add_fragment pieces
built-gather i [] b = resume_none (built i b)
built-gather i (f ∷ fs) b = elim (Option-cases f.index) [
  | inl e ↦ rw e (built-gather i fs b)
  | inr (j, e) ↦ rw e (
      built-gather i fs (put_piece j f b)
      ∙ ground (arith, built-put_piece i j f b, resume-resume f (pieces i fs) (built i b)))
]

pick_lem :
    (new old : String) → (if not (new == "") then new else old) ≡ (if new == "" then old else new)
pick_lem new old = ground arith

given : (new : String) → (if new == "" then new else new) ≡ (if new == "" then "" else new)
given new = ground (arith, eq_iff new "")

extend_all_lem :
    (fs : List Fragment) (c : ToolCall)
    → extend_all fs c ≡ record {
      id = last_text c.id (map (λ (g : Fragment). g.id) fs);
      name = last_text c.name (map (λ (g : Fragment). g.name) fs);
      arguments = c.arguments <+> joined (map (λ (g : Fragment). g.arguments) fs);
    }
unfolding extend_all last_text joined extend
extend_all_lem [] c = rw (TextLemmas.append-nil c.arguments) refl
extend_all_lem (f ∷ fs) c =
    extend_all_lem fs (extend f c)
    ∙ rw (pick_lem f.id c.id, pick_lem f.name c.name, TextLemmas.append_assoc) refl

resume-assembled : (fs : List Fragment) → resume fs none ≡ assembled fs
unfolding resume assembled last_text joined first_piece
resume-assembled [] = refl
resume-assembled (f ∷ fs) = ap some (
    extend_all_lem (f ∷ fs) (first_piece f) ∙ λ i. record {
      id = last_text (given f.id i) (map (λ (g : Fragment). g.id) fs);
      name = last_text (given f.name i) (map (λ (g : Fragment). g.name) fs);
      arguments =
          TextLemmas.nil-append (f.arguments <+> joined (map (λ (g : Fragment). g.arguments) fs)) i;
    })

pub built-gather_empty :
    (i : ℕ) (fs : List Fragment) → built i (gather fs []) ≡ assembled (pieces i fs)
unfolding built
built-gather_empty i fs = built-gather i fs [] ∙ resume-assembled (pieces i fs)

-- The choices that are read: the first of each answer, as far as one that gives a reason to finish.
unfoldable pub heard : List (List Choice) → List Choice
heard [] = []
heard ([] ∷ rest) = heard rest
heard ((choice ∷ _) ∷ rest) = choice ∷ (if choice.finish_reason == "" then heard rest else [])

unfoldable pub finishes : List Choice → Bool
finishes [] = false
finishes (c ∷ cs) = not (c.finish_reason == "") || finishes cs

unfoldable pub all_fragments : List Choice → List Fragment
all_fragments [] = []
all_fragments (c ∷ cs) = c.fragments ++ all_fragments cs

-- What a reader of the channel puts together.
unfoldable pub offered : List StreamChunk → List ToolCall
offered [] = []
offered (c ∷ cs) = c.tool_calls ++ offered cs

abbrev pub text_of : List StreamChunk → String
text_of cs = joined (map (λ (c : StreamChunk). c.content) cs)

text-text_chunk :
    (content : String) (rest : List StreamChunk)
    → text_of (text_chunk content ++ rest) ≡ content <+> text_of rest
unfolding text_chunk joined
text-text_chunk content rest = elim (Bool-cases (content == "")) [
  | inl e ↦ rw (e, (eq_iff content "").0 e, TextLemmas.nil-append) refl
  | inr e ↦ rw e refl
]

text-calls_chunk :
    (arrange : List ToolCall → List ToolCall) (b : Builder) → text_of (calls_chunk arrange b) ≡ ""
unfolding calls_chunk joined
text-calls_chunk arrange [] = refl
text-calls_chunk arrange (entry ∷ rest) = refl

offered-text_chunk :
    (content : String) (rest : List StreamChunk)
    → offered (text_chunk content ++ rest) ≡ offered rest
unfolding text_chunk offered
offered-text_chunk content rest = ground arith

gather-append :
    (fs gs : List Fragment) (b : Builder) → gather (fs ++ gs) b ≡ gather gs (gather fs b)
unfolding gather
gather-append [] gs b = refl
gather-append (f ∷ fs) gs b = gather-append fs gs (add_fragment f b)

module _ (arrange : List ToolCall → List ToolCall) where
  receive_text :
      (rs : List (List Choice)) (b : Builder)
      → text_of (receive arrange rs b) ≡ joined (map (λ (c : Choice). c.content) (heard rs))
  unfolding receive heard joined
  receive_text [] b = refl
  receive_text ([] ∷ rs) b = receive_text rs b
  receive_text ((choice ∷ _) ∷ rs) b =
      text-text_chunk choice.content _
      ∙ ap (λ (t : String). choice.content <+> t)
          (elim (Bool-cases (choice.finish_reason == "")) [
            | inl e ↦ rw e (receive_text rs (gather choice.fragments b))
            | inr e ↦ rw e (text-calls_chunk arrange (gather choice.fragments b))
          ])

  module _ (arranged : (cs : List ToolCall) → Perm (arrange cs) cs) where
    offered-calls_chunk : (b : Builder) → Perm (offered (calls_chunk arrange b)) (map (λ e. e.1) b)
    unfolding calls_chunk offered
    offered-calls_chunk [] = Perm.refl []
    offered-calls_chunk (entry ∷ rest) = rw append-nil (arranged (map (λ e. e.1) (entry ∷ rest)))

    receive_calls :
        (rs : List (List Choice)) (b : Builder)
        → Perm (offered (receive arrange rs b)) (
            if finishes (heard rs)
            then map (λ e. e.1) (gather (all_fragments (heard rs)) b)
            else [])
    unfolding receive heard finishes all_fragments offered
    receive_calls [] b = Perm.refl []
    receive_calls ([] ∷ rs) b = receive_calls rs b
    receive_calls ((choice ∷ _) ∷ rs) b =
        rw (offered-text_chunk choice.content _) (elim (Bool-cases (choice.finish_reason == "")) [
          | inl e ↦
              rw (e, gather-append choice.fragments (all_fragments (heard rs)) b)
                (receive_calls rs (gather choice.fragments b))
          | inr e ↦ rw (e, append-nil) (offered-calls_chunk (gather choice.fragments b))
        ])

-- Each index stands once.
abbrev pub IsDistinct : Builder → Type 0
IsDistinct [] = Unit
IsDistinct ((i, c) ∷ rest) = (built i rest ≡ none) × IsDistinct rest

put_piece-IsDistinct :
    (i : ℕ) (f : Fragment) (b : Builder) → IsDistinct b → IsDistinct (put_piece i f b)
unfolding put_piece built resume
put_piece-IsDistinct i f [] h = (refl, tt)
put_piece-IsDistinct i f ((j, c) ∷ rest) h =
    ground (arith, put_piece-IsDistinct i f rest h.1, built-put_piece j i f rest)

gather-IsDistinct : (fs : List Fragment) (b : Builder) → IsDistinct b → IsDistinct (gather fs b)
unfolding gather add_fragment
gather-IsDistinct [] b h = h
gather-IsDistinct (f ∷ fs) b h = elim (Option-cases f.index) [
  | inl e ↦ rw e (gather-IsDistinct fs b h)
  | inr (j, e) ↦ rw e (gather-IsDistinct fs (put_piece j f b) (put_piece-IsDistinct j f b h))
]

-- What comes over the channel, for the answers that the service has sent.
pub record Delivers (rs : List (List Choice)) (chunks : List StreamChunk) : Type 0 where
  pub texts : text_of chunks ≡ joined (map (λ (c : Choice). c.content) (heard rs))
  pub calls : Builder
  pub distinct : IsDistinct calls
  pub call_at : (i : ℕ) → built i calls ≡ assembled (pieces i (all_fragments (heard rs)))
  pub sent : Perm (offered chunks) (if finishes (heard rs) then map (λ e. e.1) calls else [])

module _ {F W : Type 0} (narrow : F → F) (arrange : List ToolCall → List ToolCall)
    (arranged : (cs : List ToolCall) → Perm (arrange cs) cs) where
  -- Whatever order the map is visited in, the texts arrive as they were sent, and with the reason to
  -- finish every tool call, put together from its pieces.
  pub call_stream-Delivers :
      (p : OpenaiProvider F W) (req : ProviderRequest F) (w w' : W) (rs : List (List Choice))
      → p.client.create_stream (completion_request narrow true req) w ≡ (value rs, w')
      → (chunks : List StreamChunk) × (call_stream narrow arrange p req w ≡ (value chunks, w'))
        × Delivers rs chunks
  unfolding call_stream
  call_stream-Delivers p req w w' rs opened = (
    receive arrange rs [],
    ground arith,
    record {
      texts = receive_text arrange rs [];
      calls = gather (all_fragments (heard rs)) [];
      distinct = gather-IsDistinct (all_fragments (heard rs)) [] tt;
      call_at = λ i. built-gather_empty i (all_fragments (heard rs));
      sent = receive_calls arrange arranged rs [];
    },
  )
