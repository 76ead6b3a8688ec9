-- ===== src/Cli/Client.antt =====
-- packages/cli/internal/client/client.go: requests to the server, and the reader of its event stream.
-- `net/http`, `net/url` and `encoding/json` are records of functions.
pub mod Laws
use Prim.Native.Char.{Char, code}
use Prim.Native.String.{len, slice}
use text.Mathlib.Text.{starts_with}
use gm_agent.Prelude.{
  ℕ, String, Bool, true, false, not, ◌||◌, ◌&&◌, Option, none, some, List, [], ◌∷◌, ◌==◌, eqb, ltb,
  ◌<+>◌, if◌then◌else◌,
}
use gm_agent.Prelude.Text.{split_lines}
use gm_agent.Prelude.Trim.{trim_space, trim_prefix, value_of}
use gm_agent.Prelude.Integers.{ℤ, pos, negsuc}
use gm_agent.Prelude.Result.{Error, Reply, value, failed, message, wrap}

pub record Client : Type 0 where
  pub base_url : String
  pub api_key : String
  pub timeout : ℕ

pub record HttpRequest : Type 0 where
  pub method : String
  pub url : String
  -- `X-API-Key`, where it is set
  pub api_key : Option String
  pub content_type : Option String
  pub body : Option String

-- What the client calls: the transport answers with a status and a body, or with an error; a body that
-- cannot be read has the status.
pub record Web (W : Type 0) : Type 0 where
  pub check_request : HttpRequest → Option Error
  pub send : HttpRequest → W → Reply (ℕ × Reply String) × W
  -- `url.Parse`: the host
  pub parse_host : String → Reply String
  -- `%d`
  pub decimal : ℕ → String

-- `strings.TrimRight(s, "/")`
unfoldable pub trim_right_slash : String → String
trim_right_slash String.[] = ""
trim_right_slash (String.◌∷◌ c text) =
    let rest = trim_right_slash text in
    if eqb (code c) 47 && rest == "" then "" else String.◌∷◌ c rest

-- `strings.TrimLeft(s, "/")`
unfoldable pub trim_left_slash : String → String
trim_left_slash String.[] = ""
trim_left_slash (String.◌∷◌ c text) =
    let rest = trim_left_slash text in if eqb (code c) 47 then rest else String.◌∷◌ c text

unfoldable pub with_scheme : String → String
unfolding trim_right_slash
with_scheme raw =
    if starts_with raw "http://" || starts_with raw "https://"
    then trim_right_slash raw
    else if starts_with raw ":"
    then "http://localhost" <+> raw
    else "http://" <+> raw

module _ {W : Type 0} (web : Web W) where
  unfoldable pub normalize_base_url : (String → String) → String → Reply String
  unfolding trim_space with_scheme trim_right_slash
  normalize_base_url quote raw =
      if trim_space raw == ""
      then failed (message "server URL is empty")
      else (let full = with_scheme (trim_space raw) in
          elim (web.parse_host full) [
            | failed x ↦ failed x
            | value host ↦
                if host == ""
                then failed (message ("invalid server URL: " <+> quote full))
                else value (trim_right_slash full)
          ])

  -- A timeout that is not positive is ten seconds.
  unfoldable pub new_client : (String → String) → String → String → ℤ → Reply Client
  unfolding normalize_base_url
  new_client quote base_url api_key timeout = elim (normalize_base_url quote base_url) [
    | failed x ↦ failed x
    | value url ↦ value (record {
      base_url = url;
      api_key = api_key;
      timeout = elim timeout [
        | pos t ↦ if eqb t 0 then 10000000000 else t
        | negsuc t ↦ 10000000000
      ];
    })
  ]

unfoldable pub target_of : Client → String → String
unfolding trim_right_slash trim_left_slash
target_of c path =
    let target = trim_right_slash c.base_url in
    if not (path == "") then target <+> "/" <+> trim_left_slash path else target

unfoldable pub new_request : Client → String → String → Option String → HttpRequest
unfolding target_of
new_request c method path body = record {
  method = method;
  url = target_of c path;
  api_key = if not (c.api_key == "") then some c.api_key else none;
  content_type = none;
  body = body;
}

module _ {W : Type 0} (web : Web W) where
  -- What comes back: the status (0 where no answer came) and the body or the error.
  unfoldable pub run_request : HttpRequest → W → (ℕ × Reply String) × W
  run_request req w = elim (web.check_request req) [
    | some x ↦ ((0, failed x), w)
    | none ↦
        (let (answer, w') = web.send req w in
          elim answer [ failed x ↦ ((0, failed x), w') | value got ↦ (got, w') ])
  ]

  unfoldable pub http_get : Client → String → W → (ℕ × Reply String) × W
  unfolding new_request run_request
  http_get c path w = run_request (new_request c "GET" path none) w

  -- `body` is what `json.Marshal` returned for the body.
  unfoldable pub http_post : Client → String → Reply String → W → (ℕ × Reply String) × W
  unfolding new_request run_request
  http_post c path (failed x) w = ((0, failed (wrap "marshal body" x)), w)
  http_post c path (value body) w =
      run_request
        (record (new_request c "POST" path (some body)) { content_type = some "application/json" })
        w

  -- The body of an answer with the status 200, or the error with the label.
  unfoldable pub expect_ok : String → (ℕ × Reply String) → Reply String
  expect_ok label (status, failed x) = failed x
  expect_ok label (status, value body) =
      if not (eqb status 200)
      then failed
          (message (label <+> " failed: status=" <+> web.decimal status <+> " body=" <+> body))
      else value body

  unfoldable pub send_message : Client → String → Reply String → W → Option Error × W
  unfolding http_post expect_ok
  send_message c id body w =
      let (got, w') = http_post c ("/api/v1/session/" <+> id <+> "/message") body w in
      (elim (expect_ok "send message" got) [ failed x ↦ some x | value _ ↦ none ], w')

  unfoldable pub submit_permission : Client → String → Reply String → W → Option Error × W
  unfolding http_post expect_ok
  submit_permission c id body w =
      let (got, w') = http_post c ("/api/v1/session/" <+> id <+> "/permission") body w in
      (elim (expect_ok "permission response" got) [ failed x ↦ some x | value _ ↦ none ], w')

  unfoldable pub list_checkpoints :
      {A : Type 0} → (String → Reply A) → Client → String → W → Reply A × W
  unfolding http_get expect_ok
  list_checkpoints unmarshal c id w =
      let (got, w') = http_get c ("/api/v1/session/" <+> id <+> "/checkpoints") w in
      (
        elim (expect_ok "list checkpoints" got) [
          | failed x ↦ failed x
          | value text ↦ unmarshal text
        ],
        w',
      )

  unfoldable pub rewind :
      {A : Type 0} → (String → Reply A) → Client → String → Reply String → W → Reply A × W
  unfolding http_post expect_ok
  rewind unmarshal c id body w =
      let (got, w') = http_post c ("/api/v1/session/" <+> id <+> "/rewind") body w in
      (elim (expect_ok "rewind" got) [ failed x ↦ failed x | value text ↦ unmarshal text ], w')

  -- 200 and 201 are taken.
  unfoldable pub created_id : (String → Reply String) → (ℕ × Reply String) → Reply String
  created_id unmarshal_id (status, failed x) = failed x
  created_id unmarshal_id (status, value body) =
      if not (eqb status 201) && not (eqb status 200)
      then failed
          (message ("create session failed: status=" <+> web.decimal status <+> " body=" <+> body))
      else unmarshal_id body

  unfoldable pub create_session :
      (String → Reply String) → Client → Reply String → W → Reply String × W
  unfolding http_post created_id
  create_session unmarshal_id c body w =
      let (got, w') = http_post c "/api/v1/session" body w in (created_id unmarshal_id got, w')

pub record StreamEvent : Type 0 where
  pub type : String
  pub body : String

-- The lines that end with a line break; `ReadString` returns an error for the rest.
unfoldable pub complete_lines : List String → List String
complete_lines [] = []
complete_lines (l ∷ []) = []
complete_lines (l ∷ m ∷ ls) = l ∷ complete_lines (m ∷ ls)

-- The loop of `StreamEvents` over the lines.
unfoldable pub read_events : List String → List StreamEvent
unfolding trim_space
read_events [] = []
read_events (line ∷ []) = []
read_events (line ∷ next ∷ lines) =
    let rest = read_events lines in
    let skipped = read_events (next ∷ lines) in
    let event : StreamEvent = record {
      type = value_of "event:" line;
      body = value_of "data:" next;
    } in
    if starts_with (trim_space line) "event:"
    then if starts_with (trim_space next) "data:" then event ∷ rest else rest
    else skipped

-- `StreamEvents` of the text that the server has sent.
unfoldable pub stream_events : String → List StreamEvent
unfolding split_lines complete_lines read_events
stream_events text = read_events (complete_lines (split_lines text))
