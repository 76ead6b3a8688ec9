-- ===== src/Cli/Run.antt =====
-- packages/cli/internal/commands: run.go and health.go, the commands that end with one answer. The
-- configuration of viper is their arguments, and the JSON package a record of functions.
mod Laws
mod Tests
use gm_agent.Prelude.{
  ℕ, String, Bool, not, Option, none, some, List, [], ◌∷◌, ◌==◌, eqb, ◌<+>◌, if◌then◌else◌,
}
use gm_agent.Prelude.Integers.{ℤ}
use gm_agent.Prelude.Result.{Error, Reply, value, failed, message, wrap}
use gm_agent.Cli.Client
use gm_agent.Cli.Client.{
  Client, Web, StreamEvent, new_client, new_request, http_get, create_session, stream_events,
}

pub record Health : Type 0 where
  pub status : String
  pub version : String

-- `json.Marshal` and `json.Unmarshal` of the types the commands use.
pub record Codec : Type 0 where
  pub create_body : String → Reply String
  pub session_id : String → Reply String
  pub content : String → Reply String
  pub health : String → Reply Health

-- The goroutine of `executeOneShot`: what it prints.
unfoldable pub show_events : (String → Reply String) → List StreamEvent → String
show_events content [] = ""
show_events content (e ∷ es) =
    let rest = show_events content es in
    if e.type == "assistant_message"
    then elim (content e.body) [ failed x ↦ rest | value text ↦ text <+> rest ]
    else if e.type == "error"
    then "\nError: " <+> e.body <+> "\n" <+> rest
    else if e.type == "session_ended"
    then ""
    else rest

module _ {W : Type 0} (web : Web W) where
  -- The head of `StreamEvents`, and the events of the body up to where it ends.
  unfoldable pub open_events : Client → String → W → Reply (List StreamEvent) × W
  unfolding new_request
  open_events c id w =
      let req = new_request c "GET" ("/api/v1/session/" <+> id <+> "/event") none in
      elim (web.check_request req) [
        | some x ↦ (failed x, w)
        | none ↦
            (let (answer, w') = web.send req w in
              elim answer [
                | failed x ↦ (failed x, w')
                | value (status, body) ↦ (
                  if not (eqb status 200)
                      then failed (message ("stream events failed: status=" <+> web.decimal status))
                      else elim body [
                        | failed x ↦ value []
                        | value text ↦ value (stream_events text)
                      ],
                  w',
                )
              ])
      ]

  -- What the command prints, or its error.
  unfoldable pub watch_session : Codec → Client → String → W → Reply String × W
  unfolding open_events show_events
  watch_session codec c id w =
      let (opened, w') = open_events c id w in
      (
        elim opened [
          | failed x ↦ failed (wrap "stream events" x)
          | value es ↦ value (show_events codec.content es <+> "\n")
        ],
        w',
      )

  unfoldable pub execute_one_shot :
      (String → String) → Codec → String → String → ℤ → String → W → Reply String × W
  unfolding new_client create_session watch_session
  execute_one_shot quote codec server api_key timeout prompt w =
      elim (new_client web quote server api_key timeout) [
        | failed x ↦ (failed x, w)
        | value c ↦
            (let (created, w') =
                create_session web codec.session_id c (codec.create_body prompt) w in
              elim created [
                | failed x ↦ (failed (wrap "create session" x), w')
                | value id ↦ watch_session codec c id w'
              ])
      ]

  -- `RunE` of `NewHealthCmd`.
  unfoldable pub show_health : Codec → (ℕ × Reply String) → Reply String
  show_health codec (status, failed x) = failed x
  show_health codec (status, value body) =
      if not (eqb status 200)
      then failed (message ("server returned " <+> web.decimal status <+> ": " <+> body))
      else elim (codec.health body) [
        | failed x ↦ failed (wrap "parse response" x)
        | value h ↦ value ("status=" <+> h.status <+> " version=" <+> h.version <+> "\n")
      ]

  unfoldable pub check_health :
      (String → String) → Codec → String → String → ℤ → W → Reply String × W
  unfolding new_client http_get show_health
  check_health quote codec server api_key timeout w =
      elim (new_client web quote server api_key timeout) [
        | failed x ↦ (failed x, w)
        | value c ↦ (let (got, w') = http_get web c "/health" w in (show_health codec got, w'))
      ]
