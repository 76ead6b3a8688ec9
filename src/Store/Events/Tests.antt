-- ===== src/Store/Events/Tests.antt =====
-- A log of two messages, over a world that is the text of the log file, if there is one.
use gm_agent.Prelude.{String, false, Option, none, some, [], ◌≡◌, refl, ◌<+>◌}
use gm_agent.Prelude.Result.{Reply, value, failed, not_found, is_missing}
use gm_agent.Types.Event.{Event, BaseEvent, UserMessageEvent, user_message, system_prompt, plain}
use gm_agent.Store.Events.{EventCodec, LogOs}
use gm_agent.Store.Events.Scan.{reread}

abbrev base_named : String → BaseEvent
base_named id = record {
  id = id;
  type = "user_message";
  timestamp = 7;
  actor = "user";
  subject = "";
}

abbrev message_named : String → UserMessageEvent
message_named id = record { base = base_named id; content = "hi"; priority = 0; semantic = "" }

abbrev encode : Event → String
encode (user_message m) = m.base.id
encode _ = "other"

-- A line is the identifier of a message.
abbrev codec : EventCodec
codec = record {
  marshal = λ e. value (encode e);
  unmarshal_base = λ line. value (base_named line);
  unmarshal_user_message = message_named;
  unmarshal_llm_response = λ line. record {
    base = base_named line;
    model = "";
    content = "";
    tool_calls = [];
    usage = record { prompt_tokens = 0; completion_tokens = 0; total_tokens = 0 };
  };
  unmarshal_tool_result = λ line. record {
    base = base_named line;
    tool_call_id = "";
    tool_name = "";
    success = false;
    output = "";
    error = "";
    duration = 0;
  };
  unmarshal_error =
      λ line. record { base = base_named line; command_id = ""; error = ""; severity = "" };
  unmarshal_checkpoint =
      λ line. record { base = base_named line; checkpoint_id = ""; state_version = 0 };
  unmarshal_permission_request = λ line. record {
    base = base_named line;
    request_id = "";
    tool_name = "";
    permission = "";
    patterns = [];
    metadata = [];
  };
  unmarshal_permission_response =
      λ line. record { base = base_named line; request_id = ""; approved = false; always = false };
}

abbrev contents : Option String → String
contents none = ""
contents (some text) = text

abbrev reading : Option String → Reply String
reading none = failed not_found
reading (some text) = value text

abbrev os : LogOs (Option String)
os = record {
  open_append = λ w. (none, some (contents w));
  write = λ text w. (none, some (contents w <+> text));
  sync = λ w. (none, w);
  read_all = reading;
  is_not_exist = is_missing;
}

abbrev first : Event
first = user_message (message_named "evt_1")

abbrev second : Event
second = user_message (message_named "evt_2")

-- A system prompt is read back without its text.
prompt_lost :
    reread codec encode (
      system_prompt (record {
        base = record (base_named "evt_3") { type = "system_prompt" };
        prompt = "be brief";
      }))
    ≡ plain (record (base_named "evt_3") { type = "system_prompt" })
unfolding reread
prompt_lost = refl
