-- ===== src/Tests/Clients.antt =====
-- The theorems of the clients and of the scheduler, where they are used.
use hass_ai.Prelude.{
  ℕ, ◌+◌, ◌*◌, ◌≤◌, false, none, some, [], ◌∷◌, ◌++◌, ◌≡◌, refl, arith, All, length,
}
use hass_ai.Prelude.{Option, String, elem, ◌⊎◌, true}
use hass_ai.Db.Models.{Json, object, text, boolean, field, done}
use hass_ai.Proposer.Validate.{allowed_entities}
use hass_ai.Llm.Client.{is_cloud, new_client}
use hass_ai.Llm.Request.{LlmResponse, request}
use hass_ai.Llm.Request.Origin.{IsFrom, chat_json-IsFrom}
use hass_ai.Llm.Prompt.{PromptFormats, prompt_entities}
use hass_ai.Llm.Prompt.Named.{prompt_entities_allowed}
use hass_ai.Tests.Samples.{lamp, lamp_group}
use hass_ai.Llm.Client.{Target, OllamaClient, chat_json}
use hass_ai.Llm.Client.Attempts.{Server, serve, chat_json-order}
use hass_ai.Ha.Client.{
  WebSocketClient, unreachable, lasted, auth_rejected, raised_auth_error, run, event, dispatch,
  resubscribe,
}
use hass_ai.Ha.Client.Outbound.{
  authenticate, reconnect, lose, issue, act_all, act_all-IsReadOnly, IsReadOnly,
}
use hass_ai.Ha.Client.Routes.{resubscribe-routes}
use hass_ai.Ha.Client.Supervise.{run-retries}
use hass_ai.Worker.Scheduler.{Wait, day_seconds, run_days}
use hass_ai.Worker.Scheduler.Nightly.{nights, run_days-nights}

abbrev primary : Target
primary = record { host = "http://gpu:11434"; model = "qwen" }

abbrev fallback : Target
fallback = record { host = "http://pi:11434"; model = "phi" }

abbrev client : OllamaClient
client = record { primary = primary; fallback = fallback }

chat_json-order_example :
    let start : Server ℕ = record { answers = none ∷ none ∷ some 7 ∷ none ∷ []; asked = [] } in
    let (after, result) = chat_json serve client start in
    (result ≡ some 7) × (after.asked ≡ primary ∷ primary ∷ fallback ∷ [])
chat_json-order_example = chat_json-order client none none (some 7) none []

-- A client that has not connected; a callback is a number.
abbrev socket : WebSocketClient ℕ
socket = record {
  next_id = 1;
  pending = [];
  subscriptions = ("state_changed", 5) ∷ ("call_service", 6) ∷ [];
  active_subs = [];
  sent = [];
}

act_all-IsReadOnly_example :
    IsReadOnly (act_all (authenticate ∷ reconnect ∷ issue "call_service" ∷ lose ∷ []) socket)
act_all-IsReadOnly_example =
    act_all-IsReadOnly (authenticate ∷ reconnect ∷ issue "call_service" ∷ lose ∷ []) socket tt

resubscribe-routes_example : (dispatch (event 2) (resubscribe socket)).1 ≡ some 6
resubscribe-routes_example = resubscribe-routes socket 1 6 refl

run-retries_example :
    let r = run (unreachable ∷ lasted 40 ∷ auth_rejected ∷ unreachable ∷ []) 0 in
    (length r.0 ≡ 2) × (All (λ d. d ≤ 60) r.0) × (r.1 ≡ raised_auth_error)
run-retries_example = run-retries (unreachable ∷ lasted 40 ∷ []) (unreachable ∷ []) 0 (tt, (tt, tt))

-- Two nights, the second of which raises behind its first job.
abbrev prompt : Wait
prompt = record { stopped = false; late = 0; enqueued = 3; spent = 1 }

abbrev broken : Wait
broken = record { stopped = false; late = 2; enqueued = 1; spent = 0 }

run_days-nights_example :
    run_days 3 (prompt ∷ broken ∷ []) (5 * day_seconds + 7200) []
    ≡ [] ++ nights (prompt ∷ broken ∷ []) 5
run_days-nights_example =
    run_days-nights 3 (omega arith) (prompt ∷ broken ∷ []) (5 * day_seconds + 7200) []
      ((refl, omega arith, omega arith), ((refl, omega arith, omega arith), tt))

-- A host that answers each request with an object as its content.
abbrev open_url : ℕ → Target → ℕ × Option Json
open_url n t =
    (n + 1, some (object (field "message" (object (field "content" (text "{}") done)) done)))

abbrev loads : String → Option Json
loads s = some (object (field "propose" (boolean true) done))

abbrev from_primary : LlmResponse
from_primary = record {
  content = field "propose" (boolean true) done;
  model = "qwen";
  host = "http://gpu:11434";
}

chat_json-IsFrom_example :
    ((IsFrom primary from_primary) ⊎ (IsFrom fallback from_primary))
    × (is_cloud from_primary.model ≡ false)
unfolding new_client chat_json request is_cloud
chat_json-IsFrom_example =
    chat_json-IsFrom loads open_url primary fallback client 0 from_primary refl refl

abbrev prompt_formats : PromptFormats
prompt_formats = record {
  two_digits = λ n. "07";
  decimal = λ n. "20";
  two_places = λ n. "0.90";
  one_place = λ n. "3.0";
  whole_minutes = λ n. "5";
  isoformat = λ n. "2026-11-26T07:15:00";
  quote = "'";
}

prompt_entities_allowed_example :
    elem lamp (prompt_entities prompt_formats lamp_group) ≡ elem lamp (allowed_entities lamp_group)
prompt_entities_allowed_example = prompt_entities_allowed prompt_formats lamp_group lamp
