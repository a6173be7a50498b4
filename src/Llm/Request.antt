-- ===== src/Llm/Request.antt =====
-- `_request` of src/pae/llm/client.py, as the request of `chat_json`. Opening the address with the reading of
-- the answer, and `json.loads`, are parameters; `none` is an exception that `chat_json` catches. The time
-- that it took is not modelled.
pub mod Origin
use hass_ai.Prelude.{String, Option, none, some}
use hass_ai.Db.Models.{Json, text, object, Fields}
use hass_ai.Proposer.Service.{get_field}
use hass_ai.Llm.Client.{Target}

pub record LlmResponse : Type 0 where
  pub content : Fields
  pub model : String
  pub host : String

-- payload["message"]["content"], where none is a KeyError or a TypeError.
abbrev pub member : String → Option Json → Option Json
member key (some (object fs)) = get_field key fs
member key _ = none

abbrev pub content_text : Option Json → Option String
content_text (some (text s)) = some s
content_text _ = none

-- The content has to be an object.
abbrev pub response_of : Target → Option Json → Option LlmResponse
response_of t (some (object fs)) = some (record { content = fs; model = t.model; host = t.host })
response_of t _ = none

module _ {S : Type 0} (loads : String → Option Json) (open_url : S → Target → S × Option Json) where
  abbrev pub parsed : Target → Option String → Option LlmResponse
  parsed t none = none
  parsed t (some s) = response_of t (loads s)

  unfoldable pub request : S → Target → S × Option LlmResponse
  unfolding get_field
  request s t =
      let answer = open_url s t in
      (answer.0, parsed t (content_text (member "content" (member "message" answer.1))))
