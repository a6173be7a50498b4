-- ===== src/Llm/Client/Attempts.antt =====
-- The order and the number of the attempts of `chat_json` (src/pae/llm/client.py).
use hass_ai.Prelude.{◌≡◌, false, Option, none, some, List, [], ◌∷◌, ◌++◌, arith}
use hass_ai.Llm.Client.{Target, OllamaClient, is_cloud, new_client, targets, chat_json}

-- A server whose answers are fixed in advance: it takes one from the list for each request, and keeps the
-- requests in their order.
pub record Server (R : Type 0) : Type 0 where
  pub answers : List (Option R)
  pub asked : List Target

abbrev pub serve : {R : Type 0} → Server R → Target → Server R × Option R
serve s t = elim s.answers [
  | [] ↦ (record { answers = []; asked = s.asked ++ t ∷ [] }, none)
  | a ∷ rest ↦ (record { answers = rest; asked = s.asked ++ t ∷ [] }, a)
]

-- The first answer of a list of attempts, and the hosts that are asked up to it.
abbrev pub first_answer : {R : Type 0} → List (Option R) → Option R
first_answer [] = none
first_answer (none ∷ answers) = first_answer answers
first_answer (some r ∷ answers) = some r

abbrev pub asked_until : {R : Type 0} → List Target → List (Option R) → List Target
asked_until [] answers = []
asked_until (t ∷ ts) [] = []
asked_until (t ∷ ts) (none ∷ answers) = t ∷ asked_until ts answers
asked_until (t ∷ ts) (some r ∷ answers) = t ∷ []

-- The whole behaviour: two attempts on the primary host, then two on the fallback; the first answer is the
-- result and ends them, and the call fails only if all four do. After an answer nothing more is asked.
pub chat_json-order :
    {R : Type 0} (c : OllamaClient) (a b d e : Option R) (more : List (Option R))
    → let start : Server R = record { answers = a ∷ b ∷ d ∷ e ∷ more; asked = [] } in
      let (after, result) = chat_json serve c start in
      (result ≡ first_answer (a ∷ b ∷ d ∷ e ∷ []))
      × (after.asked
          ≡ asked_until (c.primary ∷ c.primary ∷ c.fallback ∷ c.fallback ∷ []) (a ∷ b ∷ d ∷ e ∷ []))
unfolding chat_json
chat_json-order c (some a) b d e more = (ground arith, ground arith)
chat_json-order c none (some b) d e more = (ground arith, ground arith)
chat_json-order c none none (some d) e more = (ground arith, ground arith)
chat_json-order c none none none (some e) more = (ground arith, ground arith)
chat_json-order c none none none none more = (ground arith, ground arith)

-- A client is made only if neither model is a cloud model, and it asks the two given targets in order.
pub new_client-targets :
    (primary fallback : Target) (c : OllamaClient)
    → new_client primary fallback ≡ some c
    → (is_cloud primary.model ≡ false)
      × (is_cloud fallback.model ≡ false)
      × (targets c ≡ primary ∷ fallback ∷ [])
unfolding new_client
new_client-targets primary fallback c h = (ground arith, ground arith, ground arith)
