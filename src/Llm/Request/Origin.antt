-- ===== src/Llm/Request/Origin.antt =====
-- Where an answer of the language model comes from (src/pae/llm/client.py).
use hass_ai.Prelude.{
  ℕ, zero, suc, ◌≡◌, refl, sym, ap, ◌∙◌, subst, inl, inr, ◌⊎◌, Option, none, some, List, [], ◌∷◌,
  String, false, In, ℕ,
}
use hass_ai.Db.Models.{Json, null, boolean, number, text, array, object}
use hass_ai.Llm.Client.{
  Target, OllamaClient, new_client, is_cloud, targets, attempts_per_host, try_host, try_targets,
  chat_json,
}
use hass_ai.Llm.Client.Attempts.{new_client-targets}
use hass_ai.Llm.Request.{member, response_of, content_text, LlmResponse, parsed, request}

-- The answer names a target.
abbrev pub IsFrom : Target → LlmResponse → Type 0
IsFrom t r = (r.host ≡ t.host) × (r.model ≡ t.model)

response_of-IsFrom :
    (t : Target) (j : Option Json) (r : LlmResponse) → response_of t j ≡ some r → IsFrom t r
response_of-IsFrom t none r h = cc
response_of-IsFrom t (some null) r h = cc
response_of-IsFrom t (some (boolean b)) r h = cc
response_of-IsFrom t (some (number n)) r h = cc
response_of-IsFrom t (some (text s)) r h = cc
response_of-IsFrom t (some (array js)) r h = cc
response_of-IsFrom t (some (object fs)) r h =
    let same : record { content = fs; model = t.model; host = t.host } ≡ r = cc in
    (ap (λ (x : LlmResponse). x.host) (sym same), ap (λ (x : LlmResponse). x.model) (sym same))

module _ {S : Type 0} (loads : String → Option Json) (open_url : S → Target → S × Option Json) where
  request-IsFrom :
      (t : Target) (s : S) (r : LlmResponse) → (request loads open_url s t).1 ≡ some r → IsFrom t r
  unfolding request
  request-IsFrom t s r h =
      from_text (content_text (member "content" (member "message" (open_url s t).1))) h
    where
      from_text : (o : Option String) → parsed loads open_url t o ≡ some r → IsFrom t r
      from_text none e = cc
      from_text (some c) e = response_of-IsFrom t (loads c) r e

module _ {S R : Type 0} (P : Target → R → Type 0) (ask : S → Target → S × Option R)
    (sound : (t : Target) (s : S) (r : R) → (ask s t).1 ≡ some r → P t r) where
  try_host_sound : (n : ℕ) (t : Target) (s : S) (r : R) → (try_host ask n t s).1 ≡ some r → P t r
  unfolding try_host
  try_host_sound zero t s r h = cc
  try_host_sound (suc n) t s r h =
      by_answer (ask s t).1 refl h (λ e. try_host_sound n t (ask s t).0 r e)
    where
      by_answer :
          (o : Option R)
          → (ask s t).1 ≡ o
          → (elim o as (λ _. S × Option R) [
            | some x ↦ ((ask s t).0, some x)
            | none ↦ try_host ask n t (ask s t).0
          ]).1
            ≡ some r
          → ((try_host ask n t (ask s t).0).1 ≡ some r → P t r)
          → P t r
      by_answer none e k later = later k
      by_answer (some x) e k later = sound t s r (e ∙ k)

  try_targets_sound :
      (ts : List Target) (s : S) (r : R)
      → (try_targets ask ts s).1 ≡ some r
      → (t : Target) × In t ts × P t r
  unfolding try_targets
  try_targets_sound [] s r h = cc
  try_targets_sound (t ∷ ts) s r h = by_answer (try_host ask attempts_per_host t s).1 refl h (λ e.
      let (u, m, p) = try_targets_sound ts (try_host ask attempts_per_host t s).0 r e in
      (u, inr m, p))
    where
      by_answer :
          (o : Option R)
          → (try_host ask attempts_per_host t s).1 ≡ o
          → (elim o as (λ _. S × Option R) [
            | some x ↦ ((try_host ask attempts_per_host t s).0, some x)
            | none ↦ try_targets ask ts (try_host ask attempts_per_host t s).0
          ]).1
            ≡ some r
          → ((try_targets ask ts (try_host ask attempts_per_host t s).0).1 ≡ some r
              → (u : Target) × In u (t ∷ ts) × P u r)
          → (u : Target) × In u (t ∷ ts) × P u r
      by_answer none e k later = later k
      by_answer (some x) e k later = (t, inl refl, try_host_sound attempts_per_host t s r (e ∙ k))

-- Every response of `chat_json` names the host and the model of one of the two targets that the client was
-- made with, and that model is no cloud model, whatever the hosts answer.
pub chat_json-IsFrom :
    {S : Type 0} (loads : String → Option Json) (open_url : S → Target → S × Option Json)
    (primary fallback : Target) (c : OllamaClient) (s : S) (r : LlmResponse)
    → new_client primary fallback ≡ some c
    → (chat_json (request loads open_url) c s).1 ≡ some r
    → ((IsFrom primary r) ⊎ (IsFrom fallback r)) × (is_cloud r.model ≡ false)
unfolding chat_json
chat_json-IsFrom loads open_url primary fallback c s r made h =
    let (local, also, both) = new_client-targets primary fallback c made in
    let (t, m, from) =
      try_targets_sound IsFrom (request loads open_url) (request-IsFrom loads open_url) (targets c)
        s r h in
    by_target t (subst (λ l. In t l) both m) from local also
  where
    by_target :
        (t : Target)
        → In t (primary ∷ fallback ∷ [])
        → IsFrom t r
        → is_cloud primary.model ≡ false
        → is_cloud fallback.model ≡ false
        → ((IsFrom primary r) ⊎ (IsFrom fallback r)) × (is_cloud r.model ≡ false)
    by_target t (inl e) from local also =
        let named = subst (λ u. IsFrom u r) e from in (inl named, ap is_cloud named.1 ∙ local)
    by_target t (inr (inl e)) from local also =
        let named = subst (λ u. IsFrom u r) e from in (inr named, ap is_cloud named.1 ∙ also)
    by_target t (inr (inr none_left)) from local also = absurd none_left
