-- ===== src/Llm/Client.antt =====
-- `OllamaClient` of src/pae/llm/client.py. The HTTP call with the parsing of its answer (`_request`) is a
-- parameter with a state; `none` is an exception that `chat_json` catches.
pub mod Attempts
use Prim.Native.String.{len}
use hass_ai.Prelude.{
  ℕ, zero, suc, ◌+◌, String, Bool, true, false, ◌||◌, Option, none, some, List, [], ◌∷◌, ◌++◌,
  if◌then◌else◌, codes, nat_eq,
}

-- A host with its model.
pub record Target : Type 0 where
  pub host : String
  pub model : String

pub record OllamaClient : Type 0 where
  pub primary : Target
  pub fallback : Target

abbrev is_prefix : List ℕ → List ℕ → Bool
is_prefix [] ys = true
is_prefix (x ∷ xs) [] = false
is_prefix (x ∷ xs) (y ∷ ys) = if nat_eq x y then is_prefix xs ys else false

-- `needle in text`
contains : List ℕ → List ℕ → Bool
contains needle [] = is_prefix needle []
contains needle (c ∷ cs) = is_prefix needle (c ∷ cs) || contains needle cs

-- ":cloud" in model
unfoldable pub is_cloud : String → Bool
unfolding contains
is_cloud model = contains (codes ":cloud") (codes model)

-- The constructor; `none` is the ValueError.
unfoldable pub new_client : Target → Target → Option OllamaClient
new_client primary fallback =
    if is_cloud primary.model
    then none
    else if is_cloud fallback.model
    then none
    else some (record { primary = primary; fallback = fallback })

abbrev pub targets : OllamaClient → List Target
targets c = c.primary ∷ c.fallback ∷ []

-- ATTEMPTS_PER_HOST
abbrev pub attempts_per_host : ℕ
attempts_per_host = 2

module _ {S R : Type 0} (request : S → Target → S × Option R) where
  -- The inner loop: the first answer, or the state after the last attempt.
  unfoldable pub try_host : ℕ → Target → S → S × Option R
  try_host zero t s = (s, none)
  try_host (suc n) t s = elim (request s t).1 [
    | some r ↦ ((request s t).0, some r)
    | none ↦ try_host n t (request s t).0
  ]

  unfoldable pub try_targets : List Target → S → S × Option R
  unfolding try_host
  try_targets [] s = (s, none)
  try_targets (t ∷ ts) s = elim (try_host attempts_per_host t s).1 [
    | some r ↦ ((try_host attempts_per_host t s).0, some r)
    | none ↦ try_targets ts (try_host attempts_per_host t s).0
  ]

  -- chat_json; `none` is the LLMError.
  unfoldable pub chat_json : OllamaClient → S → S × Option R
  unfolding try_targets
  chat_json c s = try_targets (targets c) s
