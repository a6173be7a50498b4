-- ===== src/Ha/Rest.antt =====
-- `HARestClient` of src/pae/ha/client.py, and the errors of src/pae/ha/errors.py. The HTTP library is a
-- parameter: what a request comes to, whether `raise_for_status` raises, and the validation of a body.
pub mod State
use hass_ai.Prelude.{
  ℕ, String, Bool, true, false, not, Option, none, some, List, [], ◌∷◌, nat_eq, opt_eq, str_eq,
  domain_of, if◌then◌else◌,
}

pub data RestError : Type 0 where
  auth_error : RestError
  connection_error : RestError
  read_only_violation : RestError
  -- An exception that is none of the client's own: the session is not open, a body is not valid JSON or not
  -- of the model, or the method is not implemented.
  assertion_error : RestError
  value_error : RestError
  not_implemented : RestError

pub data Result (A : Type 0) : Type 0 where
  ok : A → Result A
  raised : RestError → Result A

-- resp.json(): a body, a ContentTypeError, which is a ClientError, or a ValueError.
pub data Body (J : Type 0) : Type 0 where
  json : J → Body J
  bad_content : Body J
  bad_json : Body J

-- A ClientError of the request, or its status and body.
pub data Exchange (J : Type 0) : Type 0 where
  failed : Exchange J
  answered : ℕ → Body J → Exchange J

pub record EntityState : Type 0 where
  pub entity_id : String
  pub state : String

-- EntityState.domain
abbrev pub state_domain : EntityState → String
state_domain s = domain_of s.entity_id

pub record RestClient : Type 0 where
  pub read_only : Bool
  pub has_session : Bool

module _ {A B : Type 0} where
  abbrev pub then_result : Result A → (A → Result B) → Result B
  then_result (ok a) f = f a
  then_result (raised e) f = raised e

abbrev pub opened : RestClient → RestClient
opened c = record c { has_session = true }

abbrev pub closed : RestClient → RestClient
closed c = record c { has_session = false }

module _ {A : Type 0} where
  -- The wrapper of `writes_to_ha`: the body runs only where the client may write.
  abbrev pub writes_to_ha : RestClient → Result A → Result A
  writes_to_ha c body = if c.read_only then raised read_only_violation else body

  abbrev pub call_service : RestClient → Result A
  call_service c = writes_to_ha c (raised not_implemented)

module _ {J : Type 0} (raises_for_status : ℕ → Bool) where
  abbrev pub body_of : Body J → Result J
  body_of (json j) = ok j
  body_of bad_content = raised connection_error
  body_of bad_json = raised value_error

  abbrev pub reply_of : ℕ → Body J → Result J
  reply_of status body =
      if nat_eq status 401
      then raised auth_error
      else if raises_for_status status
      then raised connection_error
      else body_of body

  unfoldable pub get : RestClient → Exchange J → Result J
  get c failed = if c.has_session then raised connection_error else raised assertion_error
  get c (answered status body) =
      if c.has_session then reply_of status body else raised assertion_error

  -- EntityState.model_validate
  abbrev pub validated : (J → Option EntityState) → J → Result EntityState
  validated validate j = elim (validate j) [ none ↦ raised value_error | some s ↦ ok s ]

  abbrev state_reply : (J → Option EntityState) → ℕ → Body J → Result (Option EntityState)
  state_reply validate status body =
      if nat_eq status 404
      then ok none
      else if nat_eq status 401
      then raised auth_error
      else if raises_for_status status
      then raised connection_error
      else then_result (body_of body) (λ j. then_result (validated validate j) (λ s. ok (some s)))

  unfoldable pub get_state :
      (J → Option EntityState) → RestClient → Exchange J → Result (Option EntityState)
  get_state validate c failed =
      if c.has_session then raised connection_error else raised assertion_error
  get_state validate c (answered status body) =
      if c.has_session then state_reply validate status body else raised assertion_error

  -- [EntityState.model_validate(item) for item in data]
  unfoldable pub validate_all : (J → Option EntityState) → List J → Result (List EntityState)
  validate_all validate [] = ok []
  validate_all validate (j ∷ js) =
      then_result (validated validate j)
        (λ s. then_result (validate_all validate js) (λ ss. ok (s ∷ ss)))

  unfoldable pub get_states :
      (J → List J) → (J → Option EntityState) → RestClient → Exchange J → Result (List EntityState)
  unfolding get validate_all
  get_states items validate c x = then_result (get c x) (λ j. validate_all validate (items j))

  -- data.get("message") == "API running."
  unfoldable pub ping : (J → Option String) → RestClient → Exchange J → Result Bool
  unfolding get
  ping message c x = then_result (get c x) (λ j. ok (opt_eq (message j) (some "API running.")))

  -- The status of an exchange is 404.
  abbrev pub is_missing : Exchange J → Bool
  is_missing failed = false
  is_missing (answered status body) = nat_eq status 404
