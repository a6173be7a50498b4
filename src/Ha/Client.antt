-- ===== src/Ha/Client.antt =====
-- `HAWebSocketClient` of src/pae/ha/client.py: what it may send, its subscriptions over reconnects, and
-- how it supervises the connection. A callback is a value of `C`; tokens and payloads are not modelled.
pub mod Outbound
pub mod Routes
pub mod Supervise
use hass_ai.Prelude.{
  ℕ, ◌+◌, ◌*◌, ◌^◌, min, String, Bool, true, false, Option, none, some, List, [], ◌∷◌, ◌++◌, elem,
  filter, map, nat_eq, not, leb, if◌then◌else◌,
}

-- ALLOWED_OUTBOUND_TYPES
abbrev pub allowed_outbound_types : List String
allowed_outbound_types =
    "auth" ∷ "subscribe_events" ∷ "ping" ∷ "get_states" ∷ "config/entity_registry/list"
    ∷ "config/area_registry/list" ∷ "config/device_registry/list" ∷ []

pub data Message : Type 0 where
  auth : Message
  subscribe_events : String → ℕ → Message
  command : String → ℕ → Message

-- message.get("type")
abbrev pub message_type : Message → String
message_type auth = "auth"
message_type (subscribe_events event_type msg_id) = "subscribe_events"
message_type (command kind msg_id) = kind

-- A future is done when it has an outcome: success or failure.
pub record Pending : Type 0 where
  pub id : ℕ
  pub outcome : Option Bool

pub record WebSocketClient (C : Type 0) : Type 0 where
  pub next_id : ℕ
  pub pending : List Pending
  pub subscriptions : List (String × C)
  pub active_subs : List (ℕ × C)
  pub sent : List Message

-- A result frame has an id and says whether the command succeeded; an event frame has an id.
pub data Frame : Type 0 where
  result : ℕ → Bool → Frame
  event : ℕ → Frame
  other_frame : Frame

abbrev pub drop_pending : ℕ → List Pending → List Pending
drop_pending msg_id ps = filter (λ p. not (nat_eq p.id msg_id)) ps

abbrev set_outcome : ℕ → Bool → Pending → Pending
set_outcome msg_id success p = elim p.outcome [
  | none ↦ if nat_eq p.id msg_id then record p { outcome = some success } else p
  | some _ ↦ p
]

abbrev fail : Pending → Pending
fail p = elim p.outcome [ none ↦ record p { outcome = some false } | some _ ↦ p ]

module _ {C : Type 0} where
  -- `_send`, where none is a ReadOnlyViolation.
  unfoldable pub send : Message → WebSocketClient C → Option (WebSocketClient C)
  send message c =
      if elem (message_type message) allowed_outbound_types
      then some (record c { sent = c.sent ++ message ∷ [] })
      else none

  -- After the refusal the id is used and its future is dropped.
  abbrev sent_or_refused : ℕ → WebSocketClient C → Option (WebSocketClient C) → WebSocketClient C
  sent_or_refused msg_id c none = record c { pending = drop_pending msg_id c.pending }
  sent_or_refused msg_id c (some d) = d

  -- `_send_command` until it awaits its future, or raises.
  unfoldable pub send_command : String → WebSocketClient C → WebSocketClient C
  unfolding send
  send_command kind c =
      let waiting = record c {
        next_id = c.next_id + 1;
        pending = record { id = c.next_id; outcome = none } ∷ drop_pending c.next_id c.pending;
      } in
      sent_or_refused c.next_id waiting (send (command kind c.next_id) waiting)

  -- `_send_command` from its future's outcome, or from its timeout, on.
  unfoldable pub finish_command : ℕ → WebSocketClient C → WebSocketClient C
  finish_command msg_id c = record c { pending = drop_pending msg_id c.pending }

  abbrev or_same : WebSocketClient C → Option (WebSocketClient C) → WebSocketClient C
  or_same c none = c
  or_same c (some d) = d

  -- One round of the loop in `_resubscribe`.
  unfoldable pub subscribe : String → C → WebSocketClient C → WebSocketClient C
  unfolding send
  subscribe event_type callback c =
      let waiting = record c {
        next_id = c.next_id + 1;
        pending = record { id = c.next_id; outcome = none } ∷ drop_pending c.next_id c.pending;
        active_subs = c.active_subs ++ (c.next_id, callback) ∷ [];
      } in
      or_same waiting (send (subscribe_events event_type c.next_id) waiting)

  unfoldable pub subscribe_all : List (String × C) → WebSocketClient C → WebSocketClient C
  unfolding subscribe
  subscribe_all [] c = c
  subscribe_all ((event_type, callback) ∷ subs) c =
      subscribe_all subs (subscribe event_type callback c)

  unfoldable pub resubscribe : WebSocketClient C → WebSocketClient C
  unfolding subscribe_all
  resubscribe c = subscribe_all c.subscriptions (record c { active_subs = [] })

  -- self._active_subs.get(id)
  unfoldable pub find_callback : ℕ → List (ℕ × C) → Option C
  find_callback msg_id [] = none
  find_callback msg_id ((i, callback) ∷ subs) =
      let rest = find_callback msg_id subs in if nat_eq i msg_id then some callback else rest

  -- `_dispatch`: the client afterwards, and the callback that is called. What the callback raises is
  -- logged and goes no further.
  unfoldable pub dispatch : Frame → WebSocketClient C → WebSocketClient C × Option C
  unfolding find_callback
  dispatch (result msg_id success) c =
      (record c { pending = map (set_outcome msg_id success) c.pending }, none)
  dispatch (event msg_id) c = (c, find_callback msg_id c.active_subs)
  dispatch other_frame c = (c, none)

  -- The `finally` of `run`: pending commands fail at once.
  unfoldable pub connection_lost : WebSocketClient C → WebSocketClient C
  connection_lost c = record c { pending = map fail c.pending }

-- The upper end of the jitter of `next_delay` in whole seconds, at the defaults `base = 1`, `cap = 60`.
unfoldable pub delay_cap : ℕ → ℕ
delay_cap attempt = min 60 (2 ^ attempt)

-- How one round of the loop in `run` ends: the token is rejected; the connection was never up, or was up
-- for some seconds; or `stop` was called. An exception that `run` does not name is not modelled.
pub data Round : Type 0 where
  auth_rejected unreachable stopped : Round
  lasted : ℕ → Round

pub data Ended : Type 0 where
  raised_auth_error returned still_running : Ended

-- The attempt number after a round, which counts the one that follows.
abbrev pub after_round : Round → ℕ → ℕ
after_round (lasted seconds) attempt = if leb 30 seconds then 0 else attempt
after_round _ attempt = attempt

-- `run` over the ends of its rounds: the upper ends of the delays it sleeps, and how it ends.
unfoldable pub run : List Round → ℕ → List ℕ × Ended
unfolding delay_cap
run [] attempt = ([], still_running)
run (auth_rejected ∷ rounds) attempt = ([], raised_auth_error)
run (stopped ∷ rounds) attempt = ([], returned)
run (unreachable ∷ rounds) attempt =
    let rest = run rounds (attempt + 1) in (delay_cap attempt ∷ rest.0, rest.1)
run (lasted seconds ∷ rounds) attempt =
    let fresh = after_round (lasted seconds) attempt in
    let rest = run rounds (fresh + 1) in (delay_cap fresh ∷ rest.0, rest.1)
