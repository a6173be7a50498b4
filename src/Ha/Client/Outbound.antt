-- ===== src/Ha/Client/Outbound.antt =====
-- What leaves the WebSocket client (`_send` of src/pae/ha/client.py).
use hass_ai.Prelude.{
  All-append, ℕ, ◌≡◌, refl, true, String, Option, List, [], ◌∷◌, ◌++◌, All, elem, if◌then◌else◌,
  append-nil, Bool-cases, inl, inr,
}
use hass_ai.Ha.Client.{
  Message, command, message_type, allowed_outbound_types, Frame, result, event, other_frame,
  WebSocketClient, send, send_command, finish_command, subscribe, subscribe_all, resubscribe,
  dispatch, connection_lost,
}

-- What the tasks that share the client do to it.
pub data Activity (C : Type 0) : Type 0 where
  register : String → C → Activity C
  authenticate reconnect lose : Activity C
  issue : String → Activity C
  finish : ℕ → Activity C
  receive : Frame → Activity C

module _ {C : Type 0} where
  abbrev pub IsReadOnly : WebSocketClient C → Type 0
  IsReadOnly c = All (λ m. elem (message_type m) allowed_outbound_types ≡ true) c.sent

  abbrev authenticated : WebSocketClient C → Option (WebSocketClient C) → WebSocketClient C
  authenticated c Option.none = c
  authenticated c (Option.some d) = d

  unfoldable pub act : Activity C → WebSocketClient C → WebSocketClient C
  unfolding send send_command finish_command resubscribe dispatch connection_lost
  act (register event_type callback) c = record c {
    subscriptions = c.subscriptions ++ (event_type, callback) ∷ [];
  }
  act authenticate c = authenticated c (send Message.auth c)
  act reconnect c = resubscribe c
  act lose c = connection_lost c
  act (issue kind) c = send_command kind c
  act (finish msg_id) c = finish_command msg_id c
  act (receive frame) c = (dispatch frame c).0

  abbrev pub act_all : List (Activity C) → WebSocketClient C → WebSocketClient C
  act_all [] c = c
  act_all (a ∷ acts) c = act_all acts (act a c)

  -- A command sends its frame just when its type is in the set.
  pub send_command-sent :
      (kind : String) (c : WebSocketClient C)
      → (send_command kind c).sent
        ≡ c.sent ++ (if elem kind allowed_outbound_types then command kind c.next_id ∷ [] else [])
  unfolding send_command send
  send_command-sent kind c = elim (Bool-cases (elem kind allowed_outbound_types)) [
    | inl allowed ↦ rw allowed refl
    | inr refused ↦ rw (refused, append-nil) refl
  ]

  subscribe_all-IsReadOnly :
      (subs : List (String × C)) (c : WebSocketClient C)
      → IsReadOnly c
      → IsReadOnly (subscribe_all subs c)
  unfolding subscribe_all subscribe send
  subscribe_all-IsReadOnly [] c h = h
  subscribe_all-IsReadOnly ((t, callback) ∷ subs) c h =
      subscribe_all-IsReadOnly subs _ (All-append _ c.sent _ h (refl, tt))

  act-IsReadOnly : (a : Activity C) (c : WebSocketClient C) → IsReadOnly c → IsReadOnly (act a c)
  unfolding act finish_command resubscribe dispatch connection_lost send
  act-IsReadOnly (register t callback) c h = h
  act-IsReadOnly authenticate c h = All-append _ c.sent _ h (refl, tt)
  act-IsReadOnly reconnect c h = subscribe_all-IsReadOnly c.subscriptions _ h
  act-IsReadOnly lose c h = h
  act-IsReadOnly (issue kind) c h = elim (Bool-cases (elem kind allowed_outbound_types)) [
    | inl allowed ↦ rw (send_command-sent kind c, allowed) (All-append _ c.sent _ h (allowed, tt))
    | inr refused ↦ rw (send_command-sent kind c, refused, append-nil) h
  ]
  act-IsReadOnly (finish msg_id) c h = h
  act-IsReadOnly (receive (result msg_id ok)) c h = h
  act-IsReadOnly (receive (event msg_id)) c h = h
  act-IsReadOnly (receive other_frame) c h = h

  -- Whatever the tasks that share the client do, in whatever order, every message that ever left it has one
  -- of the read-only types: no service call reaches the house.
  pub act_all-IsReadOnly :
      (acts : List (Activity C)) (c : WebSocketClient C)
      → IsReadOnly c
      → IsReadOnly (act_all acts c)
  act_all-IsReadOnly [] c h = h
  act_all-IsReadOnly (a ∷ acts) c h = act_all-IsReadOnly acts (act a c) (act-IsReadOnly a c h)
