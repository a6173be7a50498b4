-- ===== src/Ha/Client/Routes.antt =====
-- Where events go after `_resubscribe` (src/pae/ha/client.py).
use hass_ai.Prelude.{
  All-append, ℕ, ◌+◌, ◌<◌, ◌≤◌, ◌≡◌, refl, ◌∙◌, String, Option, none, some, List, [], ◌∷◌, ◌++◌,
  arith, zero, suc, All,
}
use hass_ai.Ha.Client.{
  event, WebSocketClient, send, subscribe, subscribe_all, resubscribe, dispatch, find_callback,
}

module _ {C : Type 0} where
  -- The callback of the subscription that was registered in the i-th place.
  abbrev pub registered : ℕ → List (String × C) → Option C
  registered i [] = none
  registered zero ((t, callback) ∷ subs) = some callback
  registered (suc i) (s ∷ subs) = registered i subs

  abbrev IsBelow : ℕ → List (ℕ × C) → Type 0
  IsBelow n subs = All (λ s. s.0 < n) subs

  find-above :
      (msg_id n : ℕ) (subs : List (ℕ × C))
      → IsBelow n subs
      → n ≤ msg_id
      → find_callback msg_id subs ≡ none
  unfolding find_callback
  find-above msg_id n [] below h = refl
  find-above msg_id n ((i, c) ∷ subs) below h =
      ground (arith, find-above msg_id n subs below.1 h, below.0)

  find-append :
      (msg_id i : ℕ) (callback : C) (subs : List (ℕ × C))
      → (msg_id ≡ i → ⊥)
      → find_callback msg_id (subs ++ (i, callback) ∷ []) ≡ find_callback msg_id subs
  unfolding find_callback
  find-append msg_id i callback [] h = ground arith
  find-append msg_id i callback ((j, c) ∷ subs) h =
      ground (arith, find-append msg_id i callback subs h)

  find-last :
      (i n : ℕ) (callback : C) (subs : List (ℕ × C))
      → IsBelow n subs
      → n ≤ i
      → find_callback i (subs ++ (i, callback) ∷ []) ≡ some callback
  unfolding find_callback
  find-last i n callback [] below h = ground arith
  find-last i n callback ((j, c) ∷ subs) below h =
      ground (arith, find-last i n callback subs below.1 h, below.0)

  -- An id that is not of the loop's keeps its callback.
  subscribe_all-below :
      (subs : List (String × C)) (c : WebSocketClient C) (msg_id : ℕ)
      → msg_id < c.next_id
      → find_callback msg_id (subscribe_all subs c).active_subs ≡ find_callback msg_id c.active_subs
  unfolding subscribe_all subscribe send
  subscribe_all-below [] c msg_id h = refl
  subscribe_all-below ((t, callback) ∷ subs) c msg_id h =
      subscribe_all-below subs (subscribe t callback c) msg_id (omega arith)
      ∙ find-append msg_id c.next_id callback c.active_subs (λ e. omega arith)

  IsBelow-next :
      (n : ℕ) (callback : C) (subs : List (ℕ × C))
      → IsBelow n subs
      → IsBelow (n + 1) (subs ++ (n, callback) ∷ [])
  IsBelow-next n callback [] h = (omega arith, tt)
  IsBelow-next n callback ((j, c) ∷ subs) h =
      let first = h.0 in
      (omega (arith, first), All-append _ subs _ (weaken subs h.1) (omega arith, tt))
    where
      weaken : (l : List (ℕ × C)) → IsBelow n l → IsBelow (n + 1) l
      weaken [] h = tt
      weaken (s ∷ l) h = let first = h.0 in (omega (arith, first), weaken l h.1)

  subscribe_all-routes :
      (subs : List (String × C)) (c : WebSocketClient C) (i msg_id : ℕ) (callback : C)
      → IsBelow c.next_id c.active_subs
      → registered i subs ≡ some callback
      → msg_id ≡ c.next_id + i
      → find_callback msg_id (subscribe_all subs c).active_subs ≡ some callback
  unfolding subscribe_all subscribe send
  subscribe_all-routes [] c i msg_id callback below h e = cc
  subscribe_all-routes ((t, first) ∷ subs) c zero msg_id callback below h e =
      let here : ◌≡◌ {A = ℕ} msg_id c.next_id = omega (arith, e) in
      rw here (
        subscribe_all-below subs (subscribe t first c) c.next_id (omega arith)
        ∙ (find-last c.next_id c.next_id first c.active_subs below (omega arith) ∙ h))
  subscribe_all-routes ((t, first) ∷ subs) c (suc i) msg_id callback below h e =
      subscribe_all-routes subs (subscribe t first c) i msg_id callback
        (IsBelow-next c.next_id first c.active_subs below) h (omega (arith, e))

  -- After a reconnect the events under the i-th new id reach the callback registered in the i-th place.
  pub resubscribe-routes :
      (c : WebSocketClient C) (i : ℕ) (callback : C)
      → registered i c.subscriptions ≡ some callback
      → (dispatch (event (c.next_id + i)) (resubscribe c)).1 ≡ some callback
  unfolding dispatch resubscribe
  resubscribe-routes c i callback h =
      subscribe_all-routes c.subscriptions (record c { active_subs = [] }) i (c.next_id + i)
        callback tt h refl

  -- An event under an id from before the reconnect reaches nobody.
  pub resubscribe-stale :
      (c : WebSocketClient C) (msg_id : ℕ)
      → msg_id < c.next_id
      → (dispatch (event msg_id) (resubscribe c)).1 ≡ none
  unfolding dispatch resubscribe find_callback
  resubscribe-stale c msg_id h =
      subscribe_all-below c.subscriptions (record c { active_subs = [] }) msg_id h
