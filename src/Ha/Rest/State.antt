-- ===== src/Ha/Rest/State.antt =====
-- How the two readers of `HARestClient` (src/pae/ha/client.py) agree.
use hass_ai.Prelude.{ℕ, Bool, Option, none, some, arith, ◌≡◌, if◌then◌else◌, ◌&&◌}
use hass_ai.Ha.Rest.{
  RestClient, Exchange, failed, answered, ok, then_result, EntityState, validated, get, get_state,
  is_missing,
}

-- For every client, reply and validation: `get_state` reports a missing entity exactly on status 404 from an
-- open session, and else it is `_get` followed by the validation, errors included.
pub get_state-get :
    {J : Type 0} (raises_for_status : ℕ → Bool) (validate : J → Option EntityState) (c : RestClient)
    (x : Exchange J)
    → get_state raises_for_status validate c x ≡ (
        if c.has_session && is_missing raises_for_status x
        then ok none
        else then_result
            (get raises_for_status c x)
            (λ j. then_result (validated raises_for_status validate j) (λ s. ok (some s))))
unfolding get_state get
get_state-get raises validate c failed = ground arith
get_state-get raises validate c (answered status body) = ground arith
