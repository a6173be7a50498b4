-- ===== src/Proposer/Validate/Accepted.antt =====
-- What is accepted and what is complained about, for `validate_proposal` (src/pae/proposer/schema.py).
use hass_ai.Prelude.{
  ℕ, String, ◌≡◌, refl, ap, subst, if◌then◌else◌, inl, inr, Bool, true, false, Option, none, some,
  List, [], ◌∷◌, arith, All, elem→In, In→elem, Option-cases, eq_iff, opt_eq_iff, append-eq-nil,
  Dict, lookup, split_once, ◌↔◌,
}
use hass_ai.Prelude.Int.{ℤ, pos}
use hass_ai.Db.Models.{Json, is_time_of_day}
use hass_ai.Proposer.Group.{ProposalGroup}
use hass_ai.Proposer.Schema.Clock.{parse_hms}
use hass_ai.Proposer.Schema.Automation.{
  Trigger, time_trigger, sun_trigger, state_trigger, ServiceAction, Automation, services_of,
  model_validate,
}
use hass_ai.Proposer.Validate.{
  Message, SunMinutes, allowed_entities, referenced, check_entities, check_domains, check_service,
  check_actions, check_grace, sun_minute, check_tod, check_pair, check_trigger, default_grace,
  messages, judge, verdict, validate_proposal, opt_pos,
}
use hass_ai.Proposer.Validate.Rules.{
  IsKnown, IsAllowedAction, IsNear, FitsTod, FitsPair, FitsKind, FitsTrigger, IsAccepted,
}

check_entities_iff :
    (allowed : List String) (domains : Dict String) (es : List String)
    → (check_entities allowed domains es ≡ []) ↔ All (IsKnown allowed domains) es
unfolding check_entities
check_entities_iff allowed domains [] = (λ _. tt, λ _. refl)
check_entities_iff allowed domains (e ∷ es) = (
  λ h. elim (Option-cases (lookup e domains)) [
    | inl absent ↦ absurd (ground (arith, absent))
    | inr (d, found) ↦ (
      (elem→In e allowed (ground arith), (d, found)),
      (check_entities_iff allowed domains es).0 (ground arith),
    )
  ],
  λ ((m, (d, found)), later).
      ground (arith, In→elem e allowed m, found, (check_entities_iff allowed domains es).1 later),
)

check_domains_iff :
    (domains : Dict String) (service domain : String) (es : List String)
    → (check_domains domains service domain es ≡ [])
      ↔ All (λ e. (d : String) → lookup e domains ≡ some d → d ≡ domain) es
unfolding check_domains
check_domains_iff domains service domain [] = (λ _. tt, λ _. refl)
check_domains_iff domains service domain (e ∷ es) = (
  λ h. (
    λ d found. (eq_iff d domain).0 (ground arith),
    (check_domains_iff domains service domain es).0 (ground arith),
  ),
  λ (same, later). elim (Option-cases (lookup e domains)) [
    | inl absent ↦ ground (arith, absent, (check_domains_iff domains service domain es).1 later)
    | inr (d, found) ↦ ground (
      arith,
      found,
      (eq_iff d domain).1 (same d found),
      (check_domains_iff domains service domain es).1 later,
    )
  ],
)

check_service_sound :
    (domains : Dict String) (a : ServiceAction) (parts : String × Option String)
    → split_once "." a.service ≡ parts
    → check_service domains a parts ≡ []
    → IsAllowedAction domains a
unfolding check_service
check_service_sound domains a (d, none) e h = cc
check_service_sound domains a (d, some n) e h =
    let (allowed, same) = append-eq-nil _ (check_domains domains a.service d a.target) h in
    record {
      domain = d;
      name = n;
      service = e;
      allowed = elem→In n (services_of d) (ground arith);
      same_domain = (check_domains_iff domains a.service d a.target).0 same;
    }

check_actions_iff :
    (domains : Dict String) (actions : List ServiceAction)
    → (check_actions domains actions ≡ []) ↔ All (IsAllowedAction domains) actions
unfolding check_actions
check_actions_iff domains [] = (λ _. tt, λ _. refl)
check_actions_iff domains (a ∷ actions) = (
  λ h.
      let (first, later) = append-eq-nil _ (check_actions domains actions) h in
      (check_service_sound domains a _ refl first, (check_actions_iff domains actions).0 later),
  λ (ok, later). rw ok.service (
      ground (
        arith,
        In→elem ok.name (services_of ok.domain) ok.allowed,
        (check_domains_iff domains a.service ok.domain a.target).1 ok.same_domain,
        (check_actions_iff domains actions).1 later,
      )),
)

check_grace_iff :
    (mean : ℕ) (t : Option ℤ)
    → (check_grace default_grace mean t ≡ []) ↔ ((m : ℤ) → t ≡ some m → IsNear mean m)
unfolding check_grace
check_grace_iff mean none = (λ _ m e. cc, λ _. refl)
check_grace_iff mean (some t) = (λ h m e. ground arith, λ near. ground (arith, near t refl))

time_grace_iff :
    (mean : ℕ) (o : Option ℕ)
    → (check_grace default_grace mean (opt_pos o) ≡ [])
      ↔ ((t : ℕ) → o ≡ some t → IsNear mean (pos t))
unfolding check_grace
time_grace_iff mean none = (λ _ t e. cc, λ _. refl)
time_grace_iff mean (some t) = (λ h m e. ground arith, λ near. ground (arith, near t refl))

check_tod_iff :
    (g : ProposalGroup) (sun : Option SunMinutes) (today : ℕ) (t : Trigger)
    → (check_tod default_grace g sun today t ≡ []) ↔ FitsTod g sun today t
unfolding check_tod
check_tod_iff g sun today (time_trigger at) = time_grace_iff g.mean_minutes (parse_hms at)
check_tod_iff g none today (sun_trigger event offset) = (λ h. cc, λ h. absurd h)
check_tod_iff g (some sun) today (sun_trigger event offset) =
    check_grace_iff g.mean_minutes (sun_minute event offset (sun today))
check_tod_iff g sun today (state_trigger e to from) = (λ h. cc, λ h. absurd h)

check_pair_iff : (g : ProposalGroup) (t : Trigger) → (check_pair g t ≡ []) ↔ FitsPair g t
unfolding check_pair
check_pair_iff g (state_trigger e to from) = (
  λ h. (
    (opt_eq_iff (some e) g.trigger_entity_id).0 (ground arith),
    (opt_eq_iff (some to) g.trigger_state).0 (ground arith),
  ),
  λ (he, hs). ground (
    arith,
    (opt_eq_iff (some e) g.trigger_entity_id).1 he,
    (opt_eq_iff (some to) g.trigger_state).1 hs,
  ),
)
check_pair_iff g (time_trigger _) = (λ h. cc, λ h. absurd h)
check_pair_iff g (sun_trigger _ _) = (λ h. cc, λ h. absurd h)

check_kind_iff :
    (b : Bool) (g : ProposalGroup) (sun : Option SunMinutes) (today : ℕ) (t : Trigger)
    → ((if b then check_tod default_grace g sun today t else check_pair g t) ≡ [])
      ↔ FitsKind b g sun today t
check_kind_iff true g sun today t = check_tod_iff g sun today t
check_kind_iff false g sun today t = check_pair_iff g t

check_trigger_iff :
    (g : ProposalGroup) (sun : Option SunMinutes) (today : ℕ) (ts : List Trigger)
    → (check_trigger default_grace g sun today ts ≡ []) ↔ FitsTrigger g sun today ts
unfolding check_trigger
check_trigger_iff g sun today [] = (λ _. tt, λ _. refl)
check_trigger_iff g sun today (t ∷ _) = check_kind_iff (is_time_of_day g.kind) g sun today t

messages_iff :
    (g : ProposalGroup) (domains : Dict String) (sun : Option SunMinutes) (today : ℕ)
    (a : Automation)
    → (messages g domains sun today a ≡ []) ↔ IsAccepted g domains sun today a
unfolding messages
messages_iff g domains sun today a = (
  λ h.
      let (first, later) =
        append-eq-nil (check_entities (allowed_entities g) domains (referenced a)) _ h in
      let (second, third) = append-eq-nil (check_actions domains a.action) _ later in
      record {
        known = (check_entities_iff (allowed_entities g) domains (referenced a)).0 first;
        services = (check_actions_iff domains a.action).0 second;
        trigger = (check_trigger_iff g sun today a.trigger).0 third;
      },
  λ ok. rw (
    (check_entities_iff (allowed_entities g) domains (referenced a)).1 ok.known,
    (check_actions_iff domains a.action).1 ok.services,
    (check_trigger_iff g sun today a.trigger).1 ok.trigger,
  ),
)

verdict-some :
    {a b : Automation} (ms : List Message) → (verdict b ms).0 ≡ some a → (b ≡ a) × (ms ≡ [])
verdict-some [] h = (ground arith, refl)
verdict-some (m ∷ ms) h = cc

verdict-nil : (a : Automation) (ms : List Message) → ms ≡ [] → verdict a ms ≡ (some a, [])
verdict-nil a [] e = refl
verdict-nil a (m ∷ ms) e = cc

verdict-messages :
    (b : Automation) (ms : List Message)
    → ((verdict b ms).1 ≡ []) ↔ ((a : Automation) × ((verdict b ms).0 ≡ some a))
verdict-messages b [] = (λ _. (b, refl), λ _. refl)
verdict-messages b (m ∷ ms) = (λ h. absurd (cc), λ (a, h). absurd (cc))

module _ (g : ProposalGroup) (domains : Dict String) (sun : Option SunMinutes) (today : ℕ) where
  judge_iff :
      (o : Option Automation) (a : Automation)
      → ((judge g domains sun today o).0 ≡ some a)
        ↔ ((o ≡ some a) × IsAccepted g domains sun today a)
  unfolding judge
  judge_iff none a = (λ h. absurd (cc), λ (h, _). absurd (cc))
  judge_iff (some b) a = (
    λ h.
        let (same, clean) = verdict-some (messages g domains sun today b) h in
        (
          ap some same,
          subst (IsAccepted g domains sun today) same
              ((messages_iff g domains sun today b).0 clean),
        ),
    λ (same, ok).
        let back : a ≡ b = ground arith in
        ground (
          arith,
          back,
          verdict-nil b (messages g domains sun today b) (
              (messages_iff g domains sun today b).1
                (subst (IsAccepted g domains sun today) back ok)),
        ),
  )

  judge-messages :
      (o : Option Automation)
      → ((judge g domains sun today o).1 ≡ [])
        ↔ ((a : Automation) × ((judge g domains sun today o).0 ≡ some a))
  unfolding judge
  judge-messages none = (λ h. absurd (cc), λ (a, h). absurd (cc))
  judge-messages (some b) = verdict-messages b (messages g domains sun today b)

module _ (decode : Json → Option Automation) (g : ProposalGroup) (domains : Dict String)
    (sun : Option SunMinutes) (today : ℕ) (json : Json) where
  -- A draft is accepted exactly if it parses, its fields are valid, every entity that it names is
  -- of the mined group and registered, every service is allowed and of its entities' domain, and
  -- its trigger fits the mined one (a pair) or the mined time of day (within the grace period).
  pub validate_proposal_iff :
      (a : Automation)
      → ((validate_proposal decode g domains sun today json).0 ≡ some a)
        ↔ ((model_validate decode json ≡ some a) × IsAccepted g domains sun today a)
  unfolding validate_proposal
  validate_proposal_iff a = judge_iff g domains sun today (model_validate decode json) a

  -- A draft is accepted exactly if there is no message about it.
  pub validate_proposal-messages :
      ((validate_proposal decode g domains sun today json).1 ≡ [])
      ↔ ((a : Automation) × ((validate_proposal decode g domains sun today json).0 ≡ some a))
  unfolding validate_proposal
  validate_proposal-messages = judge-messages g domains sun today (model_validate decode json)
