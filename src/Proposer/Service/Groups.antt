-- ===== src/Proposer/Service/Groups.antt =====
-- What `_process_groups` of src/pae/proposer/service.py counts and stores.
use hass_ai.Prelude.{
  In, ◌∙◌, ℕ, ◌+◌, ◌≤◌, String, ◌≡◌, refl, Option, none, List, [], ◌∷◌, arith, All, All-append,
  length, length-append, lookup, Dict, inl, inr,
}
use hass_ai.Db.Models.{Json, Status}
use hass_ai.Proposer.Group.{ProposalGroup}
use hass_ai.Proposer.Schema.Automation.{Automation}
use hass_ai.Proposer.Validate.{SunMinutes}
use hass_ai.Proposer.Service.{
  start, Llm, Draft, Counters, Decision, keep_existing, propose, decide, Progress, tally, note,
  process_group, process_from, process_groups,
}
use hass_ai.Proposer.Service.Backed.{Backed, decide-Backed}

-- The counters of a run so far agree with what it has stored.
record Balanced {S : Type 0} (p : Progress S) : Type 0 where
  covered :
      p.counters.generated + p.counters.declined + p.counters.validation_failed
        + p.counters.skipped_existing
      ≤ p.counters.groups_considered
  stored : length p.inserts ≡ p.counters.generated

note-Balanced :
    {S : Type 0} (g : ProposalGroup) (p : Progress S) (s : S) (d : Decision)
    → Balanced p
    → Balanced (note g p (s, d))
note-Balanced g p s (propose d) b = record {
  covered = omega (arith, b.covered);
  stored = omega (arith, b.stored, length-append p.inserts (d ∷ []));
}
note-Balanced g p s keep_existing b = record {
  covered = omega (arith, b.covered);
  stored = omega (arith, b.stored, length-append p.inserts []);
}
note-Balanced g p s _ b = record {
  covered = omega (arith, b.covered);
  stored = omega (arith, b.stored, length-append p.inserts []);
}

tally-considered :
    (d : Decision) (c : Counters) → (tally c d).groups_considered ≡ c.groups_considered
tally-considered (propose d) c = refl
tally-considered keep_existing c = refl
tally-considered _ c = refl

module _ {S : Type 0} (llm : Llm S) (decode : Json → Option Automation) (dump : Automation → Json)
    (domains : Dict String) (sun : Option SunMinutes) (today now : ℕ) where
  module _ (existing : Dict Status) (groups : List ProposalGroup) where
    -- A stored row belongs to a group of the run that had no proposal.
    pub record IsFounded (d : Draft) : Type 0 where
      pub group : ProposalGroup
      pub listed : In group groups
      pub new : lookup group.group_key existing ≡ none
      pub backed : Backed llm decode dump domains sun today now group d

    note-IsFounded :
        (g : ProposalGroup) (p : Progress S) (s : S) (d : Decision)
        → All IsFounded p.inserts
        → ((e : Draft) → d ≡ propose e → IsFounded e)
        → All IsFounded (note g p (s, d)).inserts
    note-IsFounded g p s (propose d) old new =
        All-append IsFounded p.inserts (d ∷ []) old (new d refl, tt)
    note-IsFounded g p s keep_existing old new = All-append IsFounded p.inserts [] old tt
    note-IsFounded g p s _ old new = All-append IsFounded p.inserts [] old tt

    process_from-IsFounded :
        (gs : List ProposalGroup) (p : Progress S)
        → ((g : ProposalGroup) → In g gs → In g groups)
        → All IsFounded p.inserts
        → All IsFounded (process_from llm decode dump domains sun today now existing p gs).inserts
    unfolding process_from process_group
    process_from-IsFounded [] p sub old = old
    process_from-IsFounded (g ∷ gs) p sub old =
        let r =
          decide llm decode dump domains sun today now g (lookup g.group_key existing) p.state in
        process_from-IsFounded gs _ (λ h m. sub h (inr m))
          (note-IsFounded g p r.0 r.1 old λ e made.
            let (new, backed) =
              decide-Backed llm decode dump domains sun today now g (lookup g.group_key existing)
                p.state e made in
            record { group = g; listed = sub g (inl refl); new = new; backed = backed })

  process_from-Balanced :
      (existing : Dict Status) (gs : List ProposalGroup) (p : Progress S)
      → Balanced p
      → Balanced (process_from llm decode dump domains sun today now existing p gs)
  unfolding process_from process_group
  process_from-Balanced existing [] p b = b
  process_from-Balanced existing (g ∷ gs) p b =
      let r =
        decide llm decode dump domains sun today now g (lookup g.group_key existing) p.state in
      process_from-Balanced existing gs _ (note-Balanced g p r.0 r.1 b)

  process_from-considered :
      (existing : Dict Status) (gs : List ProposalGroup) (p : Progress S)
      → (process_from llm decode dump domains sun today now existing p
          gs).counters.groups_considered
        ≡ p.counters.groups_considered + length gs
  unfolding process_from process_group
  process_from-considered existing [] p = omega arith
  process_from-considered existing (g ∷ gs) p =
      let r =
        decide llm decode dump domains sun today now g (lookup g.group_key existing) p.state in
      process_from-considered existing gs (note g p r) ∙ omega (arith, tally-considered r.1)

-- Every row that a run stores belongs to one of its groups that had no proposal of any status, and to an
-- answer that the language model gave to a request about that group: its title and its rationale are those
-- of the answer and not blank, and its automation is the dump of the one that `validate_proposal` accepted for
-- that group without a message.
pub process_groups-IsFounded :
    {S : Type 0} (llm : Llm S) (decode : Json → Option Automation) (dump : Automation → Json)
    (domains : Dict String) (sun : Option SunMinutes) (today now : ℕ) (existing : Dict Status)
    (s : S) (groups : List ProposalGroup)
    → All
        (IsFounded llm decode dump domains sun today now existing groups)
        (process_groups llm decode dump domains sun today now existing s groups).inserts
unfolding process_groups
process_groups-IsFounded llm decode dump domains sun today now existing s groups =
    process_from-IsFounded llm decode dump domains sun today now existing groups groups _ (λ g m. m)
      tt

-- A run considers every group once, counts none under two outcomes, and stores as many rows as it says
-- it generated.
pub process_groups-counters :
    {S : Type 0} (llm : Llm S) (decode : Json → Option Automation) (dump : Automation → Json)
    (domains : Dict String) (sun : Option SunMinutes) (today now : ℕ) (existing : Dict Status)
    (s : S) (groups : List ProposalGroup)
    → let r = process_groups llm decode dump domains sun today now existing s groups in
      (r.counters.groups_considered ≡ length groups)
      × (r.counters.generated + r.counters.declined + r.counters.validation_failed
            + r.counters.skipped_existing
          ≤ r.counters.groups_considered)
      × (length r.inserts ≡ r.counters.generated)
unfolding process_groups
process_groups-counters llm decode dump domains sun today now existing s groups =
    let b =
      process_from-Balanced llm decode dump domains sun today now existing groups (start s)
        (record { covered = omega arith; stored = omega arith }) in
    (
      omega (
        arith,
        process_from-considered llm decode dump domains sun today now existing groups (start s),
      ),
      b.covered,
      b.stored,
    )
