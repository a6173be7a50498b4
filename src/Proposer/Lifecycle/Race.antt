-- ===== src/Proposer/Lifecycle/Race.antt =====
-- The staleness sweep (src/pae/proposer/service.py) on a proposal that the operator decided on.
use hass_ai.Prelude.{
  In, true, inl, inr, refl, Bool, any, filter, nat_eq, update_where, map, eq_refl, ℕ, ◌<◌, String,
  ◌≡◌, Option, List, [], ◌∷◌, arith,
}
use hass_ai.Db.Models.{Status, Pattern, Proposal, Database}
use hass_ai.Proposer.Repo.{is_settable, cascade, set_status, reject_proposal}
use hass_ai.Proposer.Lifecycle.{
  has_lapsed, has_id, gone_stale, mark_stale, ids_of, sweep, revive_stale,
}

-- The statuses of the proposals.
abbrev pub statuses : Database → List Status
statuses db = map (λ p. p.status) db.proposals

abbrev pub single : Proposal → List Pattern → ℕ → Database
single p patterns n = record {
  patterns = patterns;
  proposals = p ∷ [];
  shadow_results = [];
  next_id = n;
}

proposals-cascade :
    (id : ℕ) (db : Database) → (cascade Status.rejected id db).proposals ≡ db.proposals
proposals-cascade id db = ground arith

In-update_where :
    (test : Proposal → Bool) (f : Proposal → Proposal) (p : Proposal) (ps : List Proposal)
    → In p ps
    → test p ≡ true
    → In (f p) (update_where test f ps)
In-update_where test f p [] m h = absurd m
In-update_where test f p (q ∷ ps) (inl e) h = inl (rw (← e, h) refl)
In-update_where test f p (q ∷ ps) (inr m) h = inr (In-update_where test f p ps m h)

In-any :
    (test : Proposal → Bool) (p : Proposal) (ps : List Proposal)
    → In p ps
    → test p ≡ true
    → any test ps ≡ true
In-any test p [] m h = absurd m
In-any test p (q ∷ ps) (inl e) h = rw (← e, h) refl
In-any test p (q ∷ ps) (inr m) h = ground (arith, In-any test p ps m h)

lapsed-id :
    (cutoff : ℕ) (p : Proposal) (ps : List Proposal)
    → In p ps
    → has_lapsed cutoff p ≡ true
    → any (nat_eq p.id) (ids_of (filter (has_lapsed cutoff) ps)) ≡ true
lapsed-id cutoff p [] m h = absurd m
lapsed-id cutoff p (q ∷ ps) (inl e) h = rw (← e, h) (ground arith)
lapsed-id cutoff p (q ∷ ps) (inr m) h = ground (arith, lapsed-id cutoff p ps m h)

-- The row after its rejection, and the same as the sweep leaves it.
abbrev pub rejected_row : Option String → ℕ → Proposal → Proposal
rejected_row reason now p = record p {
  status = Status.rejected;
  reject_reason = reason;
  updated_at = now;
}

abbrev pub stale_row : ℕ → Proposal → Proposal
stale_row now p = record p { status = Status.stale; updated_at = now }

-- In any tables, for each shadowing proposal that has not been eligible since the cutoff: where the operator
-- rejects it between the two statements of the sweep, of which the first selects rows and the second updates
-- them by identity alone, its row is rejected before the second statement and stale behind it.
pub mark_stale-reject :
    (db : Database) (p : Proposal) (reason : Option String) (now later cutoff : ℕ)
    → In p db.proposals
    → p.status ≡ Status.shadowing
    → p.last_eligible_at < cutoff
    → let decided = reject_proposal p.id reason now db in
      In (rejected_row reason now p) decided.proposals
      × In
          (stale_row later (rejected_row reason now p))
          (mark_stale later (ids_of (gone_stale cutoff db)) decided).proposals
unfolding reject_proposal set_status gone_stale mark_stale
mark_stale-reject db p reason now later cutoff m waiting old =
    let open_ : is_settable p.id p ≡ true = ground (arith, waiting) in
    let there = In-any (is_settable p.id) p db.proposals m open_ in
    let updated = update_where (is_settable p.id) (rejected_row reason now) db.proposals in
    let rejected : In (rejected_row reason now p) updated =
      In-update_where (is_settable p.id) (rejected_row reason now) p db.proposals m open_ in
    let selected = lapsed-id cutoff p db.proposals m (ground (arith, waiting, old)) in
    rw
      (
        reject_proposal,
        set_status,
        there,
        proposals-cascade p.id (record db { proposals = updated }),
      )
      (
        rejected,
        In-update_where (has_id (ids_of (filter (has_lapsed cutoff) db.proposals)))
            (stale_row later) (rejected_row reason now p) updated rejected selected,
      )

-- An approval does not outlast a lapse either: the sweep makes an approved proposal stale once its group
-- has not been eligible since the cutoff, and the revival of its group makes it a shadowing one.
pub sweep-approved :
    (p : Proposal) (patterns : List Pattern) (now cutoff later n : ℕ)
    → p.status ≡ Status.approved
    → p.last_eligible_at < cutoff
    → (statuses (sweep now cutoff (single p patterns n)) ≡ Status.stale ∷ [])
      × (statuses (revive_stale later (p.group_key ∷ []) (sweep now cutoff (single p patterns n)))
          ≡ Status.shadowing ∷ [])
unfolding sweep revive_stale
sweep-approved p patterns now cutoff later n approved old =
    (ground arith, ground (arith, eq_refl p.group_key))
