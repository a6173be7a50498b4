-- ===== src/Proposer/Lifecycle/Terminal.antt =====
-- Statuses over any sequence of changes (src/pae/proposer/service.py, src/pae/proposer/repo.py).
use hass_ai.Prelude.{
  ℕ, String, refl, Option, none, List, [], ◌∷◌, arith, any, Bool-cases, inl, inr, is_empty,
}
use hass_ai.Db.Models.{Status, Pattern, Database}
use hass_ai.Proposer.Lifecycle.{
  touch_live, revive_stale, insert_drafts, mark_proposed, Writes, breaks_index, write_run,
  apply_run, Step, approve, reject, run, mine, score, Reach, here, next,
}
use hass_ai.Miner.Types.{PatternCandidate}
use hass_ai.Miner.Upsert.{refresh, has_pattern_key, upsert_one, upsert_patterns}
use hass_ai.Proposer.Repo.{
  is_settable, source_keys, cascade, set_status, approve_proposal, reject_proposal,
}
use hass_ai.Proposer.Lifecycle.Tracks.{
  Tracks, Tracks-refl, Tracks-trans, Tracks-append, Tracks-update_where, Lasts, PatternLasts,
  Lasts-refl, PatternLasts-refl, PatternLasts-trans, IsKeyed, Preserves, Preserves-refl,
  Preserves-trans, update-proposals, update-patterns,
}
use hass_ai.Proposer.Lifecycle.Statements.{
  touch_live-Preserves, revive_stale-Preserves, mark_proposed-Preserves, insert_drafts-Preserves,
  sweep-Preserves,
}

pub write_run-Preserves :
    (now cutoff : ℕ) (w : Writes) (db : Database)
    → IsKeyed db
    → Preserves db (write_run now cutoff w db)
unfolding write_run
write_run-Preserves now cutoff w db keyed =
    let d1 = touch_live now w.live_keys db in
    let d2 = revive_stale now w.stale_keys d1 in
    let d3 = insert_drafts now w.inserts d2 in
    let first = Preserves-trans (touch_live-Preserves now w.live_keys db) (
      Preserves-trans (revive_stale-Preserves now w.stale_keys d1) (
        Preserves-trans (insert_drafts-Preserves now w.inserts d2)
          (mark_proposed-Preserves w.status_updates d3))) in
    Preserves-trans first
      (sweep-Preserves now cutoff (mark_proposed w.status_updates d3) (first.keyed keyed))

apply_run-Preserves :
    (now cutoff : ℕ) (w : Writes) (db : Database)
    → IsKeyed db
    → Preserves db (apply_run now cutoff w db)
unfolding apply_run
apply_run-Preserves now cutoff w db keyed =
    elim (Bool-cases (breaks_index w.inserts db.proposals)) [
      | inl raises ↦ rw raises (Preserves-refl db)
      | inr free ↦ rw free (write_run-Preserves now cutoff w db keyed)
    ]

cascade-Preserves : (status : Status) (id : ℕ) (db : Database) → Preserves db (cascade status id db)
cascade-Preserves Status.rejected id db =
    elim (Bool-cases (is_empty (source_keys id db.proposals))) [
      | inl bare ↦ rw bare (Preserves-refl db)
      | inr full ↦ rw full (update-patterns _ _ db (λ p h. (refl, λ e. refl)))
    ]
cascade-Preserves Status.shadowing id db = Preserves-refl db
cascade-Preserves Status.approved id db = Preserves-refl db
cascade-Preserves Status.stale id db = Preserves-refl db

set_status-Preserves :
    (id : ℕ) (status : Status) (reason : Option String) (now : ℕ) (db : Database)
    → Preserves db (set_status id status reason now db).0
unfolding set_status
set_status-Preserves id status reason now db =
    elim (Bool-cases (any (is_settable id) db.proposals)) [
      | inl hit ↦ rw hit (
          Preserves-trans
            (update-proposals (is_settable id)
              (λ p. record p { status = status; reject_reason = reason; updated_at = now }) db
              (λ p. refl) (λ p m h. (refl, refl, λ e. absurd (ground arith))))
            (cascade-Preserves status id _))
      | inr miss ↦ rw miss (Preserves-refl db)
    ]

upsert_one-Tracks :
    (mined_at : ℕ) (c : PatternCandidate) (ps : List Pattern)
    → Tracks PatternLasts ps (upsert_one mined_at c ps)
unfolding upsert_one
upsert_one-Tracks mined_at c ps = elim (Bool-cases (any (has_pattern_key c.pattern_key) ps)) [
  | inl known ↦ rw known (
      Tracks-update_where PatternLasts (has_pattern_key c.pattern_key) (refresh c mined_at)
        PatternLasts-refl ps (λ p m h. (refl, λ e. e)))
  | inr fresh ↦ rw fresh (Tracks-append PatternLasts PatternLasts-refl ps _)
]

upsert_patterns-Tracks :
    (mined_at : ℕ) (cs : List PatternCandidate) (ps : List Pattern)
    → Tracks PatternLasts ps (upsert_patterns mined_at cs ps)
unfolding upsert_patterns
upsert_patterns-Tracks mined_at [] ps = Tracks-refl PatternLasts PatternLasts-refl ps
upsert_patterns-Tracks mined_at (c ∷ cs) ps =
    Tracks-trans PatternLasts PatternLasts-trans ps (upsert_one mined_at c ps) _
      (upsert_one-Tracks mined_at c ps)
      (upsert_patterns-Tracks mined_at cs (upsert_one mined_at c ps))

Step-Preserves : {db db' : Database} → Step db db' → IsKeyed db → Preserves db db'
unfolding approve_proposal reject_proposal
Step-Preserves (approve id now db) keyed = set_status-Preserves id Status.approved none now db
Step-Preserves (reject id now reason db) keyed =
    set_status-Preserves id Status.rejected reason now db
Step-Preserves (run now cutoff w db) keyed = apply_run-Preserves now cutoff w db keyed
Step-Preserves (mine mined_at cs db) keyed = record {
  proposals = Tracks-refl Lasts Lasts-refl db.proposals;
  patterns = upsert_patterns-Tracks mined_at cs db.patterns;
  keyed = λ k. k;
}
Step-Preserves (score rows db) keyed = record {
  proposals = Tracks-refl Lasts Lasts-refl db.proposals;
  patterns = Tracks-refl PatternLasts PatternLasts-refl db.patterns;
  keyed = λ k. k;
}

-- Whatever the operator and the jobs do from a state with distinct identities, one after the other: each
-- proposal keeps its row, its identity and its group, a rejected proposal stays rejected with its
-- reason, a rejected pattern stays rejected, and the identities stay distinct.
pub Reach-Preserves : {db db' : Database} → IsKeyed db → Reach db db' → Preserves db db'
Reach-Preserves {db} keyed here = Preserves-refl db
Reach-Preserves keyed (next r s) =
    let so_far = Reach-Preserves keyed r in
    Preserves-trans so_far (Step-Preserves s (so_far.keyed keyed))
