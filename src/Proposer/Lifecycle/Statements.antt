-- ===== src/Proposer/Lifecycle/Statements.antt =====
-- The statements of a proposer run (src/pae/proposer/service.py), one by one.
use hass_ai.Prelude.{
  ◌≤◌, ◌+◌, In, nat_eq, ap, filter, ℕ, String, ◌≡◌, refl, ◌∙◌, true, List, [], ◌∷◌, ◌++◌, arith,
  any, Bool-cases, inl, inr,
}
use hass_ai.Db.Models.{Status, Proposal, Database}
use hass_ai.Proposer.Service.{Draft}
use hass_ai.Proposer.Lifecycle.{
  touch_live, revive_stale, proposal_of, insert_drafts, mark_proposed, has_lapsed, gone_stale,
  has_id, revert_patterns, ids_of, keys_of, sweep,
}
use hass_ai.Proposer.Lifecycle.Tracks.{
  Tracks-refl, Tracks-append, Lasts, PatternLasts, Lasts-refl, PatternLasts-refl, IsAscending,
  IsKeyed, IsAscending-append, Preserves, Preserves-refl, Preserves-trans, update-proposals,
  update-patterns,
}

pub touch_live-Preserves :
    (now : ℕ) (keys : List String) (db : Database) → Preserves db (touch_live now keys db)
unfolding touch_live
touch_live-Preserves now keys db =
    update-proposals _ _ db (λ p. refl) (λ p m h. (refl, refl, λ e. (e, refl)))

pub revive_stale-Preserves :
    (now : ℕ) (keys : List String) (db : Database) → Preserves db (revive_stale now keys db)
unfolding revive_stale
revive_stale-Preserves now keys db =
    update-proposals _ _ db (λ p. refl) (λ p m h. (refl, refl, λ e. absurd (ground arith)))

pub mark_proposed-Preserves :
    (keys : List String) (db : Database) → Preserves db (mark_proposed keys db)
unfolding mark_proposed
mark_proposed-Preserves keys db = update-patterns _ _ db (λ p h. (refl, λ e. absurd (ground arith)))

pub revert_patterns-Preserves :
    (keys : List String) (db : Database) → Preserves db (revert_patterns keys db)
unfolding revert_patterns
revert_patterns-Preserves keys db =
    update-patterns _ _ db (λ p h. (refl, λ e. absurd (ground arith)))

pub insert_drafts-Preserves :
    (now : ℕ) (ds : List Draft) (db : Database) → Preserves db (insert_drafts now ds db)
unfolding insert_drafts
insert_drafts-Preserves now [] db = Preserves-refl db
insert_drafts-Preserves now (d ∷ ds) db =
    Preserves-trans
      {b = record db {
        proposals = db.proposals ++ proposal_of db.next_id now d ∷ [];
        next_id = db.next_id + 1;
      }}
      (record {
        proposals = Tracks-append Lasts Lasts-refl db.proposals (proposal_of db.next_id now d ∷ []);
        patterns = Tracks-refl PatternLasts PatternLasts-refl db.patterns;
        keyed = λ k. IsAscending-append 0 db.next_id db.proposals _ k refl;
      })
      (insert_drafts-Preserves now ds _)

-- Rows of one identity are one row.
pub lapsed-above :
    (cutoff low high : ℕ) (ps : List Proposal) (id : ℕ)
    → IsAscending low ps high
    → any (nat_eq id) (ids_of (filter (has_lapsed cutoff) ps)) ≡ true
    → low ≤ id
lapsed-above cutoff low high [] id asc h = cc
lapsed-above cutoff low high (p ∷ ps) id asc h = elim (Bool-cases (has_lapsed cutoff p)) [
  | inl old ↦ elim (Bool-cases (nat_eq id p.id)) [
    | inl same ↦ ground (arith, same, asc.0)
    | inr other ↦
        omega (
          arith,
          lapsed-above cutoff (p.id + 1) high ps id asc.1 (ground (arith, old, other)),
          asc.0,
        )
  ]
  | inr new ↦
      omega (arith, lapsed-above cutoff (p.id + 1) high ps id asc.1 (ground (arith, new)), asc.0)
]

pub In-above :
    (low high : ℕ) (ps : List Proposal) (p : Proposal)
    → IsAscending low ps high
    → In p ps
    → low ≤ p.id
In-above low high [] p asc m = absurd m
In-above low high (x ∷ xs) p asc (inl e) = omega (arith, asc.0, ap (λ (q : Proposal). q.id) e)
In-above low high (x ∷ xs) p asc (inr m) =
    omega (arith, asc.0, In-above (x.id + 1) high xs p asc.1 m)

pub marked-lapsed :
    (cutoff low high : ℕ) (ps : List Proposal) (p : Proposal)
    → IsAscending low ps high
    → In p ps
    → has_id (ids_of (filter (has_lapsed cutoff) ps)) p ≡ true
    → has_lapsed cutoff p ≡ true
marked-lapsed cutoff low high [] p asc m h = absurd m
marked-lapsed cutoff low high (x ∷ xs) p asc (inl e) h = elim (Bool-cases (has_lapsed cutoff x)) [
  | inl old ↦ ap (has_lapsed cutoff) e ∙ old
  | inr new ↦ absurd (
      omega (
        arith,
        ap (λ (q : Proposal). q.id) e,
        lapsed-above cutoff (x.id + 1) high xs p.id asc.1 (ground (arith, new)),
      ))
]
marked-lapsed cutoff low high (x ∷ xs) p asc (inr m) h =
    let above = In-above (x.id + 1) high xs p asc.1 m in
    marked-lapsed cutoff (x.id + 1) high xs p asc.1 m (ground (arith, above))

pub sweep-Preserves :
    (now cutoff : ℕ) (db : Database) → IsKeyed db → Preserves db (sweep now cutoff db)
unfolding sweep
sweep-Preserves now cutoff db keyed =
    Preserves-trans
      (update-proposals (has_id (ids_of (gone_stale cutoff db)))
        (λ p. record p { status = Status.stale; updated_at = now }) db (λ p. refl)
        (λ p m h.
          let lapsed = marked-lapsed cutoff 0 db.next_id db.proposals p keyed m h in
          (refl, refl, λ e. absurd (ground (arith, lapsed)))))
      (revert_patterns-Preserves (keys_of (gone_stale cutoff db)) _)
