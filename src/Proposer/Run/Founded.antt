-- ===== src/Proposer/Run/Founded.antt =====
-- Where the proposals come from that are stored behind a run of the proposer (src/pae/proposer/service.py).
use hass_ai.Prelude.{
  sym, subst, any, true, false, String, str_eq, lookup, Bool-cases, ℕ, ◌+◌, ◌<◌, ◌≤◌, ◌≡◌, refl, ap,
  arith, none, some, Option-cases, inl, inr, ◌⊎◌, List, [], ◌∷◌, ◌++◌, All, All-append, All-imp,
  All-update_where, In-All, In,
}
use hass_ai.Db.Models.{Proposal, Database}
use hass_ai.Ingest.Registry.{RegistryRow}
use hass_ai.Proposer.Group.{ProposalGroup}
use hass_ai.Proposer.Service.{Draft}
use hass_ai.Proposer.Service.Groups.{IsFounded, process_groups-IsFounded}
use hass_ai.Proposer.Lifecycle.{
  is_keyed_as, repeats_key, touch_live, revive_stale, proposal_of, insert_drafts, mark_proposed,
  gone_stale, mark_stale, revert_patterns, sweep, has_id, Writes, write_run, ids_of,
}
use hass_ai.Proposer.Lifecycle.Tracks.{IsKeyed, IsAscending, Preserves}
use hass_ai.Proposer.Lifecycle.Terminal.{write_run-Preserves}
use hass_ai.Proposer.Run.{
  result_of, decisions, ProposerSettings, ProposeResult, registry_domains, existing_statuses,
  run_groups, writes_of, cutoff, run_with, run_proposing,
}

-- The proposal has the group, the automation, the title, the rationale and the patterns of a draft.
abbrev pub IsOfDraft : Proposal → Draft → Type 0
IsOfDraft p d =
    (p.group_key ≡ d.group_key)
    × (p.automation_json ≡ d.automation_json)
    × (p.title ≡ d.title)
    × (p.rationale ≡ d.rationale)
    × (p.source_pattern_keys ≡ d.source_pattern_keys)

module _ (first_id : ℕ) (drafts : List Draft) where
  -- A proposal from before, by its identity, or one of the drafts.
  abbrev pub IsKnown : Proposal → Type 0
  IsKnown p = (p.id < first_id) ⊎ ((d : Draft) × In d drafts × IsOfDraft p d)

  insert_drafts-IsKnown :
      (now : ℕ) (ds : List Draft) (db : Database)
      → ((d : Draft) → In d ds → In d drafts)
      → All IsKnown db.proposals
      → All IsKnown (insert_drafts now ds db).proposals
  unfolding insert_drafts
  insert_drafts-IsKnown now [] db sub h = h
  insert_drafts-IsKnown now (d ∷ ds) db sub h =
      insert_drafts-IsKnown now ds
        (record db {
          proposals = db.proposals ++ proposal_of db.next_id now d ∷ [];
          next_id = db.next_id + 1;
        })
        (λ e m. sub e (inr m))
        (All-append IsKnown db.proposals (proposal_of db.next_id now d ∷ []) h
          (inr (d, sub d (inl refl), (refl, refl, refl, refl, refl)), tt))

  write_run-IsKnown :
      (now cutoff : ℕ) (w : Writes) (db : Database)
      → ((d : Draft) → In d w.inserts → In d drafts)
      → All IsKnown db.proposals
      → All IsKnown (write_run now cutoff w db).proposals
  unfolding write_run touch_live revive_stale mark_proposed sweep mark_stale revert_patterns
  write_run-IsKnown now cutoff w db sub h =
      let d1 = touch_live now w.live_keys db in
      let d2 = revive_stale now w.stale_keys d1 in
      let d3 = mark_proposed w.status_updates (insert_drafts now w.inserts d2) in
      let h1 : All IsKnown d1.proposals = All-update_where IsKnown _ _ db.proposals (λ p k. k) h in
      let h2 : All IsKnown d2.proposals = All-update_where IsKnown _ _ d1.proposals (λ p k. k) h1 in
      let h3 : All IsKnown d3.proposals = insert_drafts-IsKnown now w.inserts d2 sub h2 in
      All-update_where IsKnown (has_id (ids_of (gone_stale cutoff d3))) _ d3.proposals (λ p k. k) h3

ascending-high : (low high : ℕ) (ps : List Proposal) → IsAscending low ps high → low ≤ high
ascending-high low high [] h = h
ascending-high low high (p ∷ ps) h =
    let above = ascending-high (p.id + 1) high ps h.1 in omega (arith, h.0, above)

ascending-below :
    (low high : ℕ) (ps : List Proposal) → IsAscending low ps high → All (λ p. p.id < high) ps
ascending-below low high [] h = tt
ascending-below low high (p ∷ ps) h =
    let above = ascending-high (p.id + 1) high ps h.1 in
    (omega (arith, above), ascending-below (p.id + 1) high ps h.1)

-- No proposal has a group key that the run found to have none.
lookup-none :
    (key : String) (ps : List Proposal)
    → lookup key (existing_statuses ps) ≡ none
    → any (is_keyed_as key) ps ≡ false
unfolding lookup
lookup-none key [] h = refl
lookup-none key (p ∷ ps) h = elim (Bool-cases (str_eq p.group_key key)) [
  | inl same ↦ absurd (ground (arith, same))
  | inr other ↦ ground (arith, other, lookup-none key ps (ground (arith, other)))
]

-- What the tables hold behind a run of these groups.
abbrev pub IsRun :
    {S : Type 0}
    → ProposerSettings S
    → List RegistryRow
    → S
    → Database
    → Database
    → List ProposalGroup
    → Type 0
IsRun s registry llm_state db after groups =
    All
      (λ p.
        (p.id < db.next_id)
        ⊎ ((d : Draft) × IsFounded s.llm s.decode s.dump (registry_domains registry) s.sun s.today
              s.now (existing_statuses db.proposals) groups d
            × IsOfDraft p d))
      after.proposals
    × Preserves db after

module _ {S : Type 0} (s : ProposerSettings S) (registry : List RegistryRow) (llm_state : S)
    (db : Database) (groups : List ProposalGroup) where
  abbrev IsFoundedRow : Draft → Type 0
  IsFoundedRow =
      IsFounded s.llm s.decode s.dump (registry_domains registry) s.sun s.today s.now
        (existing_statuses db.proposals) groups

  IsFounded-new :
      (ds : List Draft)
      → All IsFoundedRow ds
      → any (λ d. any (is_keyed_as d.group_key) db.proposals) ds ≡ false
  IsFounded-new [] h = refl
  IsFounded-new (d ∷ ds) h =
      let first = h.0 in
      let same : first.group.group_key ≡ d.group_key =
        sym (ap (λ (e : Draft). e.group_key) first.backed.stored) in
      let fresh : any (is_keyed_as d.group_key) db.proposals ≡ false =
        subst (λ k. any (is_keyed_as k) db.proposals ≡ false) same
          (lookup-none first.group.group_key db.proposals first.new) in
      ground (arith, fresh, IsFounded-new ds h.1)

  -- Behind the statements of the transaction.
  write_run-IsRun :
      IsKeyed db
      → IsRun s registry llm_state db
          (write_run s.now (cutoff s registry) (writes_of s registry db llm_state groups) db)
          groups
  write_run-IsRun keyed =
      let w = writes_of s registry db llm_state groups in
      let founded =
        process_groups-IsFounded s.llm s.decode s.dump (registry_domains registry) s.sun s.today
          s.now (existing_statuses db.proposals) llm_state groups in
      let known =
        write_run-IsKnown db.next_id w.inserts s.now (cutoff s registry) w db (λ d m. m)
          (All-imp (λ p. p.id < db.next_id) (IsKnown db.next_id w.inserts) db.proposals
            (λ p low. inl low) (ascending-below 0 db.next_id db.proposals keyed)) in
      (
        All-imp (IsKnown db.next_id w.inserts) _
            (write_run s.now (cutoff s registry) w db).proposals
            (λ p k. elim k [
              | inl low ↦ inl low
              | inr (d, m, same) ↦ inr (d, In-All d IsFoundedRow w.inserts founded m, same)
            ])
            known,
        write_run-Preserves s.now (cutoff s registry) w db keyed,
      )

  -- The run once the groups are built.
  run_with-IsRun :
      IsKeyed db
      → ((repeats_key (decisions s registry db llm_state groups).inserts ≡ true)
          × (run_with s registry db llm_state (some groups) ≡ none))
        ⊎ ((after : Database) × (result : ProposeResult) × (run_with s registry db llm_state
                (some groups)
              ≡ some (after, result))
            × IsRun s registry llm_state db after groups)
  run_with-IsRun keyed =
      let inserts = (decisions s registry db llm_state groups).inserts in
      let fresh = IsFounded-new inserts (
        process_groups-IsFounded s.llm s.decode s.dump (registry_domains registry) s.sun s.today
          s.now (existing_statuses db.proposals) llm_state groups) in
      elim (Bool-cases (repeats_key inserts)) [
        | inl twice ↦ inl (twice, rw (fresh, twice) refl)
        | inr once ↦ inr (
          write_run s.now (cutoff s registry) (writes_of s registry db llm_state groups) db,
          result_of s registry db llm_state groups,
          rw (fresh, once) refl,
          write_run-IsRun keyed,
        )
      ]

-- From tables with ascending identities a run of the proposer raises where the grouping does or where two
-- of the rows to insert have one group key, and else every proposal behind it is one from before or has the
-- group, automation, title, rationale and patterns of an accepted draft for a group of the run that had no
-- proposal; each proposal from before keeps its row, and what was rejected stays rejected.
pub run_proposing-IsRun :
    {S : Type 0} (s : ProposerSettings S) (registry : List RegistryRow) (llm_state : S)
    (db : Database)
    → IsKeyed db
    → ((run_groups s registry db ≡ none) × (run_proposing s registry db llm_state ≡ none))
      ⊎ ((groups : List ProposalGroup) × (run_groups s registry db ≡ some groups)
          × (((repeats_key (decisions s registry db llm_state groups).inserts ≡ true)
                × (run_proposing s registry db llm_state ≡ none))
              ⊎ ((after : Database) × (result : ProposeResult) × (run_proposing s registry db
                      llm_state
                    ≡ some (after, result))
                  × IsRun s registry llm_state db after groups)))
unfolding run_proposing
run_proposing-IsRun s registry llm_state db keyed = elim (Option-cases (run_groups s registry db)) [
  | inl raises ↦ inl (raises, ap (λ o. run_with s registry db llm_state o) raises)
  | inr (groups, grouped) ↦
      inr (groups, grouped, rw grouped (run_with-IsRun s registry llm_state db groups keyed))
]
