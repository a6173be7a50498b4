-- ===== src/Miner/Run/Kept.antt =====
-- What a run of the miner (src/pae/miner/service.py) leaves as it is in the stored patterns.
use hass_ai.Prelude.{
  ℕ, ◌-◌, ◌*◌, ◌≤◌, ◌≡◌, refl, sym, ap, ◌∙◌, inl, inr, Bool-cases, String, List, [], ◌∷◌, ◌++◌, map,
  any, is_empty, update_where, All, All-append, append_assoc, append-nil,
}
use hass_ai.Db.Models.{Pattern, PatternStatus, candidate}
use hass_ai.Miner.Stats.{minute}
use hass_ai.Miner.Types.{MinedEvent, PatternCandidate}
use hass_ai.Miner.Upsert.{refresh, as_row, has_pattern_key, upsert_one, upsert_patterns}
use hass_ai.Miner.Upsert.Keys.{pattern_count, upsert_patterns-once}
use hass_ai.Miner.Run.{MinerSettings, load_events, mined, run_mining}

-- The key and the status of each pattern, in the order of the table.
abbrev pub statuses : List Pattern → List (String × PatternStatus)
statuses ps = map (λ p. (p.pattern_key, p.status)) ps

-- The rows stay, and those that are added are candidates.
abbrev pub IsGrown : List Pattern → List Pattern → Type 0
IsGrown ps qs =
    (fresh : List (String × PatternStatus)) × (statuses qs ≡ statuses ps ++ fresh)
    × All (λ f. f.1 ≡ candidate) fresh

IsGrown-trans : (ps qs rs : List Pattern) → IsGrown ps qs → IsGrown qs rs → IsGrown ps rs
IsGrown-trans ps qs rs (fresh, e, h) (more, d, k) = (
  fresh ++ more,
  d ∙ ap (λ l. l ++ more) e ∙ append_assoc (statuses ps) fresh more,
  All-append (λ f. f.1 ≡ candidate) fresh more h k,
)

statuses-append : (ps qs : List Pattern) → statuses (ps ++ qs) ≡ statuses ps ++ statuses qs
statuses-append [] qs = refl
statuses-append (p ∷ ps) qs = ap (λ l. (p.pattern_key, p.status) ∷ l) (statuses-append ps qs)

statuses-refresh :
    (c : PatternCandidate) (mined_at : ℕ) (key : String) (ps : List Pattern)
    → statuses (update_where (has_pattern_key key) (refresh c mined_at) ps) ≡ statuses ps
statuses-refresh c mined_at key [] = refl
statuses-refresh c mined_at key (p ∷ ps) = elim (Bool-cases (has_pattern_key key p)) [
  | inl hit ↦ rw hit (ap (λ l. (p.pattern_key, p.status) ∷ l) (statuses-refresh c mined_at key ps))
  | inr miss ↦
      rw miss (ap (λ l. (p.pattern_key, p.status) ∷ l) (statuses-refresh c mined_at key ps))
]

upsert_one-IsGrown :
    (mined_at : ℕ) (c : PatternCandidate) (ps : List Pattern)
    → IsGrown ps (upsert_one mined_at c ps)
unfolding upsert_one
upsert_one-IsGrown mined_at c ps = elim (Bool-cases (any (has_pattern_key c.pattern_key) ps)) [
  | inl known ↦
      rw known
        ([], statuses-refresh c mined_at c.pattern_key ps ∙ sym (append-nil (statuses ps)), tt)
  | inr fresh ↦
      rw fresh
        ((c.pattern_key, candidate) ∷ [], statuses-append ps (as_row c mined_at ∷ []), (refl, tt))
]

upsert_patterns-IsGrown :
    (mined_at : ℕ) (cs : List PatternCandidate) (ps : List Pattern)
    → IsGrown ps (upsert_patterns mined_at cs ps)
unfolding upsert_patterns
upsert_patterns-IsGrown mined_at [] ps = ([], sym (append-nil (statuses ps)), tt)
upsert_patterns-IsGrown mined_at (c ∷ cs) ps =
    IsGrown-trans ps (upsert_one mined_at c ps)
      (upsert_patterns mined_at cs (upsert_one mined_at c ps)) (upsert_one-IsGrown mined_at c ps)
      (upsert_patterns-IsGrown mined_at cs (upsert_one mined_at c ps))

-- A run of the miner removes no pattern and changes no key and no status: behind the stored rows, in their
-- order, it only adds rows, which are candidates. No key stands in two rows behind it if it did not before.
pub run_mining-IsGrown :
    (s : MinerSettings) (now : ℕ) (rows : List MinedEvent) (key : String) (ps : List Pattern)
    → pattern_count key ps ≤ 1
    → IsGrown ps (run_mining s now rows ps).0 × (pattern_count key (run_mining s now rows ps).0 ≤ 1)
unfolding run_mining
run_mining-IsGrown s now rows key ps once =
    let events = load_events (now - s.lookback_days * (1440 * minute)) rows in
    elim (Bool-cases (is_empty events)) [
      | inl nothing ↦ rw nothing (([], sym (append-nil (statuses ps)), tt), once)
      | inr found ↦ rw found (
        upsert_patterns-IsGrown now (mined s events ps) ps,
        upsert_patterns-once key now (mined s events ps) ps once,
      )
    ]
