-- ===== src/Proposer/Repo.antt =====
-- What the review UI does to the tables (src/pae/proposer/repo.py, src/pae/api/proposals.py). A ratio
-- that a threshold is compared with is not divided: both sides are multiplied by the denominator.
pub mod Ready
use hass_ai.Prelude.{
  ℕ, zero, suc, ◌+◌, ◌-◌, ◌*◌, String, Bool, true, false, ◌&&◌, Option, none, some, List, [], ◌∷◌,
  length, last_n, sum_by, filter, any, update_where, ltb, leb, nat_eq, elem, is_empty,
  if◌then◌else◌, max,
}
use hass_ai.Prelude.Sort.{sort_by}
use hass_ai.Db.Models.{
  Status, PatternStatus, is_proposed, Pattern, Proposal, ShadowResult, Database,
}

-- The unit of a stored ratio: 1.0 is 10000.
abbrev pub one : ℕ
one = 10000

-- _ready_fetch_limit
unfoldable pub ready_fetch_limit : ℕ → ℕ
ready_fetch_limit min_days = max min_days 14

abbrev pub expected_sum : List ShadowResult → ℕ
expected_sum rows = sum_by (λ h. h.expected_fires) rows

abbrev pub match_sum : List ShadowResult → ℕ
match_sum rows = sum_by (λ h. h.human_matches) rows

abbrev pub total_sum : List ShadowResult → ℕ
total_sum rows = sum_by (λ h. h.human_total) rows

unfoldable pub ready : List ShadowResult → ℕ → ℕ → ℕ → Bool
ready history min_days min_precision min_coverage =
    if ltb (length history) min_days
    then false
    else (let window = last_n 14 history in
        let expected = expected_sum window in
        let matched = match_sum window in
        let total = total_sum window in
        if leb expected 0
        then false
        else if leb total 0
        then false
        else leb (min_precision * expected) (matched * one)
          && leb (min_coverage * total) (matched * one))

-- The rows of a proposal in ascending order of their day, of which it has one row each.
unfoldable pub own_rows : List ShadowResult → ℕ → List ShadowResult
unfolding sort_by
own_rows rows id = sort_by (λ r. r.day) (filter (λ r. nat_eq r.proposal_id id) rows)

-- `order_by(day.desc()).limit(n)`, reversed: the newest `n` rows in ascending order.
unfoldable pub shadow_history : List ShadowResult → ℕ → ℕ → List ShadowResult
unfolding own_rows
shadow_history rows id n = last_n n (own_rows rows id)

-- `ready` of a proposal in the list page.
unfoldable pub list_ready : List ShadowResult → ℕ → ℕ → ℕ → ℕ → Bool
list_ready rows min_days min_precision min_coverage id =
    ready (shadow_history rows id (ready_fetch_limit min_days)) min_days min_precision min_coverage

-- `ready` of the detail page, which fetches 30 rows.
unfoldable pub detail_ready : List ShadowResult → ℕ → ℕ → ℕ → ℕ → Bool
detail_ready rows min_days min_precision min_coverage id =
    ready (shadow_history rows id 30) min_days min_precision min_coverage

-- _SET_STATUS_FROM_STATUSES
abbrev pub settable : Status → Bool
settable Status.shadowing = true
settable Status.stale = true
settable Status.approved = false
settable Status.rejected = false

abbrev pub is_settable : ℕ → Proposal → Bool
is_settable id p = nat_eq p.id id && settable p.status

-- The first row of `select(source_pattern_keys).where(id == proposal_id)`.
abbrev pub source_keys : ℕ → List Proposal → List String
source_keys id [] = []
source_keys id (p ∷ ps) =
    let rest = source_keys id ps in if nat_eq p.id id then p.source_pattern_keys else rest

abbrev pub reject_patterns : List String → List Pattern → List Pattern
reject_patterns keys patterns =
    update_where (λ p. elem p.pattern_key keys && is_proposed p.status)
      (λ p. record p { status = PatternStatus.rejected }) patterns

abbrev pub cascade : Status → ℕ → Database → Database
cascade Status.rejected id db =
    if is_empty (source_keys id db.proposals)
    then db
    else record db { patterns = reject_patterns (source_keys id db.proposals) db.patterns }
cascade Status.shadowing id db = db
cascade Status.approved id db = db
cascade Status.stale id db = db

-- The result is whether a row was updated.
unfoldable pub set_status : ℕ → Status → Option String → ℕ → Database → Database × Bool
set_status id status reason now db =
    if any (is_settable id) db.proposals
    then (
      cascade status id (record db {
        proposals =
            update_where (is_settable id)
              (λ p. record p { status = status; reject_reason = reason; updated_at = now })
              db.proposals;
      }),
      true,
    )
    else (db, false)

-- POST /proposals/{id}/approve and /reject
unfoldable pub approve_proposal : ℕ → ℕ → Database → Database
unfolding set_status
approve_proposal id now db = (set_status id Status.approved none now db).0

unfoldable pub reject_proposal : ℕ → Option String → ℕ → Database → Database
unfolding set_status
reject_proposal id reason now db = (set_status id Status.rejected reason now db).0
