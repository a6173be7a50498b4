-- ===== src/Proposer/Grouping.antt =====
-- `build_groups` of src/pae/proposer/grouping.py. The hash, the number format `:02d` and the trigonometric
-- `circular_mean` are parameters.
pub mod Partition
use Prim.Native.String.{◌++◌ as append}
use hass_ai.Prelude.{
  is_some, not, ℕ, ◌+◌, ◌-◌, ◌/◌, ◌*◌, String, Bool, true, false, ◌&&◌, ◌||◌, Option, none, some,
  List, [], ◌∷◌, ◌++◌, map, filter, any, ltb, nat_eq, str_eq, opt_eq, if◌then◌else◌,
}
use hass_ai.Db.Models.{time_of_day, event_pair, is_time_of_day, is_event_pair, Pattern}
use hass_ai.Miner.Stats.{minute}
use hass_ai.Proposer.Group.{ProposalGroup, text_lt}

-- `hexdigest` is `sha1(...).hexdigest()[:12]` of a text, `two_digits` the format `:02d`.
pub record Formats : Type 0 where
  pub hexdigest : String → String
  pub two_digits : ℕ → String
  pub circular_mean : List ℕ → ℕ

-- A pattern without minutes makes `build_groups` raise before this is read.
abbrev pub minutes_of : Pattern → ℕ
minutes_of p = elim p.tod_minutes [ none ↦ 0 | some m ↦ m ]

-- sorted({(p.entity_id, p.action) for p in patterns})
unfoldable pub insert_pair : String × String → List (String × String) → List (String × String)
insert_pair x [] = x ∷ []
insert_pair x (y ∷ ys) =
    let rest = insert_pair x ys in
    if str_eq x.0 y.0 && str_eq x.1 y.1
    then y ∷ ys
    else if text_lt x.0 y.0 || (str_eq x.0 y.0 && text_lt x.1 y.1)
    then x ∷ y ∷ ys
    else y ∷ rest

unfoldable pub entity_actions : List Pattern → List (String × String)
unfolding insert_pair
entity_actions [] = []
entity_actions (p ∷ ps) = insert_pair (p.entity_id, p.action) (entity_actions ps)

-- ",".join(f"{e}={a}")
unfoldable pub joined : List (String × String) → String
joined [] = ""
joined (x ∷ []) = append x.0 (append "=" x.1)
joined (x ∷ y ∷ xs) = append x.0 (append "=" (append x.1 (append "," (joined (y ∷ xs)))))

-- _digest
unfoldable pub digest : Formats → List Pattern → String
unfolding joined entity_actions
digest f ps = f.hexdigest (joined (entity_actions ps))

-- key=lambda p: (p.tod_minutes, p.entity_id, p.action)
abbrev comes_before : Pattern → Pattern → Bool
comes_before p q =
    ltb (minutes_of p) (minutes_of q)
    || (nat_eq (minutes_of p) (minutes_of q)
        && (text_lt p.entity_id q.entity_id
            || (str_eq p.entity_id q.entity_id && text_lt p.action q.action)))

-- A stable sort: a member goes before those that it does not follow.
unfoldable pub insert_member : Pattern → List Pattern → List Pattern
insert_member p [] = p ∷ []
insert_member p (q ∷ qs) =
    let rest = insert_member p qs in if comes_before q p then q ∷ rest else p ∷ q ∷ qs

unfoldable pub sort_members : List Pattern → List Pattern
unfolding insert_member
sort_members [] = []
sort_members (p ∷ ps) = insert_member p (sort_members ps)

-- A dict with lists as values, in the sorted order of its keys.
pub record Bucket : Type 0 where
  pub key : String
  pub second : Option String
  pub members : List Pattern

abbrev opt_lt : Option String → Option String → Bool
opt_lt none none = false
opt_lt none (some t) = true
opt_lt (some s) none = false
opt_lt (some s) (some t) = text_lt s t

-- setdefault(key, []).append(p), then sorted(items()).
unfoldable pub put_member : String → Option String → Pattern → List Bucket → List Bucket
put_member k s p [] = record { key = k; second = s; members = p ∷ [] } ∷ []
put_member k s p (b ∷ bs) =
    let rest = put_member k s p bs in
    if str_eq k b.key && opt_eq s b.second
    then record b { members = p ∷ b.members } ∷ bs
    else if text_lt k b.key || (str_eq k b.key && opt_lt s b.second)
    then record { key = k; second = s; members = p ∷ [] } ∷ b ∷ bs
    else b ∷ rest

abbrev or_empty : Option String → String
or_empty none = ""
or_empty (some s) = s

-- The key of a time-of-day pattern is its day type.
unfoldable pub by_day_type : List Pattern → List Bucket
unfolding put_member
by_day_type [] = []
by_day_type (p ∷ ps) = put_member (or_empty p.day_type) none p (by_day_type ps)

-- The key of a pair is its trigger. The gates let no pair without a trigger entity pass.
unfoldable pub by_trigger : List Pattern → List Bucket
unfolding put_member
by_trigger [] = []
by_trigger (p ∷ ps) = put_member (or_empty p.trigger_entity_id) p.trigger_state p (by_trigger ps)

-- _close_tod
unfoldable pub close_tod : Formats → String → List Pattern → ProposalGroup
unfolding digest
close_tod f day_type cluster =
    let mean = f.circular_mean (map minutes_of cluster) in
    record {
      kind = time_of_day;
      day_type = some day_type;
      group_key = append "tod:" (
          append day_type (
            append ":"
              (append (f.two_digits (mean / (30 * minute))) (append ":" (digest f cluster)))));
      patterns = cluster;
      mean_minutes = mean;
      trigger_entity_id = none;
      trigger_state = none;
    }

-- The loop over the sorted members: `cluster` is never empty here and `last` is its last member.
unfoldable pub split_clusters :
    Formats → ℕ → String → List Pattern → ℕ → List Pattern → List ProposalGroup
unfolding close_tod
split_clusters f window day_type cluster last [] = close_tod f day_type cluster ∷ []
split_clusters f window day_type cluster last (p ∷ ps) =
    let closed = split_clusters f window day_type (p ∷ []) (minutes_of p) ps in
    let grown = split_clusters f window day_type (cluster ++ p ∷ []) (minutes_of p) ps in
    if ltb window (minutes_of p - last) then close_tod f day_type cluster ∷ closed else grown

abbrev clusters_of : Formats → ℕ → String → List Pattern → List ProposalGroup
clusters_of f window day_type [] = []
clusters_of f window day_type (p ∷ ps) = split_clusters f window day_type (p ∷ []) (minutes_of p) ps

unfoldable pub tod_groups : Formats → ℕ → List Bucket → List ProposalGroup
unfolding split_clusters sort_members
tod_groups f window [] = []
tod_groups f window (b ∷ bs) =
    clusters_of f window b.key (sort_members b.members) ++ tod_groups f window bs

-- f"{state}" of an absent state
abbrev shown : Option String → String
shown none = "None"
shown (some s) = s

unfoldable pub pair_group : Formats → Bucket → ProposalGroup
unfolding digest
pair_group f b = record {
  kind = event_pair;
  day_type = none;
  group_key =
      append "pair:"
        (append b.key (append ":" (append (shown b.second) (append ":" (digest f b.members)))));
  patterns = b.members;
  mean_minutes = 0;
  trigger_entity_id = some b.key;
  trigger_state = b.second;
}

abbrev lacks_minutes : Pattern → Bool
lacks_minutes p = is_time_of_day p.kind && elim p.tod_minutes [ none ↦ true | some m ↦ false ]

-- A pair with the same trigger entity, one of the two with a trigger state and one without.
abbrev is_mixed : Pattern → Pattern → Bool
is_mixed p q =
    str_eq (or_empty p.trigger_entity_id) (or_empty q.trigger_entity_id)
    && is_some p.trigger_state
    && not (is_some q.trigger_state)

-- The sort of the triggers compares None to a text.
abbrev mixes_states : List Pattern → Bool
mixes_states pairs = any (λ p. any (is_mixed p) pairs) pairs

-- none is the TypeError of a time-of-day pattern without minutes, or of the sort of the triggers.
unfoldable pub build_groups : Formats → ℕ → List Pattern → Option (List ProposalGroup)
unfolding tod_groups by_day_type by_trigger pair_group
build_groups f window eligible =
    let pairs = filter (λ p. is_event_pair p.kind) eligible in
    if any lacks_minutes eligible || mixes_states pairs
    then none
    else some (
        tod_groups f window (by_day_type (filter (λ p. is_time_of_day p.kind) eligible))
        ++ map (pair_group f) (by_trigger pairs))
