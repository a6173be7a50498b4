-- ===== src/Ingest/Attribution/Cache.antt =====
-- Attribution over a sequence of announcements (src/pae/ingest/attribution.py).
use hass_ai.Prelude.{
  inl, inr, ap, ◌∙◌, All, filter, leb, Bool-cases, ◌≤◌, ◌+◌, eq_refl, ℕ, String, ◌≡◌, ◌≢◌, refl,
  Option, none, some, List, [], ◌∷◌, arith, str_eq, eq_iff, if◌then◌else◌,
}
use hass_ai.Db.Models.{Source, manual}
use hass_ai.Ingest.Attribution.{
  prune, add, Entry, ContextCache, prune, put_entry, find_entry, get, attribute,
}

-- No human is credited where the context has a parent, whatever the cache holds, unless the cache itself
-- names one.
pub attribute-parent :
    (context_id : Option String) (parent : String) (user_id : Option String) (cache : ContextCache)
    (now : ℕ)
    → get context_id now cache ≢ some manual
    → get (some parent) now cache ≢ some manual
    → attribute context_id (some parent) user_id cache now ≢ manual
unfolding attribute
attribute-parent context_id parent user_id cache now a b h = ground (arith, a, b)

find_entry-put :
    (e : Entry) (k : String) (es : List Entry)
    → find_entry k (put_entry e es) ≡ (if str_eq e.context_id k then some e else find_entry k es)
unfolding find_entry put_entry
find_entry-put e k [] = refl
find_entry-put e k (f ∷ fs) = ground (
  arith,
  find_entry-put e k fs,
  eq_iff f.context_id e.context_id,
  eq_iff f.context_id k,
  eq_iff e.context_id k,
)

-- An entry that is live at a later time survives the pruning at an earlier one.
find_entry-filter :
    (now : ℕ) (k : String) (es : List Entry) (e : Entry)
    → find_entry k es ≡ some e
    → now ≤ e.expiry
    → find_entry k (filter (λ f. leb now f.expiry) es) ≡ some e
unfolding find_entry
find_entry-filter now k [] e h live = cc
find_entry-filter now k (f ∷ fs) e h live = elim (Bool-cases (str_eq f.context_id k)) [
  | inl same ↦
      let first : f ≡ e = ground (arith, same) in
      ground (arith, same, first, live, ap (λ (g : Entry). g.expiry) first)
  | inr other ↦ ground (arith, other, find_entry-filter now k fs e (ground (arith, other)) live)
]

find_entry-prune :
    (now : ℕ) (k : String) (cache : ContextCache) (e : Entry)
    → find_entry k cache.entries ≡ some e
    → now ≤ e.expiry
    → find_entry k (prune now cache).entries ≡ some e
unfolding prune
find_entry-prune now k cache e h live =
    ground (arith, h, find_entry-filter now k cache.entries e h live)

ttl-prune : (now : ℕ) (cache : ContextCache) → (prune now cache).ttl ≡ cache.ttl
unfolding prune
ttl-prune now cache = ground arith

-- The announcements that the cache takes in: a context, its source and the time.
pub record Announcement : Type 0 where
  pub context_id : String
  pub source : Source
  pub at : ℕ

abbrev pub announce : List Announcement → ContextCache → ContextCache
announce [] cache = cache
announce (a ∷ later) cache = announce later (add a.context_id a.source a.at cache)

find_entry-add :
    (k : String) (a : Announcement) (cache : ContextCache) (e : Entry)
    → find_entry k cache.entries ≡ some e
    → a.context_id ≢ k
    → a.at ≤ e.expiry
    → find_entry k (add a.context_id a.source a.at cache).entries ≡ some e
unfolding add
find_entry-add k a cache e h other live =
    let entry : Entry = record {
      context_id = a.context_id;
      expiry = a.at + (prune a.at cache).ttl;
      source = a.source;
    } in
    find_entry-put entry k (prune a.at cache).entries
    ∙ ground (arith, eq_iff a.context_id k, find_entry-prune a.at k cache e h live)

find_entry-announce :
    (k : String) (later : List Announcement) (cache : ContextCache) (e : Entry)
    → find_entry k cache.entries ≡ some e
    → All (λ a. (a.context_id ≢ k) × (a.at ≤ e.expiry)) later
    → find_entry k (announce later cache).entries ≡ some e
find_entry-announce k [] cache e h ok = h
find_entry-announce k (a ∷ later) cache e h ok =
    find_entry-announce k later _ e (find_entry-add k a cache e h ok.0.0 ok.0.1) ok.1

find_entry-added :
    (ctx : String) (source : Source) (now : ℕ) (cache : ContextCache)
    → find_entry ctx (add ctx source now cache).entries
      ≡ some (record { context_id = ctx; expiry = now + cache.ttl; source = source })
unfolding add
find_entry-added ctx source now cache =
    find_entry-put
      (record { context_id = ctx; expiry = now + (prune now cache).ttl; source = source }) ctx
      (prune now cache).entries
    ∙ ground (arith, eq_refl ctx, ttl-prune now cache)

All-weaken :
    (ctx : String) (time expiry : ℕ)
    → time ≤ expiry
    → (later : List Announcement) → All (λ a. (a.context_id ≢ ctx) × (a.at ≤ time)) later
    → All (λ a. (a.context_id ≢ ctx) × (a.at ≤ expiry)) later
All-weaken ctx time expiry h [] ok = tt
All-weaken ctx time expiry h (a ∷ later) ok =
    ((ok.0.0, omega arith), All-weaken ctx time expiry h later ok.1)

-- Both cases of a live announcement: the context itself, and a child of it.
pub attribute-announce :
    (ctx : String) (source : Source) (now time : ℕ) (cache : ContextCache)
    (later : List Announcement)
    → time ≤ now + cache.ttl
    → All (λ a. (a.context_id ≢ ctx) × (a.at ≤ time)) later
    → let after = announce later (add ctx source now cache) in
      ((parent user : Option String) → attribute (some ctx) parent user after time ≡ source)
      × ((child user : Option String)
          → get child time after ≡ none
          → attribute child (some ctx) user after time ≡ source)
unfolding attribute get
attribute-announce ctx source now time cache later live others =
    let e : Entry = record { context_id = ctx; expiry = now + cache.ttl; source = source } in
    let found : find_entry ctx (announce later (add ctx source now cache)).entries ≡ some e =
      find_entry-announce ctx later (add ctx source now cache) e
        (find_entry-added ctx source now cache)
        (All-weaken ctx time (now + cache.ttl) live later others) in
    (
      λ parent user. rw found (ground (arith, live)),
      λ child user none_own. rw (none_own, found) (ground (arith, live)),
    )

-- After an announcement, the state changes of the announced context have the announced source for as
-- long as the cache keeps a context, however many other contexts were announced in between and whatever
-- was pruned.
pub attribute-own :
    (ctx : String) (source : Source) (now time : ℕ) (cache : ContextCache)
    (later : List Announcement) (parent user : Option String)
    → time ≤ now + cache.ttl
    → All (λ a. (a.context_id ≢ ctx) × (a.at ≤ time)) later
    → attribute (some ctx) parent user (announce later (add ctx source now cache)) time ≡ source
attribute-own ctx source now time cache later parent user live others =
    (attribute-announce ctx source now time cache later live others).0 parent user

-- So have the state changes of a child of that context which has no live entry of its own.
pub attribute-child :
    (ctx : String) (source : Source) (now time : ℕ) (cache : ContextCache)
    (later : List Announcement) (child user : Option String)
    → time ≤ now + cache.ttl
    → All (λ a. (a.context_id ≢ ctx) × (a.at ≤ time)) later
    → get child time (announce later (add ctx source now cache)) ≡ none
    → attribute child (some ctx) user (announce later (add ctx source now cache)) time ≡ source
attribute-child ctx source now time cache later child user live others none_own =
    (attribute-announce ctx source now time cache later live others).1 child user none_own
