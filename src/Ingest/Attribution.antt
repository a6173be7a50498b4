-- ===== src/Ingest/Attribution.antt =====
-- Who caused a state change (src/pae/ingest/attribution.py). Times are those of the monotonic clock.
pub mod Cache
use hass_ai.Prelude.{
  ℕ, ◌+◌, String, Bool, true, false, Option, none, some, List, [], ◌∷◌, length, filter, ltb, leb,
  str_eq, if◌then◌else◌,
}
use hass_ai.Db.Models.{Source, manual, automation, pae}

-- context_id -> (expiry, source)
pub record Entry : Type 0 where
  pub context_id : String
  pub expiry : ℕ
  pub source : Source

pub record ContextCache : Type 0 where
  pub ttl : ℕ
  pub entries : List Entry

-- The size from which `add` drops what has expired.
abbrev pub prune_size : ℕ
prune_size = 10000

-- _prune
unfoldable pub prune : ℕ → ContextCache → ContextCache
prune now cache =
    if ltb (length cache.entries) prune_size
    then cache
    else record cache { entries = filter (λ e. leb now e.expiry) cache.entries }

-- entries[context_id] = (expiry, source): a dict keeps the place of a key.
unfoldable pub put_entry : Entry → List Entry → List Entry
put_entry e [] = e ∷ []
put_entry e (f ∷ fs) =
    let rest = put_entry e fs in if str_eq f.context_id e.context_id then e ∷ fs else f ∷ rest

unfoldable pub add : String → Source → ℕ → ContextCache → ContextCache
unfolding put_entry prune
add context_id source now cache =
    let pruned = prune now cache in
    record pruned {
      entries =
          put_entry (record { context_id = context_id; expiry = now + pruned.ttl; source = source })
            pruned.entries;
    }

unfoldable pub find_entry : String → List Entry → Option Entry
find_entry k [] = none
find_entry k (e ∷ es) = let rest = find_entry k es in if str_eq e.context_id k then some e else rest

abbrev fresh : ℕ → Option Entry → Option Source
fresh now none = none
fresh now (some e) = if ltb e.expiry now then none else some e.source

-- ContextCache.get
unfoldable pub get : Option String → ℕ → ContextCache → Option Source
unfolding find_entry
get none now cache = none
get (some k) now cache = fresh now (find_entry k cache.entries)

abbrev classify : Option Source → Option Source → Option String → Source
classify (some s) other parent_id = s
classify none (some s) parent_id = s
classify none none (some p) = automation
classify none none none = manual

-- The user of the context decides nothing.
unfoldable pub attribute : Option String → Option String → Option String → ContextCache → ℕ → Source
unfolding get
attribute context_id parent_id user_id cache now =
    classify (get context_id now cache) (get parent_id now cache) parent_id
