-- ===== src/Scripts/Discovery/Broker.antt =====
-- What the broker retains after ha/weather/discovery.py has run.
use hass_ai.Prelude.{
  ◌&&◌, ◌≡◌, refl, sym, ap, ◌∙◌, inl, inr, Bool, true, false, not, ◌||◌, Bool-cases, String, none,
  some, List, [], ◌∷◌, filter, any, In, arith, str_eq, eq_iff, Dict, lookup, if◌then◌else◌,
}
use hass_ai.Db.Models.{Json}
use hass_ai.Scripts.Discovery.{
  Config, build_configs, publish, publish_all, main, remove_configs, publish_configs,
}

abbrev pub is_topic : String → Config → Bool
is_topic k c = str_eq c.topic k

lookup-others :
    (k topic : String) (retained : Dict String)
    → lookup k (filter (λ entry. not (str_eq entry.0 topic)) retained)
      ≡ (if str_eq topic k then none else lookup k retained)
unfolding lookup
lookup-others k topic [] = ground arith
lookup-others k topic ((t, body) ∷ retained) = elim (Bool-cases (str_eq t topic)) [
  | inl same ↦
      let keyed : str_eq t k ≡ str_eq topic k = ap (λ x. str_eq x k) ((eq_iff t topic).0 same) in
      ground (arith, same, keyed, lookup-others k topic retained)
  | inr other ↦ elim (Bool-cases (str_eq topic k)) [
    | inl hit ↦
        let miss : str_eq t k ≡ false =
          sym (ap (λ x. str_eq t x) ((eq_iff topic k).0 hit)) ∙ other in
        ground (arith, other, hit, miss, lookup-others k topic retained)
    | inr miss ↦ ground (arith, other, miss, lookup-others k topic retained)
  ]
]

lookup-publish :
    (k topic body : String) (retained : Dict String)
    → lookup k (publish topic body retained)
      ≡ (if str_eq topic k then (if str_eq body "" then none else some body) else lookup k retained)
unfolding publish lookup
lookup-publish k topic body retained = ground (arith, lookup-others k topic retained)

-- Removing the configs removes what is retained under their topics, and nothing else.
lookup-remove :
    (dumps : Json → String) (k : String) (cs : List Config) (retained : Dict String)
    → lookup k (publish_all dumps true cs retained)
      ≡ (if any (is_topic k) cs then none else lookup k retained)
unfolding publish_all
lookup-remove dumps k [] retained = refl
lookup-remove dumps k (c ∷ cs) retained = ground (
  arith,
  lookup-remove dumps k cs (publish c.topic "" retained),
  lookup-publish k c.topic "" retained,
)

lookup-elsewhere :
    (dumps : Json → String) (k : String) (cs : List Config) (retained : Dict String)
    → any (is_topic k) cs ≡ false
    → lookup k (publish_all dumps false cs retained) ≡ lookup k retained
unfolding publish_all
lookup-elsewhere dumps k [] retained h = refl
lookup-elsewhere dumps k (c ∷ cs) retained h = ground (
  arith,
  h,
  lookup-elsewhere dumps k cs (publish c.topic (dumps c.payload) retained),
  lookup-publish k c.topic (dumps c.payload) retained,
)

-- Two configs have the same topic.
abbrev pub is_shared : List Config → Bool
is_shared [] = false
is_shared (c ∷ cs) = any (is_topic c.topic) cs || is_shared cs

-- What is published under a topic is retained there.
pub lookup-published :
    (dumps : Json → String) (c : Config) (cs : List Config) (retained : Dict String)
    → is_shared cs ≡ false
    → str_eq (dumps c.payload) "" ≡ false
    → In c cs
    → lookup c.topic (publish_all dumps false cs retained) ≡ some (dumps c.payload)
unfolding publish_all
lookup-published dumps c [] retained h full m = absurd m
lookup-published dumps c (d ∷ cs) retained h full (inl e) =
    let topic : c.topic ≡ d.topic = ap (λ (x : Config). x.topic) e in
    let body : dumps c.payload ≡ dumps d.payload = ap (λ (x : Config). dumps x.payload) e in
    let here : str_eq d.topic c.topic ≡ true = (eq_iff d.topic c.topic).1 (sym topic) in
    let alone : any (is_topic c.topic) cs ≡ false =
      ap (λ t. any (is_topic t) cs) topic ∙ ground (arith, h) in
    lookup-elsewhere dumps c.topic cs (publish d.topic (dumps d.payload) retained) alone
    ∙ lookup-publish c.topic d.topic (dumps d.payload) retained
    ∙ ap
        (λ b.
          if b
          then (if str_eq (dumps d.payload) "" then none else some (dumps d.payload))
          else lookup c.topic retained)
        here
    ∙ ap (λ t. if str_eq t "" then none else some t) (sym body)
    ∙ ap (λ b. if b then none else some (dumps c.payload)) full
lookup-published dumps c (d ∷ cs) retained h full (inr m) =
    lookup-published dumps c cs (publish d.topic (dumps d.payload) retained) (ground (arith, h))
      full m

-- Publishing and then removing the configs leaves nothing under their topics and every other topic as it
-- was, for every broker and every way of writing the payloads.
pub remove-publish :
    (dumps : Json → String) (k : String) (cs : List Config) (retained : Dict String)
    → lookup k (main dumps remove_configs cs (main dumps publish_configs cs retained))
      ≡ (if any (is_topic k) cs then none else lookup k retained)
unfolding main
remove-publish dumps k cs retained = elim (Bool-cases (any (is_topic k) cs)) [
  | inl listed ↦
      ground (arith, listed, lookup-remove dumps k cs (publish_all dumps false cs retained))
  | inr free ↦ ground (
    arith,
    free,
    lookup-remove dumps k cs (publish_all dumps false cs retained),
    lookup-elsewhere dumps k cs retained free,
  )
]

-- No two of the configs of the weather station share a topic.
pub build_configs-distinct : is_shared build_configs ≡ false
unfolding build_configs
build_configs-distinct = refl

-- Neither way of running the script changes what is retained under another topic.
pub main-elsewhere :
    (dumps : Json → String) (k : String) (cs : List Config) (retained : Dict String)
    → any (is_topic k) cs ≡ false
    → (lookup k (main dumps publish_configs cs retained) ≡ lookup k retained)
      × (lookup k (main dumps remove_configs cs retained) ≡ lookup k retained)
unfolding main
main-elsewhere dumps k cs retained h =
    (lookup-elsewhere dumps k cs retained h, ground (arith, h, lookup-remove dumps k cs retained))

-- Two lists of configs have no topic in common.
abbrev pub is_disjoint : List Config → List Config → Bool
is_disjoint [] ds = true
is_disjoint (c ∷ cs) ds = not (any (is_topic c.topic) ds) && is_disjoint cs ds

is_disjoint-In :
    (c : Config) (cs ds : List Config)
    → is_disjoint cs ds ≡ true
    → In c cs
    → any (is_topic c.topic) ds ≡ false
is_disjoint-In c [] ds h m = absurd m
is_disjoint-In c (x ∷ cs) ds h (inl e) =
    ap (λ (y : Config). any (is_topic y.topic) ds) e ∙ ground (arith, h)
is_disjoint-In c (x ∷ cs) ds h (inr m) = is_disjoint-In c cs ds (ground (arith, h)) m

-- Configs that other configs share no topic with stay retained whatever is done with the others.
pub main-beside :
    (dumps : Json → String) (retained : Dict String) (c : Config) (cs ds : List Config)
    → is_shared cs ≡ false
    → is_disjoint cs ds ≡ true
    → str_eq (dumps c.payload) "" ≡ false
    → In c cs
    → (lookup c.topic (main dumps publish_configs ds (main dumps publish_configs cs retained))
        ≡ some (dumps c.payload))
      × (lookup c.topic (main dumps remove_configs ds (main dumps publish_configs cs retained))
          ≡ some (dumps c.payload))
unfolding main
main-beside dumps retained c cs ds alone apart full m =
    let kept =
      main-elsewhere dumps c.topic ds (publish_all dumps false cs retained)
        (is_disjoint-In c cs ds apart m) in
    let there = lookup-published dumps c cs retained alone full m in
    (kept.0 ∙ there, kept.1 ∙ there)
