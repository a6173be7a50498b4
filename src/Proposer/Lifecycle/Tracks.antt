-- ===== src/Proposer/Lifecycle/Tracks.antt =====
-- What should outlast a change of the tables (src/pae/db/models.py): identities, groups, rejections.
use hass_ai.Prelude.{
  ◌≤◌, ◌+◌, In, sym, subst, ℕ, ◌≡◌, refl, ◌∙◌, Bool, true, List, [], ◌∷◌, ◌++◌, arith, update_where,
  Bool-cases, inl, inr,
}
use hass_ai.Db.Models.{Status, PatternStatus, Pattern, Proposal, Database}

-- Each row of the first list is related to the row in its place in the second, which may have more.
abbrev pub Tracks : {A : Type 0} → (A → A → Type 0) → List A → List A → Type 0
Tracks R [] qs = Unit
Tracks R (p ∷ ps) [] = ⊥
Tracks R (p ∷ ps) (q ∷ qs) = R p q × Tracks R ps qs

module _ {A : Type 0} (R : A → A → Type 0) where
  pub Tracks-refl : ((a : A) → R a a) → (xs : List A) → Tracks R xs xs
  Tracks-refl r [] = tt
  Tracks-refl r (x ∷ xs) = (r x, Tracks-refl r xs)

  pub Tracks-trans :
      ((a b c : A) → R a b → R b c → R a c)
      → (xs ys zs : List A) → Tracks R xs ys
      → Tracks R ys zs
      → Tracks R xs zs
  Tracks-trans t [] ys zs h k = tt
  Tracks-trans t (x ∷ xs) [] zs h k = absurd h
  Tracks-trans t (x ∷ xs) (y ∷ ys) [] h k = absurd k
  Tracks-trans t (x ∷ xs) (y ∷ ys) (z ∷ zs) h k = (t x y z h.0 k.0, Tracks-trans t xs ys zs h.1 k.1)

  pub Tracks-append : ((a : A) → R a a) → (xs ys : List A) → Tracks R xs (xs ++ ys)
  Tracks-append r [] ys = tt
  Tracks-append r (x ∷ xs) ys = (r x, Tracks-append r xs ys)

  pub Tracks-update_where :
      (p : A → Bool) (f : A → A)
      → ((a : A) → R a a)
      → (xs : List A) → ((a : A) → In a xs → p a ≡ true → R a (f a))
      → Tracks R xs (update_where p f xs)
  Tracks-update_where p f r [] step = tt
  Tracks-update_where p f r (x ∷ xs) step = elim (Bool-cases (p x)) [
    | inl hit ↦ rw hit (step x (inl refl) hit, Tracks-update_where p f r xs (λ a m. step a (inr m)))
    | inr miss ↦ rw miss (r x, Tracks-update_where p f r xs (λ a m. step a (inr m)))
  ]

-- A proposal keeps its identity and its group, and a rejected one its status and the reason.
abbrev pub Lasts : Proposal → Proposal → Type 0
Lasts p q =
    (p.id ≡ q.id)
    × (p.group_key ≡ q.group_key)
    × (p.status ≡ Status.rejected
        → (q.status ≡ Status.rejected) × (q.reject_reason ≡ p.reject_reason))

-- A pattern keeps its key, and a rejected one its status.
abbrev pub PatternLasts : Pattern → Pattern → Type 0
PatternLasts p q =
    (p.pattern_key ≡ q.pattern_key)
    × (p.status ≡ PatternStatus.rejected → q.status ≡ PatternStatus.rejected)

pub Lasts-refl : (p : Proposal) → Lasts p p
Lasts-refl p = (refl, refl, λ h. (h, refl))

pub Lasts-trans : (p q r : Proposal) → Lasts p q → Lasts q r → Lasts p r
Lasts-trans p q r (i, g, s) (j, h, t) =
    (i ∙ j, g ∙ h, λ e. let (a, b) = s e in let (c, d) = t a in (c, d ∙ b))

pub PatternLasts-refl : (p : Pattern) → PatternLasts p p
PatternLasts-refl p = (refl, λ h. h)

pub PatternLasts-trans : (p q r : Pattern) → PatternLasts p q → PatternLasts q r → PatternLasts p r
PatternLasts-trans p q r (i, s) (j, t) = (i ∙ j, λ e. t (s e))

-- The table lists its rows by their identities, which are distinct and lie in [low, high).
abbrev pub IsAscending : ℕ → List Proposal → ℕ → Type 0
IsAscending low [] high = low ≤ high
IsAscending low (p ∷ ps) high = (low ≤ p.id) × IsAscending (p.id + 1) ps high

-- The sequence is ahead of every identity.
abbrev pub IsKeyed : Database → Type 0
IsKeyed db = IsAscending 0 db.proposals db.next_id

pub IsAscending-append :
    (low high : ℕ) (ps : List Proposal) (p : Proposal)
    → IsAscending low ps high
    → p.id ≡ high
    → IsAscending low (ps ++ p ∷ []) (high + 1)
IsAscending-append low high [] p h e = omega arith
IsAscending-append low high (x ∷ xs) p h e = (h.0, IsAscending-append (x.id + 1) high xs p h.1 e)

pub IsAscending-update_where :
    (test : Proposal → Bool) (f : Proposal → Proposal) (low high : ℕ) (ps : List Proposal)
    → ((p : Proposal) → (f p).id ≡ p.id)
    → IsAscending low ps high
    → IsAscending low (update_where test f ps) high
IsAscending-update_where test f low high [] same h = h
IsAscending-update_where test f low high (p ∷ ps) same h = elim (Bool-cases (test p)) [
  | inl hit ↦ rw hit (
    omega (arith, same p, h.0),
    subst (λ n. IsAscending (n + 1) (update_where test f ps) high) (sym (same p))
        (IsAscending-update_where test f (p.id + 1) high ps same h.1),
  )
  | inr miss ↦ rw miss (h.0, IsAscending-update_where test f (p.id + 1) high ps same h.1)
]

-- Both tables of one state are tracked in another.
pub record Preserves (db db' : Database) : Type 0 where
  pub proposals : Tracks Lasts db.proposals db'.proposals
  pub patterns : Tracks PatternLasts db.patterns db'.patterns
  pub keyed : IsKeyed db → IsKeyed db'

pub Preserves-refl : (db : Database) → Preserves db db
Preserves-refl db = record {
  proposals = Tracks-refl Lasts Lasts-refl db.proposals;
  patterns = Tracks-refl PatternLasts PatternLasts-refl db.patterns;
  keyed = λ k. k;
}

pub Preserves-trans : {a b c : Database} → Preserves a b → Preserves b c → Preserves a c
Preserves-trans {a} {b} {c} h k = record {
  proposals =
      Tracks-trans Lasts Lasts-trans a.proposals b.proposals c.proposals h.proposals k.proposals;
  patterns =
      Tracks-trans PatternLasts PatternLasts-trans a.patterns b.patterns c.patterns h.patterns
        k.patterns;
  keyed = λ i. k.keyed (h.keyed i);
}

-- An update of one table whose rows last.
pub update-proposals :
    (test : Proposal → Bool) (f : Proposal → Proposal) (db : Database)
    → ((p : Proposal) → (f p).id ≡ p.id)
    → ((p : Proposal) → In p db.proposals → test p ≡ true → Lasts p (f p))
    → Preserves db (record db { proposals = update_where test f db.proposals })
update-proposals test f db same h = record {
  proposals = Tracks-update_where Lasts test f Lasts-refl db.proposals h;
  patterns = Tracks-refl PatternLasts PatternLasts-refl db.patterns;
  keyed = IsAscending-update_where test f 0 db.next_id db.proposals same;
}

pub update-patterns :
    (test : Pattern → Bool) (f : Pattern → Pattern) (db : Database)
    → ((p : Pattern) → test p ≡ true → PatternLasts p (f p))
    → Preserves db (record db { patterns = update_where test f db.patterns })
update-patterns test f db h = record {
  proposals = Tracks-refl Lasts Lasts-refl db.proposals;
  patterns = Tracks-update_where PatternLasts test f PatternLasts-refl db.patterns (λ p m. h p);
  keyed = λ k. k;
}
