-- ===== src/Prelude/Distinct.antt =====
-- Lists of numbers without repetition, as the sets of the program hold them, and their counts.
use Prim.Native.Nat.{◌<◌, ℕ, suc, ◌≤◌}
use mathlib.Core.Path.{◌≡◌, refl, sym, subst}
use mathlib.Core.Logic.{inl, inr}
use mathlib.Core.Bool.{true, false}
use mathlib.Core.List.{List, [], ◌∷◌, ◌++◌}
use native.Mathlib.Omega.{arith}
use hass_ai.Prelude.Tests.{nat_eq, nat_eq_iff, if◌then◌else◌, Bool-cases}
use hass_ai.Prelude.Lists.{any-append, length, length-append, any, All, In, All-append}

-- set.add: a number that is not yet there goes to the end.
abbrev pub add_number : ℕ → List ℕ → List ℕ
add_number n ns = if any (nat_eq n) ns then ns else ns ++ n ∷ []

-- len(set(...))
unfoldable pub distinct : List ℕ → List ℕ
distinct [] = []
distinct (n ∷ ns) = let rest = distinct ns in if any (nat_eq n) rest then rest else n ∷ rest

abbrev pub IsDistinct : List ℕ → Type 0
IsDistinct [] = Unit
IsDistinct (n ∷ ns) = (any (nat_eq n) ns ≡ false) × IsDistinct ns

any→In : (n : ℕ) (ns : List ℕ) → any (nat_eq n) ns ≡ true → In n ns
any→In n [] h = cc
any→In n (m ∷ ms) h = elim (Bool-cases (nat_eq n m)) [
  | inl same ↦ inl ((nat_eq_iff n m).0 same)
  | inr other ↦ inr (any→In n ms (ground (arith, other)))
]

In→any : (n : ℕ) (ns : List ℕ) → In n ns → any (nat_eq n) ns ≡ true
In→any n [] h = absurd h
In→any n (m ∷ ms) (inl e) = ground (arith, e)
In→any n (m ∷ ms) (inr h) = ground (arith, In→any n ms h)

pub distinct-IsDistinct : (ns : List ℕ) → IsDistinct (distinct ns)
unfolding distinct
distinct-IsDistinct [] = tt
distinct-IsDistinct (n ∷ ns) = elim (Bool-cases (any (nat_eq n) (distinct ns))) [
  | inl there ↦ rw there (distinct-IsDistinct ns)
  | inr new ↦ rw new (new, distinct-IsDistinct ns)
]

pub In-distinct : (n : ℕ) (ns : List ℕ) → In n ns → In n (distinct ns)
unfolding distinct
In-distinct n [] h = absurd h
In-distinct n (m ∷ ms) h = elim (Bool-cases (any (nat_eq m) (distinct ms))) [
  | inl there ↦ rw there (elim h [
    | inl e ↦ subst (λ k. In k (distinct ms)) (sym e) (any→In m (distinct ms) there)
    | inr i ↦ In-distinct n ms i
  ])
  | inr new ↦ rw new (elim h [ inl e ↦ inl e | inr i ↦ inr (In-distinct n ms i) ])
]

remove : ℕ → List ℕ → List ℕ
remove n [] = []
remove n (m ∷ ms) = if nat_eq m n then ms else m ∷ remove n ms

In-remove : (k n : ℕ) (ms : List ℕ) → In k ms → nat_eq n k ≡ false → In k (remove n ms)
unfolding remove
In-remove k n [] h other = absurd h
In-remove k n (m ∷ ms) h other = elim (Bool-cases (nat_eq m n)) [
  | inl hit ↦ rw hit (elim h [ inl e ↦ absurd (ground (arith, hit, other, e)) | inr i ↦ i ])
  | inr miss ↦ rw miss (elim h [ inl e ↦ inl e | inr i ↦ inr (In-remove k n ms i other) ])
]

length-remove : (n : ℕ) (ms : List ℕ) → In n ms → length ms ≡ suc (length (remove n ms))
unfolding remove
length-remove n [] h = absurd h
length-remove n (m ∷ ms) (inl e) = ground (arith, e)
length-remove n (m ∷ ms) (inr i) = ground (arith, length-remove n ms i)

All-remove :
    (n : ℕ) (ns ms : List ℕ)
    → any (nat_eq n) ns ≡ false
    → All (λ k. In k ms) ns
    → All (λ k. In k (remove n ms)) ns
All-remove n [] ms h hs = tt
All-remove n (k ∷ ns) ms h hs =
    (In-remove k n ms hs.0 (ground (arith, h)), All-remove n ns ms (ground (arith, h)) hs.1)

-- What is distinct and stands in a list is no longer than the list.
pub IsDistinct-length-le :
    (ns ms : List ℕ) → IsDistinct ns → All (λ n. In n ms) ns → length ns ≤ length ms
IsDistinct-length-le [] ms h hs = omega arith
IsDistinct-length-le (n ∷ ns) ms h hs = omega (
  arith,
  length-remove n ms hs.0,
  IsDistinct-length-le ns (remove n ms) h.1 (All-remove n ns ms h.0 hs.1),
)

append-IsDistinct :
    (n : ℕ) (ns : List ℕ) → any (nat_eq n) ns ≡ false → IsDistinct ns → IsDistinct (ns ++ n ∷ [])
append-IsDistinct n [] h d = (refl, tt)
append-IsDistinct n (m ∷ ms) h d = (
  ground (arith, any-append (nat_eq m) ms (n ∷ []), nat_eq_iff m n, nat_eq_iff n m, h, d.0),
  append-IsDistinct n ms (ground (arith, h)) d.1,
)

pub add_number-IsDistinct : (n : ℕ) (ns : List ℕ) → IsDistinct ns → IsDistinct (add_number n ns)
add_number-IsDistinct n ns d = elim (Bool-cases (any (nat_eq n) ns)) [
  | inl there ↦ rw there d
  | inr new ↦ rw new (append-IsDistinct n ns new d)
]

pub add_number-All {κ} :
    (P : ℕ → Type κ) (n : ℕ) (ns : List ℕ) → P n → All P ns → All P (add_number n ns)
add_number-All P n ns p h = elim (Bool-cases (any (nat_eq n) ns)) [
  | inl there ↦ rw there h
  | inr new ↦ rw new (All-append P ns (n ∷ []) h (p, tt))
]

pub add_number-pos : (n : ℕ) (ns : List ℕ) → 0 < length ns → 0 < length (add_number n ns)
add_number-pos n ns h = ground (arith, length-append ns (n ∷ []))

pub All-distinct {κ} : (P : ℕ → Type κ) (ns : List ℕ) → All P ns → All P (distinct ns)
unfolding distinct
All-distinct P [] h = tt
All-distinct P (n ∷ ns) h = elim (Bool-cases (any (nat_eq n) (distinct ns))) [
  | inl there ↦ rw there (All-distinct P ns h.1)
  | inr new ↦ rw new (h.0, All-distinct P ns h.1)
]
