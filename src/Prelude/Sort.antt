-- ===== src/Prelude/Sort.antt =====
-- A stable sort by a number, as Python's `sorted` with a key, and its laws.
use Prim.Native.Nat.{ℕ, ◌+◌, ◌≤◌}
use mathlib.Core.Path.{◌≡◌, refl}
use mathlib.Core.Logic.{inl, inr}
use mathlib.Core.List.{List, [], ◌∷◌}
use native.Mathlib.Omega.{arith}
use hass_ai.Prelude.Tests.{ltb, if◌then◌else◌, Bool-cases}
use hass_ai.Prelude.Lists.{All, sum_by}

module _ {A : Type 0} (key : A → ℕ) where
  -- The new element goes before those that it does not follow.
  unfoldable pub insert_by : A → List A → List A
  insert_by x [] = x ∷ []
  insert_by x (y ∷ ys) =
      let rest = insert_by x ys in if ltb (key y) (key x) then y ∷ rest else x ∷ y ∷ ys

  unfoldable pub sort_by : List A → List A
  unfolding insert_by
  sort_by [] = []
  sort_by (x ∷ xs) = insert_by x (sort_by xs)

  -- Each element is below all that follow it.
  abbrev pub IsSortedBy : List A → Type 0
  IsSortedBy [] = Unit
  IsSortedBy (x ∷ xs) = All (λ y. key x ≤ key y) xs × IsSortedBy xs

  All-insert_by {κ} :
      (P : A → Type κ) (x : A) (xs : List A) → P x → All P xs → All P (insert_by x xs)
  unfolding insert_by
  All-insert_by P x [] h hs = (h, tt)
  All-insert_by P x (y ∷ ys) h hs = elim (Bool-cases (ltb (key y) (key x))) [
    | inl later ↦ rw later (hs.0, All-insert_by P x ys h hs.1)
    | inr here ↦ rw here (h, hs)
  ]

  pub All-sort_by {κ} : (P : A → Type κ) (xs : List A) → All P xs → All P (sort_by xs)
  unfolding sort_by
  All-sort_by P [] h = tt
  All-sort_by P (x ∷ xs) h = All-insert_by P x (sort_by xs) h.0 (All-sort_by P xs h.1)

  All-le : (a b : ℕ) (xs : List A) → a ≤ b → All (λ y. b ≤ key y) xs → All (λ y. a ≤ key y) xs
  All-le a b [] h hs = tt
  All-le a b (x ∷ xs) h hs = let first = hs.0 in (omega (arith, first), All-le a b xs h hs.1)

  insert_by-IsSortedBy : (x : A) (xs : List A) → IsSortedBy xs → IsSortedBy (insert_by x xs)
  unfolding insert_by
  insert_by-IsSortedBy x [] h = (tt, tt)
  insert_by-IsSortedBy x (y ∷ ys) h = elim (Bool-cases (ltb (key y) (key x))) [
    | inl later ↦ rw later (
      All-insert_by (λ z. key y ≤ key z) x ys (ground (arith, later)) h.0,
      insert_by-IsSortedBy x ys h.1,
    )
    | inr here ↦
        let low : key x ≤ key y = ground (arith, here) in
        rw here ((low, All-le (key x) (key y) ys low h.0), h)
  ]

  pub sort_by-IsSortedBy : (xs : List A) → IsSortedBy (sort_by xs)
  unfolding sort_by
  sort_by-IsSortedBy [] = tt
  sort_by-IsSortedBy (x ∷ xs) = insert_by-IsSortedBy x (sort_by xs) (sort_by-IsSortedBy xs)

  insert_by-sum : (w : A → ℕ) (x : A) (xs : List A) → sum_by w (insert_by x xs) ≡ w x + sum_by w xs
  unfolding insert_by
  insert_by-sum w x [] = refl
  insert_by-sum w x (y ∷ ys) = ground (arith, insert_by-sum w x ys)

  -- A sort keeps every count.
  pub sort_by-sum : (w : A → ℕ) (xs : List A) → sum_by w (sort_by xs) ≡ sum_by w xs
  unfolding sort_by
  sort_by-sum w [] = refl
  sort_by-sum w (x ∷ xs) = omega (arith, insert_by-sum w x (sort_by xs), sort_by-sum w xs)
