-- ===== src/Prelude/Text.antt =====
-- Texts: equality as a Boolean, membership in a list of texts, dictionaries keyed by texts, and the
-- first part and the rest of Python's `s.split(sep, 1)`.
use Prim.Native.Nat.{ℕ}
use Prim.Native.Char.{Char, code}
use Prim.Native.String.{String}
use mathlib.Core.Path.{◌≡◌, refl, sym, ap}
use mathlib.Core.Logic.{inl, inr, ◌↔◌}
use native.Mathlib.Omega.{arith}
use text.Mathlib.TextEquality.{eq_iff}
use hass_ai.Prelude.Lists.{In}
use mathlib.Core.Bool.{Bool, true, false, ◌||◌}
use mathlib.Core.List.{List, [], ◌∷◌, ◌++◌}
use mathlib.Core.Option.{Option, none, some}
use text.Mathlib.Text.{◌==◌ as text_eq}
use hass_ai.Prelude.Tests.{if◌then◌else◌, nat_eq, Bool-cases}

abbrev pub str_eq : String → String → Bool
str_eq s t = text_eq s t

-- `s in ("a", "b")`
abbrev pub elem : String → List String → Bool
elem s [] = false
elem s (t ∷ ts) = str_eq t s || elem s ts

abbrev pub opt_eq : Option String → Option String → Bool
opt_eq none none = true
opt_eq none (some _) = false
opt_eq (some _) none = false
opt_eq (some s) (some t) = str_eq s t

-- A text that is absent or empty is false in a Python test.
abbrev pub truthy : Option String → Bool
truthy none = false
truthy (some s) = if str_eq s "" then false else true

abbrev pub or_text : Option String → String → String
or_text none d = d
or_text (some s) d = if str_eq s "" then d else s

-- A dictionary as an association list: the newest binding of a key stands first.
abbrev pub Dict {ℓ} : Type ℓ → Type ℓ
Dict V = List (String × V)

module _ {ℓ} {V : Type ℓ} where
  unfoldable pub lookup : String → Dict V → Option V
  lookup k [] = none
  lookup k ((j, v) ∷ m) = if str_eq j k then some v else lookup k m

-- The part before the first `sep`, and the part behind it if there is one.
unfoldable pub split_once : Char → String → String × Option String
split_once sep String.[] = (String.[], none)
split_once sep (String.◌∷◌ c s) =
    let rest = split_once sep s in
    if nat_eq (code c) (code sep) then (String.[], some s) else (String.◌∷◌ c rest.0, rest.1)

-- `s.split(".", 1)[0]`
unfoldable pub domain_of : String → String
unfolding split_once
domain_of s = (split_once "." s).0

-- Membership of a text is what the test says.
pub elem→In : (s : String) (ts : List String) → elem s ts ≡ true → In s ts
elem→In s [] h = cc
elem→In s (t ∷ ts) h = elim (Bool-cases (str_eq t s)) [
  | inl e ↦ inl (sym ((eq_iff t s).0 e))
  | inr e ↦ inr (elem→In s ts (ground (arith, e)))
]

pub In→elem : (s : String) (ts : List String) → In s ts → elem s ts ≡ true
In→elem s [] h = absurd h
In→elem s (t ∷ ts) (inl e) = ground (arith, (eq_iff t s).1 (sym e))
In→elem s (t ∷ ts) (inr h) = ground (arith, In→elem s ts h)

pub elem-append : (s : String) (xs ys : List String) → elem s (xs ++ ys) ≡ (elem s xs || elem s ys)
elem-append s [] ys = refl
elem-append s (x ∷ xs) ys = ground (arith, elem-append s xs ys)

pub str_eq_comm : (s t : String) → str_eq s t ≡ str_eq t s
str_eq_comm s t = ground (arith, eq_iff s t, eq_iff t s)

-- The code points of a text.
abbrev pub codes : String → List ℕ
codes String.[] = []
codes (String.◌∷◌ c s) = code c ∷ codes s

pub opt_eq_iff : (s t : Option String) → (opt_eq s t ≡ true) ↔ (s ≡ t)
opt_eq_iff none none = (λ _. refl, λ _. refl)
opt_eq_iff none (some t) = (λ h. cc, λ h. cc)
opt_eq_iff (some s) none = (λ h. cc, λ h. cc)
opt_eq_iff (some s) (some t) = (λ h. ap some ((eq_iff s t).0 h), λ h. (eq_iff s t).1 (ground arith))
