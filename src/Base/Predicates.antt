-- ===== src/Base/Predicates.antt =====
-- Predicates on lists by recursion, which compute to tuples.
use mathlib.Core.Bool.{Bool, false, ◌||◌}
use mathlib.Core.List.{List, [], ◌∷◌, ◌++◌}
use mathlib.Core.Path.{◌≡◌, sym, subst}
use mathlib.Core.Bool.{true}
use mathlib.Core.Logic.{◌⊎◌, inl, inr}
use wootty.Base.Lists.{keep}
use native.Mathlib.Omega.{arith}
use Prim.Native.Nat.{ℕ, zero, suc, ◌<◌}
use wootty.Base.Tests.{Bool-cases, ◌==◌, Text, text_eq}

abbrev pub All {ℓ κ} : {A : Type ℓ} → (A → Type κ) → List A → Type κ
All P [] = Unit
All P (x ∷ xs) = P x × All P xs

module _ {ℓ κ} {A : Type ℓ} (P : A → Type κ) where
  pub All-append : (xs ys : List A) → All P xs → All P ys → All P (xs ++ ys)
  All-append [] ys hx hy = hy
  All-append (x ∷ xs) ys hx hy = (hx.0, All-append xs ys hx.1 hy)

module _ {ℓ κ ν} {A : Type ℓ} {P : A → Type κ} {Q : A → Type ν} where
  pub All-map : ((x : A) → P x → Q x) → (xs : List A) → All P xs → All Q xs
  All-map f [] h = tt
  All-map f (x ∷ xs) h = (f x h.0, All-map f xs h.1)

  -- What `keep` lets through has the test, too.
  pub All-keep :
      (p : A → Bool)
      → ((x : A) → P x → p x ≡ true → Q x)
      → (xs : List A) → All P xs
      → All Q (keep p xs)
  All-keep p f [] h = tt
  All-keep p f (x ∷ xs) h = elim (Bool-cases (p x)) [
    | inl kept ↦ rw kept (f x h.0 kept, All-keep p f xs h.1)
    | inr gone ↦ rw gone (All-keep p f xs h.1)
  ]

-- `Set.has` and `Array.includes` on strings.
abbrev pub has : Text → List Text → Bool
has x [] = false
has x (y ∷ ys) = text_eq y x || has x ys

-- An entry of a list.
abbrev pub Listed : {A : Type 0} → A → List A → Type 0
Listed x [] = ⊥
Listed x (y ∷ ys) = (x ≡ y) ⊎ Listed x ys

pub All-Listed : {A : Type 0} (P : A → Type 0) (x : A) (xs : List A) → All P xs → Listed x xs → P x
All-Listed P x [] h m = elim m [ ]
All-Listed P x (y ∷ ys) h (inl e) = subst P (sym e) h.0
All-Listed P x (y ∷ ys) h (inr m) = All-Listed P x ys h.1 m

-- A bounded claim, number by number.
abbrev pub Below : (ℕ → Type 0) → ℕ → Type 0
Below P zero = Unit
Below P (suc k) = P k × Below P k

pub Below-lt : (P : ℕ → Type 0) (k n : ℕ) → Below P k → n < k → P n
Below-lt P zero n h lt = absurd (omega (arith, lt))
Below-lt P (suc k) n h lt = elim (Bool-cases (n == k)) [
  | inl e ↦ subst P (ground (arith, e)) h.0
  | inr d ↦ Below-lt P k n h.1 (ground (arith, d))
]
