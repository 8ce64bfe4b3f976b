-- ===== src/Base/Lists.antt =====
-- Lists measured by native numbers, and predicates on their elements.
use native.Mathlib.Omega.{arith}
use mathlib.Core.List.{List, [], ◌∷◌, ◌++◌}
use mathlib.Core.Path.{◌≡◌, refl, ap, ◌∙◌}
use mathlib.Core.Bool.{Bool, false, ◌||◌}
use Prim.Native.Nat.{ℕ, zero, suc, ◌+◌, ◌-◌, ◌≤◌}

abbrev pub length {ℓ} : {E : Type ℓ} → List E → ℕ
length [] = 0
length (_ ∷ l) = suc (length l)

-- `l[:k]`, all of a list that is shorter.
abbrev pub take {ℓ} : {E : Type ℓ} → ℕ → List E → List E
take k [] = []
take zero (e ∷ l) = []
take (suc k) (e ∷ l) = e ∷ take k l

-- `l[k:]`, nothing of a list that is shorter.
abbrev pub drop {ℓ} : {E : Type ℓ} → ℕ → List E → List E
drop k [] = []
drop zero (e ∷ l) = e ∷ l
drop (suc k) (e ∷ l) = drop k l

-- Is the test true of an element?
abbrev pub any {ℓ} : {E : Type ℓ} → List E → (E → Bool) → Bool
any [] test = false
any (e ∷ l) test = test e || any l test

abbrev pub flatten {ℓ} : {E : Type ℓ} → List (List E) → List E
flatten [] = []
flatten (l ∷ ls) = l ++ flatten ls

module _ {ℓ} {E : Type ℓ} where
  pub length-append : (l r : List E) → length (l ++ r) ≡ length l + length r
  length-append [] r = omega arith
  length-append (_ ∷ l) r = omega (arith, length-append l r)

  pub length-take-le : (l : List E) (k : ℕ) → length (take k l) ≤ k
  length-take-le [] k = omega arith
  length-take-le (e ∷ l) zero = omega arith
  length-take-le (e ∷ l) (suc k) = omega (arith, length-take-le l k)

  pub length-drop : (k : ℕ) (l : List E) → length (drop k l) ≡ length l - k
  length-drop k [] = omega arith
  length-drop zero (e ∷ l) = omega arith
  length-drop (suc k) (e ∷ l) = omega (arith, length-drop k l)

  pub length-take : (k : ℕ) (l : List E) → length (take k l) + (length l - k) ≡ length l
  length-take k [] = omega arith
  length-take zero (e ∷ l) = omega arith
  length-take (suc k) (e ∷ l) = omega (arith, length-take k l)

  pub take-append-drop : (k : ℕ) (l : List E) → take k l ++ drop k l ≡ l
  take-append-drop k [] = refl
  take-append-drop zero (e ∷ l) = refl
  take-append-drop (suc k) (e ∷ l) = ap (◌∷◌ e) (take-append-drop k l)

  pub drop-drop : (j k : ℕ) (l : List E) → drop j (drop k l) ≡ drop (k + j) l
  drop-drop j k [] = refl
  drop-drop j zero (e ∷ l) = let q : j ≡ 0 + j = omega arith in ap (λ n. drop n (e ∷ l)) q
  drop-drop j (suc k) (e ∷ l) =
      let q : suc (k + j) ≡ suc k + j = omega arith in drop-drop j k l ∙ ap (λ n. drop n (e ∷ l)) q

  pub drop_all : (k : ℕ) (l : List E) → length l ≤ k → drop k l ≡ []
  drop_all k [] h = refl
  drop_all zero (e ∷ l) h = ground arith
  drop_all (suc k) (e ∷ l) h = drop_all k l (omega (arith, h))

  pub take_enough : (j k : ℕ) (l : List E) → length l ≤ j → length l ≤ k → take j l ≡ take k l
  take_enough j k [] h i = refl
  take_enough (suc j) (suc k) (e ∷ l) h i =
      ap (◌∷◌ e) (take_enough j k l (omega (arith, h)) (omega (arith, i)))
  take_enough zero k (e ∷ l) h i = ground arith
  take_enough (suc j) zero (e ∷ l) h i = ground arith

  -- The whole slice.
  pub take-length : (l : List E) → take (length l) l ≡ l
  take-length [] = refl
  take-length (e ∷ l) = ap (◌∷◌ e) (take-length l)

-- A predicate by recursion computes to tuples, which the tactics read and build.
abbrev pub All {ℓ κ} : {E : Type ℓ} → (E → Type κ) → List E → Type κ
All P [] = Unit
All P (e ∷ l) = P e × All P l

pub All-append {ℓ κ} :
    {E : Type ℓ} (P : E → Type κ) (l r : List E) → All P l → All P r → All P (l ++ r)
All-append P [] r h k = k
All-append P (e ∷ l) r (here, h) k = (here, All-append P l r h k)
