-- ===== src/App/Rows.antt =====
-- Rows of a table, found and changed by a test.
use mathlib.Core.Option
use mathlib.Core.List.{Memᴰ}
use llm_evaluation_pipeline.Prelude.{
  ◌≡◌, refl, Bool, true, false, ◌&&◌, some, List, [], ◌∷◌, arith, if◌then◌else◌, first, length,
  Bool-cases, inl, inr,
}

module _ {A : Type 0} where
  -- the assignments `row.x = …` to the rows that pass the test
  unfoldable pub update : (A → Bool) → (A → A) → List A → List A
  update p g [] = []
  update p g (x ∷ xs) = (if p x then g x else x) ∷ update p g xs

  -- the change keeps the row among those that pass
  abbrev pub IsStable : (A → Bool) → (A → A) → Type 0
  IsStable p g = (x : A) → p (g x) ≡ p x

  pub first-update :
      (p : A → Bool) (g : A → A) (xs : List A)
      → IsStable p g
      → first p (update p g xs) ≡ Option.map g (first p xs)
  unfolding update
  first-update p g [] h = refl
  first-update p g (x ∷ xs) h = elim (Bool-cases (p x)) [
    | inl yes' ↦ rw yes' (rw (h x) (rw yes'))
    | inr no' ↦ rw no' (rw no' (first-update p g xs h))
  ]

  pub length-update : (p : A → Bool) (g : A → A) (xs : List A) → length (update p g xs) ≡ length xs
  unfolding update
  length-update p g [] = refl
  length-update p g (x ∷ xs) = omega (arith, length-update p g xs)

pub both : (a b : Bool) → (a && b) ≡ true → (a ≡ true) × (b ≡ true)
both true b h = (refl, h)
both false b h = ground arith

pub first-Mem :
    {A : Type 0} (p : A → Bool) (xs : List A) (x : A)
    → first p xs ≡ some x
    → Memᴰ x xs × (p x ≡ true)
first-Mem p [] x e = ground arith
first-Mem p (y ∷ ys) x e = go (p y) refl (first-Mem p ys x) e
  where
    go :
        (c : Bool)
        → p y ≡ c
        → (first p ys ≡ some x → Memᴰ x ys × (p x ≡ true))
        → (if c then some y else first p ys) ≡ some x
        → Memᴰ x (y ∷ ys) × (p x ≡ true)
    go true h rest e = let same : x ≡ y = ground arith in (Memᴰ.head same, rw same h)
    go false h rest e = let (m, holds) = rest e in (Memᴰ.tail m, holds)
