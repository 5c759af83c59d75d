-- ===== src/Dict.antt =====
-- Python's `dict` with `str` keys, as the list of its entries in insertion order, which is the order
-- in which the program iterates.
use llm_evaluation_pipeline.Prelude.{
  String, ◌≡◌, refl, Bool, true, false, Option, none, some, List, [], ◌∷◌, arith, ◌==◌,
  text_comparable, eq_self, if◌then◌else◌, All, inl, inr, Bool-cases,
}
use mathlib.Core.Option.{some-injective}
use text.Mathlib.TextEquality.{eq_iff}

abbrev pub Dict {ℓ} : Type ℓ → Type ℓ
Dict V = List (String × V)

module _ {ℓ} {V : Type ℓ} where
  -- d.get(k)
  unfoldable pub lookup : String → Dict V → Option V
  lookup k [] = none
  lookup k ((j, v) ∷ d) = if j == k then some v else lookup k d

  -- `k in d`
  unfoldable pub contains : String → Dict V → Bool
  contains k [] = false
  contains k ((j, v) ∷ d) = if j == k then true else contains k d

  -- d[k] = v: a new key goes to the end
  unfoldable pub insert : String → V → Dict V → Dict V
  insert k v [] = (k, v) ∷ []
  insert k v ((j, w) ∷ d) = if j == k then (j, v) ∷ d else (j, w) ∷ insert k v d

  abbrev pub keys : Dict V → List String
  keys [] = []
  keys ((k, v) ∷ d) = k ∷ keys d

  abbrev pub values : Dict V → List V
  values [] = []
  values ((k, v) ∷ d) = v ∷ values d

  -- no key stands twice, as in every `dict`
  abbrev pub IsDict : Dict V → Type 0
  IsDict [] = Unit
  IsDict ((k, v) ∷ d) = (contains k d ≡ false) × IsDict d

  pub lookup-insert :
      (k j : String) (v : V) (d : Dict V)
      → lookup j (insert k v d) ≡ (if k == j then some v else lookup j d)
  unfolding lookup insert
  lookup-insert k j v [] = refl
  lookup-insert k j v ((i, w) ∷ d) =
      ground (arith, eq_iff k j, eq_iff i k, eq_iff i j, lookup-insert k j v d)

  pub contains-insert :
      (k j : String) (v : V) (d : Dict V)
      → contains j (insert k v d) ≡ (if k == j then true else contains j d)
  unfolding contains insert
  contains-insert k j v [] = refl
  contains-insert k j v ((i, w) ∷ d) =
      ground (arith, eq_iff k j, eq_iff i k, eq_iff i j, contains-insert k j v d)

  pub insert-IsDict : (k : String) (v : V) (d : Dict V) → IsDict d → IsDict (insert k v d)
  unfolding insert contains
  insert-IsDict k v [] h = (refl, tt)
  insert-IsDict k v ((j, w) ∷ d) h =
      ground (arith, insert-IsDict k v d h.1, contains-insert k j v d, eq_iff k j, eq_iff j k)

  -- a missing key has no value
  pub lookup_missing : (k : String) (d : Dict V) → contains k d ≡ false → lookup k d ≡ none
  unfolding lookup contains
  lookup_missing k [] h = refl
  lookup_missing k ((j, v) ∷ d) h = ground (arith, lookup_missing k d)

  -- What holds of the entries holds after an assignment that keeps it.
  pub All-insert {κ} :
      (P : String → V → Type κ) (k : String) (v : V) (d : Dict V)
      → All (λ e. P e.0 e.1) d
      → P k v
      → All (λ e. P e.0 e.1) (insert k v d)
  unfolding insert
  All-insert P k v [] a p = (p, tt)
  All-insert P k v ((j, w) ∷ d) a p = elim (Bool-cases (j == k)) [
    | inl same ↦ rw same (rw ((eq_iff j k).0 same) (p, a.1))
    | inr other ↦ rw other (a.0, All-insert P k v d a.1 p)
  ]

module _ {ℓ} {V : Type ℓ} where
  -- What holds of all values holds of the one at a key.
  pub lookup-All {κ} :
      (P : V → Type κ) (k : String) (v : V) (d : Dict V)
      → All P (values d)
      → lookup k d ≡ some v
      → P v
  unfolding lookup
  lookup-All P k v [] a e = cc
  lookup-All P k v ((j, w) ∷ d) a e = elim (Bool-cases (j == k)) [
    | inl same ↦ let found : some w ≡ some v = rw same at e in rw (← some-injective w v found) a.0
    | inr other ↦ lookup-All P k v d a.1 (rw other at e)
  ]

  -- Where no key stands twice, each value is found at a key.
  pub All-lookup {κ} :
      (P : V → Type κ) (d : Dict V)
      → IsDict d
      → ((k : String) (v : V) → lookup k d ≡ some v → P v)
      → All P (values d)
  unfolding lookup
  All-lookup P [] u h = tt
  All-lookup P ((j, w) ∷ d) u h = (
    h j w (rw eq_self),
    All-lookup P d u.1 λ k v e. h k v (elim (Bool-cases (j == k)) [
      | inl same ↦ cc (lookup_missing k d (rw (← (eq_iff j k).0 same) u.0))
      | inr other ↦ rw other e
    ]),
  )

  pub All-values {κ} : (P : V → Type κ) (d : Dict V) → All (λ e. P e.1) d → All P (values d)
  All-values P [] a = tt
  All-values P ((k, v) ∷ d) a = (a.0, All-values P d a.1)
