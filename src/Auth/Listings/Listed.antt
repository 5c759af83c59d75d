-- ===== src/Auth/Listings/Listed.antt =====
-- A new key is listed.
use mathlib.Core.List.{Memᴰ}
use llm_evaluation_pipeline.Prelude.{
  ℕ, ◌≡◌, refl, sym, ap, subst, ◌∙◌, String, Bool, true, false, Bool-cases, inl, inr, Option, none,
  some, List, [], ◌∷◌, ◌++◌, map, select, leb, ◌==◌, number_comparable,
}
use llm_evaluation_pipeline.Prelude.{false≢true, All, text_comparable}
use llm_evaluation_pipeline.App.{prefix}
use llm_evaluation_pipeline.Auth.Secret.{dotted, key_prefix}
use llm_evaluation_pipeline.Auth.Listings.{shown_prefix}
use Prim.Native.Char.{Char}
use llm_evaluation_pipeline.Text.{is_text}
use text.Mathlib.TextLemmas.{cons-append}
use llm_evaluation_pipeline.Models.{Project, ApiKey, Database}
use llm_evaluation_pipeline.App.{
  Exec, Backend, World, ok, pure, raise, commit, in_session, ◌>>=◌, ◌>>◌, http_exception,
}
use llm_evaluation_pipeline.App.Hoare.{
  Outcome, Outcome-bind, Outcome-world, Returns, Returns-then, Returns-in_session, query-Outcome,
  commit-Outcome,
}
use llm_evaluation_pipeline.Store.{insert_newest, newest_first}
use llm_evaluation_pipeline.Auth.Keys.{get_project, find_project, create_key_record, create_api_key}
use llm_evaluation_pipeline.Auth.Listings.{ApiKeyResponse, listed_key, list_api_keys}

module _ {A : Type 0} where
  last-Mem : (xs : List A) (x : A) → Memᴰ x (xs ++ x ∷ [])
  last-Mem [] x = Memᴰ.head refl
  last-Mem (y ∷ ys) x = Memᴰ.tail (last-Mem ys x)

  select-Mem : (p : A → Bool) (xs : List A) (x : A) → p x ≡ true → Memᴰ x xs → Memᴰ x (select p xs)
  select-Mem p [] x h m = elim m [ ]
  select-Mem p (y ∷ ys) x h (Memᴰ.head e) = rw (ap p (sym e) ∙ h) (Memᴰ.head e)
  select-Mem p (y ∷ ys) x h (Memᴰ.tail m) = elim (Bool-cases (p y)) [
    | inl t ↦ rw t (Memᴰ.tail (select-Mem p ys x h m))
    | inr f ↦ rw f (select-Mem p ys x h m)
  ]

  module _ (created_at : A → ℕ) where
    insert_newest-head : (x : A) (xs : List A) → Memᴰ x (insert_newest created_at x xs)
    unfolding insert_newest
    insert_newest-head x [] = Memᴰ.head refl
    insert_newest-head x (y ∷ ys) = elim (Bool-cases (leb (created_at y) (created_at x))) [
      | inl t ↦ rw t (Memᴰ.head refl)
      | inr f ↦ rw f (Memᴰ.tail (insert_newest-head x ys))
    ]

    insert_newest-Mem : (x z : A) (xs : List A) → Memᴰ z xs → Memᴰ z (insert_newest created_at x xs)
    unfolding insert_newest
    insert_newest-Mem x z [] m = elim m [ ]
    insert_newest-Mem x z (y ∷ ys) (Memᴰ.head e) =
        elim (Bool-cases (leb (created_at y) (created_at x))) [
          | inl t ↦ rw t (Memᴰ.tail (Memᴰ.head e))
          | inr f ↦ rw f (Memᴰ.head e)
        ]
    insert_newest-Mem x z (y ∷ ys) (Memᴰ.tail m) =
        elim (Bool-cases (leb (created_at y) (created_at x))) [
          | inl t ↦ rw t (Memᴰ.tail (Memᴰ.tail m))
          | inr f ↦ rw f (Memᴰ.tail (insert_newest-Mem x z ys m))
        ]

    newest_first-Mem : (z : A) (xs : List A) → Memᴰ z xs → Memᴰ z (newest_first created_at xs)
    unfolding newest_first
    newest_first-Mem z [] m = elim m [ ]
    newest_first-Mem z (x ∷ xs) (Memᴰ.head e) =
        subst (λ y. Memᴰ z (insert_newest created_at y (newest_first created_at xs))) e
          (insert_newest-head z _)
    newest_first-Mem z (x ∷ xs) (Memᴰ.tail m) = insert_newest-Mem x z _ (newest_first-Mem z xs m)

map-Mem : {A B : Type 0} (g : A → B) (x : A) (xs : List A) → Memᴰ x xs → Memᴰ (g x) (map g xs)
map-Mem g x [] m = elim m [ ]
map-Mem g x (y ∷ ys) (Memᴰ.head e) = Memᴰ.head (ap g e)
map-Mem g x (y ∷ ys) (Memᴰ.tail m) = Memᴰ.tail (map-Mem g x ys m)

impossible : (c : Char) (s : String) → String.◌∷◌ c s ≡ "" → ⊥
impossible c s e = elim (false≢true (sym (ap is_text e))) [ ]

dots_not_empty : (s : String) → (dotted s == "") ≡ false
dots_not_empty String.[] = refl
dots_not_empty (String.◌∷◌ c s) = elim (Bool-cases (dotted (String.◌∷◌ c s) == "")) [
  | inl e ↦
      elim (impossible c _ (sym (cons-append c s "...") ∙ text_comparable.same_sound _ _ e)) [ ]
  | inr e ↦ e
]

shown_prefix_start :
    (k : ApiKey) (text : String)
    → k.key_prefix ≡ dotted (prefix 15 text)
    → shown_prefix k ≡ dotted (prefix 15 text)
unfolding shown_prefix
shown_prefix_start k text e = rw (ap (λ s. s == "") e ∙ dots_not_empty (prefix 15 text)) e

listed_without : (keys : List ApiKey) → All (λ r. r.key ≡ none) (map listed_key keys)
unfolding listed_key
listed_without [] = tt
listed_without (k ∷ ks) = (refl, listed_without ks)

module _ {F D R V : Type 0} (b : Backend F D R V) (hash_api_key : String → String)
    (generate_api_key : Database F D → String) where
  -- the row is stored, and it is an enabled one of the project, with the start of the key's text
  abbrev IsStored : ℕ → String → ApiKey × String → World F D R → Type 0
  IsStored project_id name made w =
      Memᴰ made.0 w.stored.api_keys
      × ((made.0.project_id ≡ project_id)
          × ((made.0.name ≡ name)
              × ((made.0.enabled ≡ true) × (made.0.key_prefix ≡ dotted (prefix 15 made.1)))))

  commit-IsStored :
      (project_id : ℕ) (name : String) (made : ApiKey × String) (u : World F D R)
      → Memᴰ made.0 u.view.api_keys
      → made.0.project_id ≡ project_id
      → made.0.name ≡ name
      → made.0.enabled ≡ true
      → made.0.key_prefix ≡ dotted (prefix 15 made.1)
      → Outcome (IsStored project_id name) (λ _. Unit) ((commit b >> pure made) u)
  commit-IsStored project_id name made u m owned named on start =
      Outcome-bind (λ _ v. v.stored ≡ u.view) (IsStored project_id name) (λ _. Unit) (commit b)
        (λ _. pure made) u (commit-Outcome b u)
        λ _ v same.
          (subst (λ db. Memᴰ made.0 db.api_keys) (sym same) m, (owned, (named, (on, start))))

  create_key_record-IsStored :
      (project_id : ℕ) (name : String) (days : Option ℕ)
      → Returns
          (create_key_record b hash_api_key generate_api_key project_id name days)
          (IsStored project_id name)
  unfolding create_key_record ◌>>=◌ key_prefix
  create_key_record-IsStored project_id name days = record {
    value =
        λ w. commit-IsStored project_id name _ _ (last-Mem w.view.api_keys _) refl refl refl refl;
  }

  create_api_key-IsStored :
      (project_id : ℕ) (name : String) (days : Option ℕ)
      → Returns
          (in_session (create_api_key b hash_api_key generate_api_key project_id name days))
          (IsStored project_id name)
  unfolding create_api_key
  create_api_key-IsStored project_id name days =
      Returns-in_session _ _ (λ _ w h. h)
        (Returns-then _ _ _ λ project. create_key_record-IsStored project_id name days)

  -- the lookup of a project changes nothing
  get_project-same :
      (id : ℕ) (w : World F D R)
      → Outcome (λ _ u. u ≡ w) (λ _. Unit) (get_project b hash_api_key generate_api_key id w)
  unfolding get_project find_project
  get_project-same id w =
      Outcome-bind _ (λ _ u. u ≡ w) (λ _. Unit) _ _ w (query-Outcome _ w)
        λ found u h. go found u h.1
    where
      go :
          (found : Option Project) (u : World F D R)
          → u ≡ w
          → Outcome
              (λ _ v. v ≡ w)
              (λ _. Unit)
              ((elim found as (λ _. Exec F D R Project) [
                | none ↦ raise (http_exception 404)
                | some p ↦ pure p
              ])
                u)
      go none u h = tt
      go (some p) u h = h

  -- the row is in the list, as a whole, and no entry has a text
  abbrev IsList : ApiKey → List ApiKeyResponse → Type 0
  IsList k rs = Memᴰ (listed_key k) rs × All (λ r. r.key ≡ none) rs

  list_api_keys-IsList :
      (project_id : ℕ) (w : World F D R) (k : ApiKey)
      → Memᴰ k w.view.api_keys
      → k.project_id ≡ project_id
      → Outcome
          (λ rs _. IsList k rs)
          (λ _. Unit)
          (list_api_keys b hash_api_key generate_api_key project_id w)
  unfolding list_api_keys
  list_api_keys-IsList project_id w k m owned =
      Outcome-bind _ _ (λ _. Unit) _ _ w (get_project-same project_id w)
        λ _ u same.
          Outcome-bind _ _ (λ _. Unit) _ _ u (query-Outcome _ u)
            λ keys v h. (
              map-Mem listed_key k keys (
                  subst (Memᴰ k) (sym h.0) (
                    newest_first-Mem (λ j. j.created_at) k _
                      (select-Mem (λ j. j.project_id == project_id) u.view.api_keys k
                        (subst (λ z. (k.project_id == z) ≡ true) owned
                          (number_comparable.same_self k.project_id))
                        (subst (λ z. Memᴰ k z.view.api_keys) (sym same) m)))),
              listed_without keys,
            )

  -- what the list shows of a new key: no text, and of the text the first 15 characters
  abbrev pub IsShown : String → ApiKey × String → ApiKeyResponse → Type 0
  IsShown name made r =
      (r.id ≡ made.0.id)
      × ((r.name ≡ name)
          × ((r.key ≡ none)
              × ((r.key_prefix ≡ dotted (prefix 15 made.1))
                  × ((r.enabled ≡ true)
                      × ((r.created_at ≡ made.0.created_at)
                          × (r.expires_at ≡ made.0.expires_at))))))

  -- A key that a request creates is in every list of the project's keys that a later request is
  -- answered, nothing else happening in between: there with its identifier, name, times and the
  -- first 15 characters of its text, enabled, and without the text; no other entry of the list has a
  -- text either.
  pub create_api_key-list_api_keys :
      (project_id : ℕ) (name : String) (days : Option ℕ) (made : ApiKey × String)
      (keys : List ApiKeyResponse) (w v u : World F D R)
      → in_session (create_api_key b hash_api_key generate_api_key project_id name days) w
        ≡ (ok made, v)
      → in_session (list_api_keys b hash_api_key generate_api_key project_id) v ≡ (ok keys, u)
      → ((r : ApiKeyResponse) × (Memᴰ r keys × IsShown name made r)) × All (λ r. r.key ≡ none) keys
  unfolding in_session listed_key
  create_api_key-list_api_keys project_id name days made keys w v u created listed =
      let (m, (owned, (named, (on, start)))) =
        subst (Outcome (IsStored project_id name) (λ _. Unit)) created
          ((create_api_key-IsStored project_id name days).value w) in
      let opened : World F D R = record v { view = v.stored; broken = false } in
      let found : IsList made.0 keys =
        subst (Outcome (λ rs _. IsList made.0 rs) (λ _. Unit)) listed (
          Outcome-world (λ rs _. IsList made.0 rs) (λ rs _. IsList made.0 rs)
            (λ z. record z { view = z.stored; broken = false })
            (list_api_keys b hash_api_key generate_api_key project_id opened) (λ _ _ h. h)
            (list_api_keys-IsList project_id opened made.0 m owned)) in
      (
        (
          listed_key made.0,
          (
            found.0,
            (refl, (named, (refl, (shown_prefix_start made.0 made.1 start, (on, (refl, refl)))))),
          ),
        ),
        found.1,
      )
