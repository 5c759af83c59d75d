-- ===== src/Auth/Keys/Revoked.antt =====
-- A key that was revoked.
use mathlib.Core.List.{Memᴰ}
use llm_evaluation_pipeline.Prelude.{
  ℕ, ◌≡◌, ◌≢◌, refl, ap, subst, ◌∙◌, String, true, false, List, [], ◌∷◌, arith, ◌==◌,
  number_comparable,
}
use llm_evaluation_pipeline.Models.{Project, ApiKey, Database}
use llm_evaluation_pipeline.App.{Backend, World, ok, commit}
use llm_evaluation_pipeline.App.Rows.{update}
use llm_evaluation_pipeline.App.Hoare.{
  Outcome, Outcome-bind, Outcome-weaken, Returns, Returns-then, commit-Outcome,
}
use llm_evaluation_pipeline.Auth.Keys.{disable, revoke_api_key, rotate_api_key}
use llm_evaluation_pipeline.Auth.Sound.{IsAuthorised}

abbrev disabled : ApiKey → ApiKey
disabled k = record k { enabled = false }

disabled_row :
    (key_id : ℕ) (rows : List ApiKey) (k : ApiKey)
    → Memᴰ k (update (λ j. j.id == key_id) disabled rows)
    → k.enabled ≡ true
    → k.id ≢ key_id
unfolding update
disabled_row key_id [] k m on same = elim m [ ]
disabled_row key_id (j ∷ rows) k (Memᴰ.head e) on same =
    ground (arith, ap (λ x. x.enabled) e, ap (λ x. x.id) e)
disabled_row key_id (j ∷ rows) k (Memᴰ.tail m) on same = disabled_row key_id rows k m on same

module _ {F D R V : Type 0} (b : Backend F D R V) (hash_api_key : String → String)
    (generate_api_key : Database F D → String) where
  -- the rows with the identifier are disabled in what is committed
  abbrev IsRevoked : ℕ → World F D R → Type 0
  IsRevoked key_id w = (k : ApiKey) → Memᴰ k w.stored.api_keys → k.enabled ≡ true → k.id ≢ key_id

  disable-IsRevoked :
      (key_id : ℕ)
      → Returns (disable b hash_api_key generate_api_key key_id) (λ _ w. IsRevoked key_id w)
  unfolding disable
  disable-IsRevoked key_id = record {
    value = λ w.
        Outcome-bind
          (λ _ v. v.view.api_keys ≡ update (λ j. j.id == key_id) disabled w.view.api_keys)
          (λ _ v. IsRevoked key_id v) (λ _. Unit) _ _ w refl
          λ _ v changed.
            Outcome-weaken (λ _ u. u.stored ≡ v.view) (λ _ u. IsRevoked key_id u) (commit b v)
              (λ _ u same k m.
                disabled_row key_id w.view.api_keys k
                  (subst (Memᴰ k) (ap (λ db. db.api_keys) same ∙ changed) m))
              (commit-Outcome b v);
  }

  -- Once a key was revoked, and the revocation was committed, no request is authorised by a row with
  -- its identifier, whatever text the request presents.
  pub revoke_api_key-revokes :
      (project_id key_id time : ℕ) (w v : World F D R) (keys : List String) (p : Project)
      (a : IsAuthorised hash_api_key keys time v.stored.api_keys p)
      → revoke_api_key b hash_api_key generate_api_key project_id key_id w ≡ (ok tt, v)
      → a.row.id ≢ key_id
  unfolding revoke_api_key
  revoke_api_key-revokes project_id key_id time w v keys p a e =
      let revoked : Returns (revoke_api_key b hash_api_key generate_api_key project_id key_id)
          (λ _ w. IsRevoked key_id w) =
        Returns-then _ _ _ λ _. disable-IsRevoked key_id in
      (subst (Outcome (λ _ u. IsRevoked key_id u) (λ _. Unit)) e (revoked.value w)) a.row a.stored
        a.enabled

  -- The same of a key that was rotated: its own row authorises no request any more, whatever text the
  -- request presents and whatever the replacement is.
  pub rotate_api_key-revokes :
      (project_id key_id time : ℕ) (w v : World F D R) (keys : List String) (p : Project)
      (replacement : ApiKey × String) (a : IsAuthorised hash_api_key keys time v.stored.api_keys p)
      → rotate_api_key b hash_api_key generate_api_key project_id key_id w ≡ (ok replacement, v)
      → a.row.id ≢ key_id
  unfolding rotate_api_key
  rotate_api_key-revokes project_id key_id time w v keys p replacement a e =
      let rotated : Returns (rotate_api_key b hash_api_key generate_api_key project_id key_id)
          (λ _ u. IsRevoked key_id u) =
        Returns-then _ _ _ λ _. Returns-then _ _ _ λ _. Returns-then _ _ _ λ _. record {
          value = λ u.
              Outcome-bind (λ _ t. IsRevoked key_id t) (λ _ t. IsRevoked key_id t) (λ _. Unit) _ _ u
                ((disable-IsRevoked key_id).value u) λ _ t h. h;
        } in
      (subst (Outcome (λ _ u. IsRevoked key_id u) (λ _. Unit)) e (rotated.value w)) a.row a.stored
        a.enabled
