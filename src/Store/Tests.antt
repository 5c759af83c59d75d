-- ===== src/Store/Tests.antt =====
-- Pages of three rows.
use mathlib.Core.List.{Perm}
use llm_evaluation_pipeline.Prelude.{
  ℕ, ◌≡◌, refl, true, Option, some, List, [], ◌∷◌, length, leb, if◌then◌else◌, ◌==◌,
  number_comparable,
}
use llm_evaluation_pipeline.Jobs.{in_project}
use llm_evaluation_pipeline.Store.{scoped, page, newest_first, insert_newest}
use llm_evaluation_pipeline.Store.Pages.{
  pages, pages-Perm, IsDescending, newest_first-Perm, newest_first-IsDescending,
}

-- a row is its time, and one row is of another project
abbrev rows : List ℕ
rows = 10 ∷ 25 ∷ 30 ∷ 20 ∷ []

abbrev project_of : ℕ → Option ℕ
project_of r = if r == 25 then some 2 else some 1

abbrev time : ℕ → ℕ
time r = r

-- the second page
last_page : page project_of newest_first time 2 2 (some 1) rows ≡ 10 ∷ []
unfolding page newest_first insert_newest scoped in_project
last_page = refl

enough : leb (length (scoped project_of (some 1) rows)) 4 ≡ true
unfolding scoped in_project
enough = refl

pages-Perm_example :
    Perm
      (pages time project_of (some 1) rows (λ i. newest_first) 2 2 0 0)
      (scoped project_of (some 1) rows)
    × IsDescending time (pages time project_of (some 1) rows (λ i. newest_first) 2 2 0 0)
pages-Perm_example =
    pages-Perm time project_of (some 1) rows (λ i. newest_first) 2 2
      (λ i. (newest_first-Perm time _, newest_first-IsDescending time _)) (λ x y mx my e. e) enough
