-- ===== src/Store/Pages.antt =====
-- The pages of a list of rows.
use mathlib.Core.List.{Perm, Mem, mem-cons, mem-cons_self, mem-cons_of_mem, not-mem-nil}
use mathlib.Core.Logic.Or
use native.Mathlib.Bridge.{le_prop}
use mathlib.Core.List.Perm
use native.Mathlib.Nat.{suc-mul}
use llm_evaluation_pipeline.Prelude.{
  All, ◌≤◌, subst, ℕ, zero, suc, ◌+◌, ◌*◌, ◌≡◌, refl, sym, ap, ◌∙◌, true, false, Option, List, [],
  ◌∷◌, ◌++◌, arith, take, drop, length, leb, Bool-cases, inl, inr,
}
use llm_evaluation_pipeline.Store.{insert_newest, newest_first, scoped, page}

no_later : (n m : ℕ) → leb n m ≡ true → n ≤ m
no_later n m h = ground arith

no_earlier : (n m : ℕ) → leb n m ≡ false → m ≤ n
no_earlier n m h = ground arith

suc_add : (n m : ℕ) → suc n + m ≡ suc (n + m)
suc_add n m = omega arith

zero_add : (m : ℕ) → 0 + m ≡ m
zero_add m = omega arith

zero_mul : (n : ℕ) → 0 * n ≡ 0
zero_mul n = omega arith

add_mul : (n k : ℕ) → suc k * n ≡ n + k * n
add_mul n k = suc-mul k n ∙ omega arith

module _ {A : Type 0} where
  take-nil : (n : ℕ) → take {A = A} n [] ≡ []
  take-nil zero = refl
  take-nil (suc n) = refl

  drop-nil : (n : ℕ) → drop {A = A} n [] ≡ []
  drop-nil zero = refl
  drop-nil (suc n) = refl

  take-take : (n m : ℕ) (xs : List A) → take n xs ++ take m (drop n xs) ≡ take (n + m) xs
  take-take zero m xs = rw (zero_add m) refl
  take-take (suc n) m [] = take-nil m ∙ sym (take-nil (suc n + m))
  take-take (suc n) m (x ∷ xs) = rw (suc_add n m) (ap (λ ys. x ∷ ys) (take-take n m xs))

  drop-drop : (n m : ℕ) (xs : List A) → drop m (drop n xs) ≡ drop (n + m) xs
  drop-drop zero m xs = rw (zero_add m) refl
  drop-drop (suc n) m [] = drop-nil m ∙ sym (drop-nil (suc n + m))
  drop-drop (suc n) m (x ∷ xs) = rw (suc_add n m) (drop-drop n m xs)

  take_all : (n : ℕ) (xs : List A) → leb (length xs) n ≡ true → take n xs ≡ xs
  take_all zero [] h = refl
  take_all zero (x ∷ xs) h = ground arith
  take_all (suc n) [] h = refl
  take_all (suc n) (x ∷ xs) h = ap (λ ys. x ∷ ys) (take_all n xs (ground arith))

  module _ (created_at : A → ℕ) where
    insert_newest-Perm : (x : A) (xs : List A) → Perm (insert_newest created_at x xs) (x ∷ xs)
    unfolding insert_newest
    insert_newest-Perm x [] = Perm.refl _
    insert_newest-Perm x (y ∷ ys) = elim (Bool-cases (leb (created_at y) (created_at x))) [
      | inl newer ↦ rw newer (Perm.refl _)
      | inr older ↦ rw older (Perm.trans (Perm.cons y (insert_newest-Perm x ys)) (Perm.swap _ _ _))
    ]

    pub newest_first-Perm : (xs : List A) → Perm (newest_first created_at xs) xs
    unfolding newest_first
    newest_first-Perm [] = Perm.refl _
    newest_first-Perm (x ∷ xs) =
        Perm.trans (insert_newest-Perm x (newest_first created_at xs))
          (Perm.cons x (newest_first-Perm xs))

    length-insert_newest :
        (x : A) (xs : List A) → length (insert_newest created_at x xs) ≡ suc (length xs)
    unfolding insert_newest
    length-insert_newest x [] = refl
    length-insert_newest x (y ∷ ys) = elim (Bool-cases (leb (created_at y) (created_at x))) [
      | inl newer ↦ rw newer refl
      | inr older ↦ rw older (ap suc (length-insert_newest x ys))
    ]

    length-newest_first : (xs : List A) → length (newest_first created_at xs) ≡ length xs
    unfolding newest_first
    length-newest_first [] = refl
    length-newest_first (x ∷ xs) =
        length-insert_newest x (newest_first created_at xs) ∙ ap suc (length-newest_first xs)

    -- no row before a newer one
    abbrev pub IsDescending : List A → Type 0
    IsDescending [] = Unit
    IsDescending (x ∷ xs) = All (λ y. created_at y ≤ created_at x) xs × IsDescending xs

    All-le :
        (n m : ℕ) (xs : List A)
        → n ≤ m
        → All (λ y. created_at y ≤ n) xs
        → All (λ y. created_at y ≤ m) xs
    All-le n m [] h a = tt
    All-le n m (x ∷ xs) h a = (omega (arith, a.0, h), All-le n m xs h a.1)

    All-insert_newest :
        (n : ℕ) (x : A) (xs : List A)
        → created_at x ≤ n
        → All (λ y. created_at y ≤ n) xs
        → All (λ y. created_at y ≤ n) (insert_newest created_at x xs)
    unfolding insert_newest
    All-insert_newest n x [] h a = (h, tt)
    All-insert_newest n x (y ∷ ys) h a = elim (Bool-cases (leb (created_at y) (created_at x))) [
      | inl newer ↦ rw newer (h, a)
      | inr older ↦ rw older (a.0, All-insert_newest n x ys h a.1)
    ]

    insert_newest-IsDescending :
        (x : A) (xs : List A) → IsDescending xs → IsDescending (insert_newest created_at x xs)
    unfolding insert_newest
    insert_newest-IsDescending x [] d = (tt, tt)
    insert_newest-IsDescending x (y ∷ ys) d =
        elim (Bool-cases (leb (created_at y) (created_at x))) [
          | inl newer ↦ rw newer (
            (no_later _ _ newer, All-le (created_at y) (created_at x) ys (no_later _ _ newer) d.0),
            d,
          )
          | inr older ↦ rw older (
            All-insert_newest (created_at y) x ys (no_earlier _ _ older) d.0,
            insert_newest-IsDescending x ys d.1,
          )
        ]

    pub newest_first-IsDescending : (xs : List A) → IsDescending (newest_first created_at xs)
    unfolding newest_first
    newest_first-IsDescending [] = tt
    newest_first-IsDescending (x ∷ xs) =
        insert_newest-IsDescending x _ (newest_first-IsDescending xs)

    le_of_mem :
        (n : ℕ) (x : A) (xs : List A) → All (λ y. created_at y ≤ n) xs → Mem x xs → created_at x ≤ n
    le_of_mem n x [] a m = absurd (not-mem-nil m)
    le_of_mem n x (y ∷ ys) a m =
        Or.elim le_prop (mem-cons.0 m) (λ e. rw e a.0) (le_of_mem n x ys a.1)

    -- rows of the same time are the same row
    abbrev pub IsDistinct : List A → Type 0
    IsDistinct xs = (x y : A) → Mem x xs → Mem y xs → created_at x ≡ created_at y → x ≡ y

    -- the first row of a descending list is at least as new as any
    le_of_head :
        (x y : A) (ys : List A)
        → IsDescending (y ∷ ys)
        → Mem x (y ∷ ys)
        → created_at x ≤ created_at y
    le_of_head x y ys d m = le_of_mem (created_at y) x (y ∷ ys) (omega arith, d.0) m

    -- there is one descending order of rows of distinct times
    descending_unique :
        (xs ys : List A) → Perm xs ys → IsDescending xs → IsDescending ys → IsDistinct xs → xs ≡ ys
    descending_unique [] ys p d e u = Perm.nil-eq p
    descending_unique (x ∷ xs) [] p d e u = Perm.eq-nil p
    descending_unique (x ∷ xs) (y ∷ ys) p d e u =
        let in_ys : Mem x (y ∷ ys) = (Perm.mem_iff p).0 mem-cons_self in
        let in_xs : Mem y (x ∷ xs) = (Perm.mem_iff p).1 mem-cons_self in
        let same : x ≡ y =
          u x y mem-cons_self in_xs
            (omega (arith, le_of_head x y ys e in_ys, le_of_head y x xs d in_xs)) in
        let rest : Perm xs ys = Perm.cons_inv (subst (λ z. Perm (x ∷ xs) (z ∷ ys)) (sym same) p) in
        ap (λ z. z ∷ xs) same
        ∙ ap (λ zs. y ∷ zs)
            (descending_unique xs ys rest d.1 e.1
              λ a b ma mb. u a b (mem-cons_of_mem _ ma) (mem-cons_of_mem _ mb))

    module _ (project_of : A → Option ℕ) (project : Option ℕ) (rows : List A) where
      -- what the documentation of SQL says of `ORDER BY … DESC`
      abbrev pub IsOrderByDesc : ((A → ℕ) → List A → List A) → Type 0
      IsOrderByDesc order =
          Perm (order created_at (scoped project_of project rows)) (scoped project_of project rows)
          × IsDescending (order created_at (scoped project_of project rows))

      module _ (orders : ℕ → (A → ℕ) → List A → List A) where
        -- the answers to k requests from the i-th on, each for the n rows after those before it
        unfoldable pub pages : ℕ → ℕ → ℕ → ℕ → List A
        pages n zero i offset = []
        pages n (suc k) i offset =
            page project_of (orders i) created_at offset n project rows
            ++ pages n k (suc i) (offset + n)

        module _ (ordered : (i : ℕ) → IsOrderByDesc (orders i))
            (distinct : IsDistinct (scoped project_of project rows)) where
          order-newest_first :
              (i : ℕ)
              → orders i created_at (scoped project_of project rows)
                ≡ newest_first created_at (scoped project_of project rows)
          order-newest_first i =
              let p = (ordered i).0 in
              descending_unique _ _ (Perm.trans p (Perm.symm (newest_first-Perm _))) (ordered i).1
                (newest_first-IsDescending _)
                λ a b ma mb. distinct a b ((Perm.mem_iff p).0 ma) ((Perm.mem_iff p).0 mb)

          pages-take :
              (n k i offset : ℕ)
              → pages n k i offset
                ≡ take
                    (k * n)
                    (drop offset (newest_first created_at (scoped project_of project rows)))
          unfolding pages page
          pages-take n zero i offset = rw (zero_mul n) refl
          pages-take n (suc k) i offset =
              let all = newest_first created_at (scoped project_of project rows) in
              let shown = drop offset all in
              let rest : pages n k (suc i) (offset + n) ≡ take (k * n) (drop n shown) =
                pages-take n k (suc i) (offset + n)
                ∙ ap (take (k * n)) (sym (drop-drop offset n all)) in
              ap (λ zs. take n (drop offset zs) ++ pages n k (suc i) (offset + n))
                (order-newest_first i)
              ∙ (ap (λ ys. take n shown ++ ys) rest
                  ∙ (take-take n (k * n) shown ∙ ap (λ t. take t shown) (sym (add_mul n k))))

          pages_all :
              (n k : ℕ)
              → leb (length (scoped project_of project rows)) (k * n) ≡ true
              → pages n k 0 0 ≡ newest_first created_at (scoped project_of project rows)
          pages_all n k enough =
              pages-take n k 0 0
              ∙ take_all (k * n) (newest_first created_at (scoped project_of project rows))
                  (rw (length-newest_first (scoped project_of project rows)) enough)

      -- Going through the pages of n rows, one after the other and no row changed meanwhile, one
      -- sees every row of the project exactly once and the newest first, if there are as many pages as
      -- the number of rows asks for and no two rows have the same time. The database may order each
      -- query in its own way, as long as the order is by descending time.
      pub pages-Perm :
          (orders : ℕ → (A → ℕ) → List A → List A) (n k : ℕ)
          → ((i : ℕ) → IsOrderByDesc (orders i))
          → IsDistinct (scoped project_of project rows)
          → leb (length (scoped project_of project rows)) (k * n) ≡ true
          → Perm (pages orders n k 0 0) (scoped project_of project rows)
            × IsDescending (pages orders n k 0 0)
      pages-Perm orders n k ordered distinct enough =
          rw (pages_all orders ordered distinct n k enough)
            (newest_first-Perm (scoped project_of project rows), newest_first-IsDescending _)
