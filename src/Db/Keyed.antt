-- ===== src/Db/Keyed.antt =====
-- Tables whose rows have a primary key: a read by key after an update by key, or after an insert.
use shop_os.Common.{
  ℕ, ◌≡◌, refl, Bool, ◌&&◌, Option, none, some, List, [], ◌∷◌, ◌++◌, arith, ◌==◌, if◌then◌else◌,
  find_first, update_where, find_first-append_none, true, ==→eq, find_first-holds, subst, sym,
  Bool-cases, inl, inr,
}

module _ {A : Type 0} (id_of : A → ℕ) where
  abbrev pub by_id : ℕ → A → Bool
  by_id k a = id_of a == k

  abbrev pub find : ℕ → List A → Option A
  find k = find_first (by_id k)

  -- No two rows have the same key.
  abbrev pub IsKeyed : List A → Type 0
  IsKeyed [] = Unit
  IsKeyed (x ∷ xs) = (find (id_of x) xs ≡ none) × IsKeyed xs

  -- An update of the row `k` that keeps ids is seen at `k` and nowhere else.
  pub find-update :
      (k j : ℕ) (f : A → A) (xs : List A)
      → ((x : A) → id_of (f x) ≡ id_of x)
      → find j (update_where (by_id k) f xs)
        ≡ (elim (find j xs) [ none ↦ none | some a ↦ some (if j == k then f a else a) ])
  find-update k j f [] keep = refl
  find-update k j f (x ∷ xs) keep = ground (arith, keep x, find-update k j f xs keep)

  -- With unique keys, a row found by key under a further condition is the row of that key.
  pub find_of_owned :
      (k : ℕ) (q : A → Bool) (xs : List A) (a : A)
      → IsKeyed xs
      → find_first (λ x. by_id k x && q x) xs ≡ some a
      → find k xs ≡ some a
  find_of_owned k q [] a u h = cc
  find_of_owned k q (x ∷ xs) a (fresh, u) h = ground (arith, find_of_owned k q xs a u)

  pub update-IsKeyed :
      (k : ℕ) (f : A → A) (xs : List A)
      → ((x : A) → id_of (f x) ≡ id_of x)
      → IsKeyed xs
      → IsKeyed (update_where (by_id k) f xs)
  update-IsKeyed k f [] keep u = tt
  update-IsKeyed k f (x ∷ xs) keep (fresh, u) =
      (ground (arith, keep x, find-update k (id_of x) f xs keep), update-IsKeyed k f xs keep u)

  pub append-IsKeyed :
      (xs : List A) (a : A) → IsKeyed xs → find (id_of a) xs ≡ none → IsKeyed (xs ++ (a ∷ []))
  append-IsKeyed [] a u h = (refl, tt)
  append-IsKeyed (x ∷ xs) a (fresh, u) h = (
    ground (arith, find_first-append_none (by_id (id_of x)) xs (a ∷ []) fresh),
    append-IsKeyed xs a u (ground arith),
  )

  -- the same, stated at the key of the row
  pub find_of_own_key :
      (k : ℕ) (q : A → Bool) (xs : List A) (a : A)
      → IsKeyed xs
      → find_first (λ x. by_id k x && q x) xs ≡ some a
      → find (id_of a) xs ≡ some a
  find_of_own_key k q xs a u h =
      let same : id_of a ≡ k =
        ==→eq (id_of a) k
          (and_left (by_id k a) (q a) (find_first-holds (λ x. by_id k x && q x) xs a h)) in
      subst (λ j. find j xs ≡ some a) (sym same) (find_of_owned k q xs a u h)
    where
      and_left : (a b : Bool) → (a && b) ≡ true → a ≡ true
      and_left a b h = ground arith

  -- An update of the row `k` under a further condition.
  pub find-update_if :
      (k : ℕ) (q : A → Bool) (f : A → A) (xs : List A)
      → ((x : A) → id_of (f x) ≡ id_of x)
      → find k (update_where (λ x. by_id k x && q x) f xs)
        ≡ (elim (find k xs) [ none ↦ none | some a ↦ some (if q a then f a else a) ])
  find-update_if k q f [] keep = refl
  find-update_if k q f (x ∷ xs) keep = ground (arith, keep x, find-update_if k q f xs keep)

  pub update_if-IsKeyed :
      (k : ℕ) (q : A → Bool) (f : A → A) (xs : List A)
      → ((x : A) → id_of (f x) ≡ id_of x)
      → IsKeyed xs
      → IsKeyed (update_where (λ x. by_id k x && q x) f xs)
  update_if-IsKeyed k q f [] keep u = tt
  update_if-IsKeyed k q f (x ∷ xs) keep (fresh, u) =
      (ground (arith, keep x, missing_after (id_of x) xs fresh), update_if-IsKeyed k q f xs keep u)
    where
      missing_after :
          (j : ℕ) (ys : List A)
          → find j ys ≡ none
          → find j (update_where (λ y. by_id k y && q y) f ys) ≡ none
      missing_after j [] h = refl
      missing_after j (y ∷ ys) h = ground (arith, keep y, missing_after j ys)

  -- A row that any search finds is the row of its key.
  pub find_of_found :
      (q : A → Bool) (xs : List A) (a : A)
      → IsKeyed xs
      → find_first q xs ≡ some a
      → find (id_of a) xs ≡ some a
  find_of_found q [] a u h = cc
  find_of_found q (x ∷ xs) a (fresh, u) h = elim (Bool-cases (q x)) [
    | inl taken ↦ ground arith
    | inr passed ↦
        let there = find_of_found q xs a u (ground arith) in
        elim (Bool-cases (id_of x == id_of a)) [
          | inl same ↦ let eq = ==→eq (id_of x) (id_of a) same in ground arith
          | inr other ↦ ground arith
        ]
  ]

  -- An update under any condition, read by key.
  pub find-update_any :
      (p : A → Bool) (f : A → A) (j : ℕ) (xs : List A)
      → ((x : A) → id_of (f x) ≡ id_of x)
      → find j (update_where p f xs)
        ≡ (elim (find j xs) [ none ↦ none | some a ↦ some (if p a then f a else a) ])
  find-update_any p f j [] keep = refl
  find-update_any p f j (x ∷ xs) keep = ground (arith, keep x, find-update_any p f j xs keep)

  pub update_any-IsKeyed :
      (p : A → Bool) (f : A → A) (xs : List A)
      → ((x : A) → id_of (f x) ≡ id_of x)
      → IsKeyed xs
      → IsKeyed (update_where p f xs)
  update_any-IsKeyed p f [] keep u = tt
  update_any-IsKeyed p f (x ∷ xs) keep (fresh, u) = (
    ground (arith, keep x, find-update_any p f (id_of x) xs keep),
    update_any-IsKeyed p f xs keep u,
  )
