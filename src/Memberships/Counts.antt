-- ===== src/Memberships/Counts.antt =====
-- How many rows pass a test, before and after a change of one row.
use shop_os.Common.{
  ℕ, ◌+◌, ◌≤◌, ◌≡◌, Bool, true, false, List, [], ◌∷◌, count_where, update_where, filter, any, not,
  if◌then◌else◌, ◌==◌, some, none, refl, arith, inl, inr, Bool-cases, ==→eq, ap, ◌++◌, subst,
  some-injective, sym, ◌∙◌,
}
use shop_os.Db.Keyed.{find, IsKeyed}
use shop_os.Memberships.Roles.{Membership, RoleLink}

abbrev pub membership_id_of : Membership → ℕ
membership_id_of m = m.id

module _ (p q : Membership → Bool) where
  pub count_where-le :
      (xs : List Membership)
      → ((x : Membership) → p x ≡ true → q x ≡ true)
      → count_where p xs ≤ count_where q xs
  count_where-le [] h = omega arith
  count_where-le (x ∷ xs) h = ground (arith, count_where-le xs h, h x)

  module _ (k : ℕ) (same : (x : Membership) → (x.id == k) ≡ false → p x ≡ q x) where
    count_where-absent :
        (xs : List Membership)
        → find membership_id_of k xs ≡ none
        → count_where p xs ≡ count_where q xs
    count_where-absent [] h = refl
    count_where-absent (x ∷ xs) h = ground (arith, count_where-absent xs, same x)

    -- One row can count for one at most.
    pub count_where-one_less :
        (xs : List Membership)
        → IsKeyed membership_id_of xs
        → count_where p xs ≤ count_where q xs + 1
    count_where-one_less [] u = omega arith
    count_where-one_less (x ∷ xs) (fresh, u) = elim (Bool-cases (x.id == k)) [
      | inl here ↦
          let e = ==→eq x.id k here in
          let rest =
            count_where-absent xs (subst (λ j. find membership_id_of j xs ≡ none) e fresh) in
          ground (arith, rest)
      | inr other ↦ ground (arith, same x other, count_where-one_less xs u)
    ]

    -- It counts for none if it did not pass.
    pub count_where-kept :
        (xs : List Membership) (m : Membership)
        → find membership_id_of k xs ≡ some m
        → p m ≡ false
        → IsKeyed membership_id_of xs
        → count_where p xs ≤ count_where q xs
    count_where-kept [] m found failed u = cc
    count_where-kept (x ∷ xs) m found failed (fresh, u) = elim (Bool-cases (x.id == k)) [
      | inl here ↦
          let e = ==→eq x.id k here in
          let rest =
            count_where-absent xs (subst (λ j. find membership_id_of j xs ≡ none) e fresh) in
          let is_m : x ≡ m = some-injective (sym (rw here refl) ∙ found) in
          let failed_x : p x ≡ false = ap p is_m ∙ failed in ground (arith, rest, failed_x)
      | inr other ↦
          let found' : find membership_id_of k xs ≡ some m = sym (rw other refl) ∙ found in
          let rest = count_where-kept xs m found' failed u in ground (arith, same x other, rest)
    ]

pub count_where-update :
    (p c : Membership → Bool) (f : Membership → Membership) (xs : List Membership)
    → count_where p (update_where c f xs) ≡ count_where (λ x. p (if c x then f x else x)) xs
count_where-update p c f [] = refl
count_where-update p c f (x ∷ xs) =
    ap (λ n. (if p (if c x then f x else x) then 1 else 0) + n) (count_where-update p c f xs)

-- Dropping what a search would pass over does not change what it finds.
pub any-filter :
    (g c : RoleLink → Bool) (ls : List RoleLink)
    → ((l : RoleLink) → c l ≡ true → g l ≡ false)
    → any g (filter (λ l. not (c l)) ls) ≡ any g ls
any-filter g c [] h = refl
any-filter g c (l ∷ ls) h = ground (arith, h l, any-filter g c ls h)

pub any-append :
    (g : RoleLink → Bool) (ls : List RoleLink) (l : RoleLink)
    → any g ls ≡ true
    → any g (ls ++ (l ∷ [])) ≡ true
any-append g [] l h = cc
any-append g (x ∷ xs) l h = ground (arith, any-append g xs l)
