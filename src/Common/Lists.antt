-- ===== src/Common/Lists.antt =====
-- Lists measured by native numbers, Boolean searches through them, and tables of rows with an id.
use Prim.Native.Nat.{ℕ, suc, ◌+◌}
use mathlib.Core.Path.{◌≡◌, refl}
use mathlib.Core.Logic.{◌↔◌, inl, inr}
use mathlib.Core.Bool.{Bool, true, false, ◌&&◌, ◌||◌}
use mathlib.Core.Option
use mathlib.Core.Option.{Option, none, some}
use mathlib.Core.List.{List, [], ◌∷◌, ◌++◌, Memᴰ}
use native.Mathlib.Omega.{arith}
use shop_os.Common.Tests.{if◌then◌else◌, Bool-cases}

module _ {ℓ} {A : Type ℓ} where
  abbrev pub length : List A → ℕ
  length [] = 0
  length (x ∷ xs) = suc (length xs)

  abbrev pub All {κ} : (A → Type κ) → List A → Type κ
  All P [] = Unit
  All P (x ∷ xs) = P x × All P xs

  -- `xs.some(p)`
  abbrev pub any : (A → Bool) → List A → Bool
  any p [] = false
  any p (x ∷ xs) = p x || any p xs

  -- `xs.every(p)`
  abbrev pub all : (A → Bool) → List A → Bool
  all p [] = true
  all p (x ∷ xs) = p x && all p xs

  -- `xs.filter(p)`, and the rows that `findMany` returns for a where clause
  abbrev pub filter : (A → Bool) → List A → List A
  filter p [] = []
  filter p (x ∷ xs) = if p x then x ∷ filter p xs else filter p xs

  -- the first row that a where clause accepts, as `findFirst` returns it
  abbrev pub find_first : (A → Bool) → List A → Option A
  find_first p [] = none
  find_first p (x ∷ xs) = if p x then some x else find_first p xs

  -- `updateMany`: every row that the where clause accepts is rewritten
  abbrev pub update_where : (A → Bool) → (A → A) → List A → List A
  update_where p f [] = []
  update_where p f (x ∷ xs) = (if p x then f x else x) ∷ update_where p f xs

  -- the number of rows that `updateMany` rewrote
  abbrev pub count_where : (A → Bool) → List A → ℕ
  count_where p [] = 0
  count_where p (x ∷ xs) = (if p x then 1 else 0) + count_where p xs

  -- What a search finds passes its test.
  pub find_first-holds :
      (p : A → Bool) (xs : List A) (a : A) → find_first p xs ≡ some a → p a ≡ true
  find_first-holds p [] a h = cc
  find_first-holds p (x ∷ xs) a h = ground (arith, find_first-holds p xs a)

  pub find_first-append :
      (p : A → Bool) (xs ys : List A) (a : A)
      → find_first p xs ≡ some a
      → find_first p (xs ++ ys) ≡ some a
  find_first-append p [] ys a h = cc
  find_first-append p (x ∷ xs) ys a h = ground (arith, find_first-append p xs ys a)

  pub find_first-append_none :
      (p : A → Bool) (xs ys : List A)
      → find_first p xs ≡ none
      → find_first p (xs ++ ys) ≡ find_first p ys
  find_first-append_none p [] ys h = refl
  find_first-append_none p (x ∷ xs) ys h = ground (arith, find_first-append_none p xs ys)

  pub All-append {κ} : (P : A → Type κ) (xs ys : List A) → All P xs → All P ys → All P (xs ++ ys)
  All-append P [] ys _ q = q
  All-append P (x ∷ xs) ys (p, ps) q = (p, All-append P xs ys ps q)

-- whether a decision says yes
abbrev pub is_yes {ℓ} : {P : Type ℓ} → Dec P → Bool
is_yes (yes _) = true
is_yes (no _) = false

-- `xs.includes(a)`, `set.has(a)`
abbrev pub has {ℓ} : {A : Type ℓ} → Discrete A → A → List A → Bool
has eq a [] = false
has eq a (x ∷ xs) = is_yes (eq a x) || has eq a xs

-- The Boolean search finds exactly the members.
pub has-mem {ℓ} :
    {A : Type ℓ} (eq : Discrete A) (a : A) (xs : List A) → (has eq a xs ≡ true) ↔ Memᴰ a xs
has-mem eq a [] = (λ h. cc, λ h. elim h [ ])
has-mem eq a (x ∷ xs) = go (eq a x) (has-mem eq a xs)
  where
    go :
        (d : Dec (a ≡ x))
        → (has eq a xs ≡ true) ↔ Memᴰ a xs
        → ((is_yes d || has eq a xs) ≡ true) ↔ Memᴰ a (x ∷ xs)
    go (yes e) ih = (λ _. Memᴰ.head e, λ _. refl)
    go (no ne) ih = (λ h. Memᴰ.tail (ih.0 h), λ m. ih.1 (later m))
      where
        later : Memᴰ a (x ∷ xs) → Memᴰ a xs
        later (Memᴰ.head e) = absurd (ne e)
        later (Memᴰ.tail m) = m

-- A search after an update that does not disturb its test: it finds what it found before, updated if
-- the update reaches it.
pub find_first-update_where {ℓ} :
    {A : Type ℓ} (p q : A → Bool) (f : A → A) (xs : List A)
    → ((x : A) → p (f x) ≡ p x)
    → find_first p (update_where q f xs)
      ≡ Option.map (λ a. if q a then f a else a) (find_first p xs)
find_first-update_where p q f [] keep = refl
find_first-update_where p q f (x ∷ xs) keep = elim (Bool-cases (p x)) [
  | inl yes_p ↦ elim (Bool-cases (q x)) [
    | inl yes_q ↦ rw (yes_p, yes_q, keep x, yes_p)
    | inr no_q ↦ rw (yes_p, no_q, yes_p)
  ]
  | inr no_p ↦ elim (Bool-cases (q x)) [
    | inl yes_q ↦ rw (no_p, yes_q, keep x, no_p) (find_first-update_where p q f xs keep)
    | inr no_q ↦ rw (no_p, no_q, no_p) (find_first-update_where p q f xs keep)
  ]
]
