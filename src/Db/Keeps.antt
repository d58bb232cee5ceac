-- ===== src/Db/Keeps.antt =====
-- Calls that keep a property of the database, whether they return or throw.
use shop_os.Common.{◌∙◌, ap, true, false, ◌≡◌, refl, Bool, subst, ap, ◌∙◌}
use shop_os.Result.{Result, ok, err, Failure, ok-injective}
use shop_os.Db.Tables.{Db}
use shop_os.Db.Calls.{◌>>◌, Action, throw, ◌>>=◌, transaction, demand, pure, reject_if}

-- A sequence that returns has a first part that returned.
pub >>=-ok :
    {A B : Type 0} (m : Action A) (f : A → Action B) (db db' : Db) (b : B)
    → (m >>= f) db ≡ (ok b, db')
    → (a : A) × (mid : Db) × (m db ≡ (ok a, mid)) × (f a mid ≡ (ok b, db'))
>>=-ok {A} {B} m f db db' b e = go (m db) refl e
  where
    go :
        (x : Result A × Db)
        → m db ≡ x
        → (elim x.0 as (λ r. Result B × Db) [ ok a ↦ f a x.1 | err e ↦ throw e x.1 ]) ≡ (ok b, db')
        → (a : A) × (mid : Db) × (m db ≡ (ok a, mid)) × (f a mid ≡ (ok b, db'))
    go (ok a, mid) first rest = (a, mid, first, rest)
    go (err e', mid) first rest = cc

pub then_pure-ok :
    {A B : Type 0} (m : Action A) (b c : B) (db db' : Db)
    → (m >> pure b) db ≡ (ok c, db')
    → (a : A) × (m db ≡ (ok a, db')) × (b ≡ c)
then_pure-ok m b c db db' e =
    let (a, mid, first, rest) = >>=-ok m (λ _. pure b) db db' c e in
    (a, first ∙ ap (λ x. (ok a, x.1)) rest, ok-injective b c (ap (λ x. x.0) rest))

module _ (P : Db → Type 0) where
  abbrev pub Keeps : {A : Type 0} → Action A → Type 0
  Keeps m = (db : Db) → P db → P (m db).1

  pub >>=-Keeps :
      {A B : Type 0} (m : Action A) (f : A → Action B)
      → Keeps m
      → ((a : A) → Keeps (f a))
      → Keeps (m >>= f)
  >>=-Keeps {A} {B} m f km kf db p = go (m db) (km db p)
    where
      go :
          (x : Result A × Db)
          → P x.1
          → P ((elim x.0 as (λ r. Result B × Db) [ ok a ↦ f a x.1 | err e ↦ throw e x.1 ]).1)
      go (ok a, db') q = kf a db' q
      go (err e, db') q = q

  pub transaction-Keeps :
      {A : Type 0} (m : Action A)
      → ((db db' : Db) (a : A) → P db → m db ≡ (ok a, db') → P db')
      → Keeps (transaction m)
  transaction-Keeps {A} m k db p = go (m db) refl
    where
      go :
          (x : Result A × Db)
          → m db ≡ x
          → P ((elim x.0 as (λ r. Result A × Db) [ ok a ↦ (ok a, x.1) | err e ↦ (err e, db) ]).1)
      go (ok a, db') e = k db db' a p e
      go (err e', db') e = p

  pub demand-Keeps :
      {B : Type 0} (r : Result (Unit {0})) (m : Action B) → Keeps m → Keeps (demand r >> m)
  demand-Keeps (ok _) m k db p = k db p
  demand-Keeps (err e) m k db p = p

  pub reject_if-Keeps :
      {B : Type 0} (test : Bool) (e : Failure) (m : Action B)
      → Keeps m
      → Keeps (reject_if test e >> m)
  reject_if-Keeps true e m k db p = p
  reject_if-Keeps false e m k db p = k db p

  pub then_pure-Keeps : {A B : Type 0} (m : Action A) (b : B) → Keeps m → Keeps (m >> pure b)
  then_pure-Keeps m b k = >>=-Keeps m (λ _. pure b) k (λ _ db p. p)

  -- The same of the calls that return: what a call that throws leaves is undone by its transaction.
  abbrev pub KeepsOk : {A : Type 0} → Action A → Type 0
  KeepsOk {A} m = (db db' : Db) (a : A) → P db → m db ≡ (ok a, db') → P db'

  pub >>=-KeepsOk :
      {A B : Type 0} (m : Action A) (f : A → Action B)
      → KeepsOk m
      → ((a : A) → KeepsOk (f a))
      → KeepsOk (m >>= f)
  >>=-KeepsOk m f km kf db db' b p e =
      let (a, mid, first, rest) = >>=-ok m f db db' b e in kf a mid db' b (km db mid a p first) rest

  pub KeepsOk-of_Keeps : {A : Type 0} (m : Action A) → Keeps m → KeepsOk m
  KeepsOk-of_Keeps m k db db' a p e = subst P (ap (λ r. r.1) e) (k db p)

  -- A check that passed is known to the rest.
  checked-Keeps :
      {B : Type 0} (test : Bool) (e : Failure) (m : Action B)
      → (test ≡ false → Keeps m)
      → Keeps (reject_if test e >> m)
  checked-Keeps true e m k db p = p
  checked-Keeps false e m k db p = k refl db p

  -- A service call whose changes stand in one transaction, behind its checks.
  pub guarded-Keeps :
      {B : Type 0} (access : Result (Unit {0})) (test : Bool) (e : Failure) (m : Action B)
      → (test ≡ false → KeepsOk m)
      → Keeps (demand access >> (reject_if test e >> transaction m))
  guarded-Keeps access test e m k =
      demand-Keeps access (reject_if test e >> transaction m)
        (checked-Keeps test e (transaction m) (λ passed. transaction-Keeps m (k passed)))
