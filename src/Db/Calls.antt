-- ===== src/Db/Calls.antt =====
-- A service call: it reads the database, changes it, and returns or throws. Inside a transaction the
-- changes of a call that throws are undone.
use shop_os.Common.{
  Bool, true, false, Option, none, some, [], ◌∷◌, ◌++◌, if◌then◌else◌, Number, ℤ, int, other,
}
use shop_os.Result.{Result, ok, err, Failure, range_error}
use shop_os.Db.Tables.{Db, ActivityEvent, AuditEvent, OutboxEvent}

abbrev pub Action : Type 0 → Type 0
Action A = Db → Result A × Db

module _ {A : Type 0} where
  abbrev pub pure : A → Action A
  pure a db = (ok a, db)

  abbrev pub throw : Failure → Action A
  throw e db = (err e, db)

  -- a query
  abbrev pub query : (Db → A) → Action A
  query f db = (ok (f db), db)

  -- a check that does not read the database
  abbrev pub demand : Result A → Action A
  demand r db = (r, db)

  -- `if (!row) throw`
  abbrev pub or_throw : Option A → Failure → Action A
  or_throw none e = throw e
  or_throw (some a) e = pure a

infixl 5 ◌>>=◌ ◌>>◌
abbrev pub ◌>>=◌ : {A B : Type 0} → Action A → (A → Action B) → Action B
◌>>=◌ m f db = let (r, db') = m db in elim r [ ok a ↦ f a db' | err e ↦ throw e db' ]

abbrev pub ◌>>◌ : {A B : Type 0} → Action A → Action B → Action B
m >> k = m >>= λ _. k

abbrev pub modify : (Db → Db) → Action (Unit {0})
modify f db = (ok tt, f db)

-- `if (test) throw`
abbrev pub reject_if : Bool → Failure → Action (Unit {0})
reject_if test e db = (if test then err e else ok tt, db)

-- `BigInt(x)`
unfoldable pub to_bigint : Number → Result ℤ
to_bigint (int z) = ok z
to_bigint other = err range_error

-- `if (test) await m`
abbrev pub when : Bool → Action (Unit {0}) → Action (Unit {0})
when true m = m
when false m = pure tt

-- `db.$transaction(m)`
abbrev pub transaction : {A : Type 0} → Action A → Action A
transaction m db = let (r, db') = m db in elim r [ ok a ↦ (ok a, db') | err e ↦ (err e, db) ]

-- `m.catch(() => undefined)`
abbrev pub attempt : {A : Type 0} → Action A → Action (Unit {0})
attempt m db = (ok tt, (m db).1)

abbrev pub log_activity : ActivityEvent → Action (Unit {0})
log_activity e = modify (λ db. record db { activity_events = db.activity_events ++ (e ∷ []) })

abbrev pub log_audit : AuditEvent → Action (Unit {0})
log_audit e = modify (λ db. record db { audit_events = db.audit_events ++ (e ∷ []) })

abbrev pub send_outbox : OutboxEvent → Action (Unit {0})
send_outbox e = modify (λ db. record db { outbox_events = db.outbox_events ++ (e ∷ []) })
