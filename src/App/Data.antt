-- ===== src/App/Data.antt =====
-- app_db.go: the database accessors of an application. Each part of a call that runs under the lock
-- is one step; an adapter is of any type.
use elgon.Base.{◌≡◌, ◌⊎◌, refl, inl, inr, Option, none, some, []}
use elgon.Base.Text.{Str}

module _ (A : Type 0) where
  -- `orm.Client`, as it is made of an adapter and a dialect.
  pub record Client : Type 0 where
    pub adapter : A
    pub dialect : Str

  -- The fields that the lock guards.
  pub record Data : Type 0 where
    pub sql_db : Option A
    pub orm_dialect : Str
    pub orm_client : Option Client

  abbrev pub new_data : Data
  new_data = record { sql_db = none; orm_dialect = []; orm_client = none }

  -- `SetSQL`
  unfoldable pub set_sql : Option A → Data → Data
  set_sql adapter d = record d { sql_db = adapter; orm_client = none }

  -- `SetORMDialect`
  unfoldable pub set_orm_dialect : Str → Data → Data
  set_orm_dialect dialect d = record d { orm_dialect = dialect; orm_client = none }

  abbrev made : Data → Option Client → Option A → Data × Option Client
  made d client none = (d, none)
  made d (some c) (some a) = (d, some c)
  made d none (some a) =
      let c : Client = record { adapter = a; dialect = d.orm_dialect } in
      (record d { orm_client = some c }, some c)

  -- The part of `ORM` under the write lock: the data that it leaves, and the client.
  unfoldable pub orm_locked : Data → Data × Option Client
  orm_locked d = made d d.orm_client d.sql_db

  abbrev either : Option A → Option Client → Data × Option Client → Data → Data × Option Client
  either none client locked d = (d, none)
  either (some a) (some c) locked d = (d, some c)
  either (some a) none locked d = locked

  -- `ORM`, which reads the data in one state and takes the write lock, if it does, in a later one.
  unfoldable pub orm : Data → Data → Data × Option Client
  unfolding orm_locked
  orm seen now = either seen.sql_db seen.orm_client (orm_locked now) now

  -- The steps of all goroutines, from one state of the data to a later one.
  pub data Later : Data → Data → Type 0 where
    here : (d : Data) → Later d d
    sql_set : {d e : Data} (adapter : Option A) → Later d e → Later d (set_sql adapter e)
    dialect_set : {d e : Data} (dialect : Str) → Later d e → Later d (set_orm_dialect dialect e)
    orm_made : {d e : Data} → Later d e → Later d (orm_locked e).0

  -- A client is made of the adapter and the dialect that the data have.
  abbrev pub MadeOf : Data → Client → Type 0
  MadeOf d c = (d.sql_db ≡ some c.adapter) × (d.orm_dialect ≡ c.dialect)

  abbrev Stored : Data → Option Client → Type 0
  Stored d none = Unit
  Stored d (some c) = MadeOf d c

  -- The client that is kept is up to date.
  abbrev Current : Data → Type 0
  Current d = Stored d d.orm_client

  made-Current :
      (d : Data) (client : Option Client) (sql : Option A)
      → d.orm_client ≡ client
      → d.sql_db ≡ sql
      → Stored d client
      → Current (made d client sql).0 × Stored d (made d client sql).1
  made-Current d client none q r h = (rw q h, tt)
  made-Current d (some c) (some a) q r h = (rw q h, h)
  made-Current d none (some a) q r h = ((r, refl), (r, refl))

  orm_locked-Current : (d : Data) → Current d → Current (orm_locked d).0 × Stored d (orm_locked d).1
  unfolding orm_locked
  orm_locked-Current d h = made-Current d d.orm_client d.sql_db refl refl h

  Later-Current : (d e : Data) → Later d e → Current d → Current e
  unfolding set_sql set_orm_dialect
  Later-Current _ _ (here d) h = h
  Later-Current d _ (sql_set adapter l) h = tt
  Later-Current d _ (dialect_set dialect l) h = tt
  Later-Current d _ (orm_made {e} l) h = (orm_locked-Current e (Later-Current d e l h)).0

  either-MadeOf :
      (seen now : Data) (sql : Option A) (client : Option Client) (locked : Data × Option Client)
      (c : Client)
      → Stored seen client
      → Stored now locked.1
      → (either sql client locked now).1 ≡ some c
      → MadeOf seen c ⊎ MadeOf now c
  either-MadeOf seen now none client locked c h k q = cc
  either-MadeOf seen now (some a) (some b) locked c h k q =
      let same : b ≡ c = cc in inl (rw same at h)
  either-MadeOf seen now (some a) none (d, some b) c h k q =
      let same : b ≡ c = cc in inr (rw same at k)
  either-MadeOf seen now (some a) none (d, none) c h k q = cc

  -- However the calls of goroutines interleave, the client that `ORM` returns is made of the adapter
  -- and the dialect that the application had together at one moment of the call: when the call read
  -- them, or when it held the lock.
  pub orm-MadeOf :
      (seen now : Data) (c : Client)
      → Later new_data seen
      → Later seen now
      → (orm seen now).1 ≡ some c
      → MadeOf seen c ⊎ MadeOf now c
  unfolding orm
  orm-MadeOf seen now c before during q =
      let first = Later-Current new_data seen before tt in
      let second = orm_locked-Current now (Later-Current seen now during first) in
      either-MadeOf seen now seen.sql_db seen.orm_client (orm_locked now) c first second.1 q
