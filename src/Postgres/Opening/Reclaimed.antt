-- ===== src/Postgres/Opening/Reclaimed.antt =====
-- internal/storage/postgres.go: the messages after NewPostgres.
use shoebox.Base.{ℕ, ◌≡◌, refl, subst, Bool, false, List, [], ◌∷◌, Option, none, some, arith}
use shoebox.Base.Text.{Str}
use shoebox.Storage.{Error, Result, ok, err}
use shoebox.Migrations.{Migration}
use shoebox.Sql.{Row, pending, processing, status_eq, where_rows, update_rows, update_where}
use shoebox.Sql.Posts.{Returned, autocommit-Returned}
use shoebox.Sql.Single.{stands}
use shoebox.Storage.{Time}
use shoebox.Postgres.{Database}
use shoebox.Postgres.Quoting.{quote_identifier}
use shoebox.Postgres.Opening.{
  Schema, Catalog, init_schema, reclaim_all, reclaim_opened, schema_name, new_postgres,
}

-- Nothing is in flight.
abbrev pub Settled : Str → Str → Database → Type 0
Settled id q db = stands id q processing db.rows ≡ false

none_processing :
    (id q : Str) (rows : List (Row Time))
    → stands id q processing
        (update_rows (λ r. status_eq r.status processing) (λ r. record r { status = pending }) rows)
      ≡ false
unfolding update_rows stands where_rows
none_processing id q [] = refl
none_processing id q (r ∷ rows) = ground (arith, none_processing id q rows)

-- What an opening that ends well leaves.
abbrev Opened : Str → Str → Schema Database × Option Error → Type 0
Opened id q (d, some e) = Unit
Opened id q (d, none) = Settled id q d.tables

reclaim_all-Returned :
    (id q : Str) (faults : List Bool) (db : Database)
    → Returned (λ n d. Settled id q d) (reclaim_all faults db)
unfolding reclaim_all update_where
reclaim_all-Returned id q faults db =
    autocommit-Returned (λ n d. Settled id q d) _ faults db (λ b. tt) (none_processing id q db.rows)

finished :
    (id q : Str) (d : Schema Database) (x : Database × Result ℕ)
    → Returned (λ n db. Settled id q db) x
    → Opened id q (elim x.1 [
      | err e ↦ (record d { tables = x.0 }, some e)
      | ok n ↦ (record d { tables = x.0 }, none)
    ])
finished id q d (db, ok n) h = h
finished id q d (db, err e) h = tt

reclaim_opened-Opened :
    (id q : Str) (faults : List Bool) (x : Schema Database × Option Error)
    → Opened id q (reclaim_opened faults x)
unfolding reclaim_opened
reclaim_opened-Opened id q faults (d, some e) = tt
reclaim_opened-Opened id q faults (d, none) =
    finished id q d (reclaim_all faults d.tables) (reclaim_all-Returned id q faults d.tables)

new_postgres-Opened :
    (c : Catalog Database) (ups : List Migration) (connect : Str → Option Error)
    (faults last_faults : List Bool) (schemas : List Str) (d : Schema Database) (id q : Str)
    → Opened id q (new_postgres c ups connect faults last_faults schemas d)
unfolding new_postgres
new_postgres-Opened c ups connect faults last_faults schemas d id q =
    elim (quote_identifier (schema_name schemas))
      as (λ r. Opened id q (elim r [
        | err e ↦ (d, some e)
        | ok quoted ↦ elim (connect quoted) [
          | some e ↦ (d, some e)
          | none ↦ reclaim_opened last_faults (init_schema c ups faults d)
        ]
      ])) [
        | err e ↦ tt
        | ok quoted ↦
            elim (connect quoted)
              as (λ o. Opened id q (elim o [
                | some e ↦ (d, some e)
                | none ↦ reclaim_opened last_faults (init_schema c ups faults d)
              ])) [
                | some e ↦ tt
                | none ↦ reclaim_opened-Opened id q last_faults (init_schema c ups faults d)
              ]
      ]

-- When NewPostgres succeeds, whatever the statements before were interrupted, no message of any queue is
-- left processing: none that a crashed process had in flight is stuck.
pub new_postgres_settles :
    (c : Catalog Database) (ups : List Migration) (connect : Str → Option Error)
    (faults last_faults : List Bool) (schemas : List Str) (d d' : Schema Database) (id q : Str)
    → new_postgres c ups connect faults last_faults schemas d ≡ (d', none)
    → stands id q processing d'.tables.rows ≡ false
new_postgres_settles c ups connect faults last_faults schemas d d' id q h =
    subst (Opened id q) h (new_postgres-Opened c ups connect faults last_faults schemas d id q)
