-- ===== src/Postgres/Reading.antt =====
-- internal/storage/postgres.go: the time of death of the messages that are read.
use shoebox.Base.{
  All, ℕ, ◌≡◌, refl, List, [], ◌∷◌, Option, none, some, is_nil, if◌then◌else◌, if_elim, take, ◌&&◌,
  subst, arith, Bool-cases, inl, inr, true, ◌==◌,
}
use shoebox.Base.Text.{Str, str_eq}
use shoebox.Storage.{Time, Message, Result, ok, err, empty}
use shoebox.Sql.{Row, where_rows, status_eq, dead}
use shoebox.Postgres.{
  Engine, Database, message_of, scan_message, scan_rows, read_metadata, died_after,
}
use shoebox.Postgres.Scanning.{PgxType, null, new_pgx, column, scan, scan_val, time_of}
use shoebox.Postgres.Settle.{list}
use shoebox.Postgres.Claiming.{Reads}

abbrev pub Undated : List Message → Type 0
Undated ms = All (λ m. m.dead_at ≡ 0) ms

module _ (g : Engine) where
  message_of-undated :
      (q : Str) (r : Row Time) (metadata : Option (List (Str × Str)))
      → Reads (λ m. m.dead_at ≡ 0) (message_of g q r metadata)
  unfolding message_of time_of scan_val
  message_of-undated q r none = tt
  message_of-undated q r (some metadata) = refl

  scan_rows-Undated : (q : Str) (rows : List (Row Time)) → Reads Undated (scan_rows g q rows)
  unfolding scan_rows scan_message
  scan_rows-Undated q [] = tt
  scan_rows-Undated q (r ∷ rows) =
      (elim (scan_message g q r)
          as (λ x. Reads (λ m. m.dead_at ≡ 0) x → Reads Undated (both x (scan_rows g q rows))) [
            | err e ↦ λ h. tt
            | ok m ↦ λ h.
                (elim (scan_rows g q rows)
                    as (λ y. Reads Undated y → Reads Undated (both (ok m) y)) [
                      | err e ↦ λ k. tt
                      | ok ms ↦ λ k. (h, k)
                    ])
                  (scan_rows-Undated q rows)
          ])
        (message_of-undated q r (read_metadata g r.metadata))
    where
      both : Result Message → Result (List Message) → Result (List Message)
      both x y = elim x [ err e ↦ err e | ok m ↦ elim y [ err e ↦ err e | ok ms ↦ ok (m ∷ ms) ] ]

  list-Reads : (db : Database) (q : Str) (limit : ℕ) → Reads Undated (list g db q limit)
  unfolding list
  list-Reads db q limit =
      (elim (scan_rows g q chosen)
          as (λ r.
            Reads Undated r
            → Reads Undated
                (elim r [ err e ↦ err e | ok msgs ↦ if is_nil msgs then err empty else ok msgs ])) [
                  | err e ↦ λ h. tt
                  | ok msgs ↦ λ h.
                      if_elim (Reads Undated) (is_nil msgs) (err empty) (ok msgs) (λ e. tt) (λ e. h)
                ])
        (scan_rows-Undated q chosen)
    where
      chosen : List (Row Time)
      chosen = take limit (
          g.arrange died_after
            (where_rows (λ r. str_eq r.queue q && status_eq r.status dead) db.rows))

  -- Whatever time of death the rows of a dead-letter queue have, every message that List returns has the
  -- zero time in its place: the wrapper's `Time` reads fields that scanning into `val` leaves as they are.
  -- The wrapper's own `Scan` would give the time `t` of any row.
  pub listed_dead_at_lost :
      (db : Database) (q : Str) (limit : ℕ) (ms : List Message) (t : Time)
      → list g db q limit ≡ ok ms
      → All (λ m. m.dead_at ≡ 0) ms
        × ((p : PgxType) × (scan new_pgx (column t) ≡ some p) × (time_of p ≡ t))
  unfolding scan column time_of
  listed_dead_at_lost db q limit ms t h = (
    subst (Reads Undated) h (list-Reads db q limit),
    elim (Bool-cases (t == 0)) [
      | inl z ↦ (new_pgx, rw z refl, ground (arith, z))
      | inr z ↦ (record { val = null; set = true; time = t }, rw z refl, refl)
    ],
  )
