-- ===== src/Migrations/Reopening.antt =====
-- internal/storage/sqlite.go: initSQLiteSchema after an interruption, and what it makes of a database
-- that is older than the runner.
use shoebox.Base.{
  ℕ, ◌≡◌, ◌<◌, refl, ap, sym, ◌∙◌, Bool, true, false, List, [], ◌∷◌, none, some, ltb, leb, ◌==◌,
  ◌&&◌, arith, inl, inr, Bool-cases, Option-cases, All, subst,
}
use shoebox.Migrations.{Migration, last_version}
use shoebox.Migrations.Running.{
  Schema, Scripts, Ending, returns, waits, waiting, ending, faulty, rest_of, detect, apply_each,
  from_baseline, init_schema,
}
use shoebox.Sql.{interrupted}
use shoebox.Migrations.Running.{out_of_range}
use shoebox.Migrations.Resuming.{Ascending, Same, grows, apply_resumed, unmoved, skipped}

module _ {S : Type 0} (c : Scripts S) where
  without :
      (ups : List Migration) (faults : List Bool) (d : Schema S)
      → last_version ups ≡ none
      → init_schema c ups faults d ≡ (d, returns (some out_of_range))
  unfolding init_schema
  without ups faults d e = ground (arith, e)

  versioned :
      (ups : List Migration) (faults : List Bool) (d : Schema S) (latest : ℕ)
      → last_version ups ≡ some latest
      → (d.version == 0) ≡ false
      → init_schema c ups faults d ≡ ending (apply_each c d.version ups faults d)
  unfolding init_schema
  versioned ups faults d latest e z = ground (arith, e, z)

  fresh :
      (ups : List Migration) (faults : List Bool) (d : Schema S) (latest : ℕ)
      → last_version ups ≡ some latest
      → (d.version == 0) ≡ true
      → (detect c d.tables latest).1 ≡ false
      → ltb 0 (detect c d.tables latest).0 ≡ false
      → init_schema c ups faults d ≡ ending (apply_each c 0 ups faults d)
  unfolding init_schema from_baseline
  fresh ups faults d latest e z k b = ground (arith, e, z, k, b)

  unrecorded :
      (ups : List Migration) (faults : List Bool) (d : Schema S) (latest : ℕ)
      → last_version ups ≡ some latest
      → (d.version == 0) ≡ true
      → (detect c d.tables latest).1 ≡ false
      → ltb 0 (detect c d.tables latest).0 ≡ true
      → faulty faults ≡ true
      → init_schema c ups faults d ≡ (d, returns (some interrupted))
  unfolding init_schema from_baseline
  unrecorded ups faults d latest e z k b f = ground (arith, e, z, k, b, f)

  recorded :
      (ups : List Migration) (faults : List Bool) (d : Schema S) (latest : ℕ)
      → last_version ups ≡ some latest
      → (d.version == 0) ≡ true
      → (detect c d.tables latest).1 ≡ false
      → ltb 0 (detect c d.tables latest).0 ≡ true
      → faulty faults ≡ false
      → init_schema c ups faults d
        ≡ ending (
            apply_each c
              (detect c d.tables latest).0
              ups
              (rest_of faults)
              (record { tables = d.tables; version = (detect c d.tables latest).0 }))
  unfolding init_schema from_baseline
  recorded ups faults d latest e z k b f = ground (arith, e, z, k, b, f)

  kept :
      (ups : List Migration) (faults : List Bool) (d : Schema S) (latest : ℕ)
      → last_version ups ≡ some latest
      → (d.version == 0) ≡ true
      → (detect c d.tables latest).1 ≡ true
      → init_schema c ups faults d ≡ (d, waits)
  unfolding init_schema from_baseline
  kept ups faults d latest e z k = ground (arith, e, z, k)

  Same-refl : (v w : ℕ) (ups : List Migration) → v ≡ w → Same v w ups
  Same-refl v w [] e = tt
  Same-refl v w (m ∷ ms) e = (ap (λ t. leb m.version t) e, Same-refl v w ms e)

  -- From a recorded version on.
  onwards :
      (v : ℕ) (ups : List Migration) (faults : List Bool) (d : Schema S) (latest : ℕ)
      → last_version ups ≡ some latest
      → Ascending 0 ups
      → v ≡ d.version
      → ((apply_each c v ups faults d).0.version == 0) ≡ false
      → init_schema c ups [] (apply_each c v ups faults d).0 ≡ ending (apply_each c v ups [] d)
  onwards v ups faults d latest e a same l =
      versioned ups [] (apply_each c v ups faults d).0 latest e l
      ∙ ap ending (
          apply_resumed c v 0 ups faults d (omega (arith, same)) (Same-refl v d.version ups same) a)

  again :
      (ups : List Migration) (faults : List Bool) (d : Schema S) (x : Schema S × Ending)
      → init_schema c ups faults d ≡ x
      → init_schema c ups [] x.0 ≡ init_schema c ups [] d
      → init_schema c ups [] (init_schema c ups faults d).0 ≡ init_schema c ups [] d
  again ups faults d x e h = ap (λ y. init_schema c ups [] y.0) e ∙ h

  -- Where the versions of the migrations grow from above 0, bringing a schema up to date after a run that
  -- was interrupted anywhere gives the tables, the version and the error that a single undisturbed run
  -- gives.
  pub init_schema_resumed :
      (ups : List Migration) (faults : List Bool) (d : Schema S)
      → Ascending 0 ups
      → init_schema c ups [] (init_schema c ups faults d).0 ≡ init_schema c ups [] d
  init_schema_resumed ups faults d a = elim (Option-cases (last_version ups)) [
    | inl e ↦ again ups faults d _ (without ups faults d e) refl
    | inr (latest, e) ↦ elim (Bool-cases (d.version == 0)) [
      | inr z ↦
          let up =
            grows c d.version 0 ups faults d (omega arith) (Same-refl d.version d.version ups refl)
              a in
          again ups faults d _ (versioned ups faults d latest e z) (
            onwards d.version ups faults d latest e a refl (ground (arith, up, z))
            ∙ sym (versioned ups [] d latest e z))
      | inl z ↦ elim (Bool-cases (detect c d.tables latest).1) [
        | inl k ↦ again ups faults d _ (kept ups faults d latest e z k) refl
        | inr k ↦ elim (Bool-cases (ltb 0 (detect c d.tables latest).0)) [
          | inr b ↦
              let zero : 0 ≡ d.version = ground (arith, z) in
              again ups faults d _ (fresh ups faults d latest e z k b)
                (elim (Bool-cases ((apply_each c 0 ups faults d).0.version == 0)) [
                  | inl w ↦
                      ap (λ t. init_schema c ups [] t)
                        (unmoved c 0 0 ups faults d a (ground (arith, w)))
                  | inr w ↦
                      onwards 0 ups faults d latest e a zero w ∙ sym (fresh ups [] d latest e z k b)
                ])
          | inl b ↦ elim (Bool-cases (faulty faults)) [
            | inl f ↦ again ups faults d _ (unrecorded ups faults d latest e z k b f) refl
            | inr f ↦
                let d' : Schema S = record {
                  tables = d.tables;
                  version = (detect c d.tables latest).0;
                } in
                let up =
                  grows c d'.version 0 ups (rest_of faults) d' (omega arith)
                    (Same-refl d'.version d'.version ups refl) a in
                again ups faults d _ (recorded ups faults d latest e z k b f) (
                  onwards d'.version ups (rest_of faults) d' latest e a refl (ground (arith, up, b))
                  ∙ sym (recorded ups [] d latest e z k b refl))
          ]
        ]
      ]
    ]
  ]

  bounded :
      (u latest : ℕ) (ups : List Migration)
      → Ascending u ups
      → last_version ups ≡ some latest
      → All (λ m. leb m.version latest ≡ true) ups
  unfolding last_version
  bounded u latest [] a e = tt
  bounded u latest (m ∷ []) a e = (ground (arith, e), tt)
  bounded u latest (m ∷ n ∷ ms) a e =
      let rest = bounded m.version latest (n ∷ ms) a.1 e in (ground (arith, rest.0, a.1.0), rest)

  all_skipped :
      (v : ℕ) (ups : List Migration) (d : Schema S)
      → All (λ m. leb m.version v ≡ true) ups
      → apply_each c v ups [] d ≡ (d, none)
  unfolding apply_each
  all_skipped v [] d h = refl
  all_skipped v (m ∷ ups) d h = skipped c v m ups [] d h.0 ∙ all_skipped v ups d h.1

  -- On a database of the latest version nothing is applied.
  pub up_to_date :
      (ups : List Migration) (d : Schema S) (latest : ℕ)
      → Ascending 0 ups
      → last_version ups ≡ some latest
      → 0 < latest
      → d.version ≡ latest
      → init_schema c ups [] d ≡ (d, returns none)
  up_to_date ups d latest a e l v =
      versioned ups [] d latest e (ground (arith, v, l))
      ∙ ap ending (
          all_skipped d.version ups d
            (subst (λ t. All (λ m. leb m.version t ≡ true) ups) (sym v) (bounded 0 latest ups a e)))

  -- A database without a version that has a table of messages with the column.
  abbrev pub legacy : Schema S → Bool
  legacy d = (d.version == 0) && c.has_messages d.tables && c.has_priority d.tables

  pub init_schema-waiting :
      (ups : List Migration) (faults : List Bool) (d : Schema S) (latest : ℕ)
      → last_version ups ≡ some latest
      → waiting (init_schema c ups faults d).1 ≡ legacy d
  unfolding init_schema from_baseline detect
  init_schema-waiting ups faults d latest e = ground (arith, e)
