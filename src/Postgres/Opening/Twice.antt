-- ===== src/Postgres/Opening/Twice.antt =====
-- internal/storage/postgres.go: opening a database again.
use shoebox.Base.{
  ℕ, ◌≡◌, ◌≤◌, ◌<◌, refl, sym, ap, subst, ◌∙◌, Bool, true, false, List, [], ◌∷◌, Option, none, some,
  leb, arith, All, inl, inr, Option-cases,
}
use shoebox.Storage.{Error, Result, ok, err}
use shoebox.Migrations.{Migration, last_version}
use shoebox.Migrations.Running.{out_of_range}
use shoebox.Migrations.Resuming.{Ascending}
use shoebox.Postgres.Opening.{
  Schema, Catalog, ◌>>=◌, sent, max_version, record_version, ran, version_from, applied_version,
  apply_each, migrate, init_schema,
}
use shoebox.Postgres.Opening.Leaving.{Leaves, Reached, migrate-Leaves}

le→leb : (a b : ℕ) → a ≤ b → leb a b ≡ true
le→leb a b h = ground (arith, h)

nothing_recorded : 0 < max_version [] → ⊥
unfolding max_version
nothing_recorded h = omega (arith, h)

module _ {S : Type 0} (c : Catalog S) where
  all_skipped :
      (applied : ℕ) (ups : List Migration) (faults : List Bool) (d : Schema S)
      → All (λ m. m.version ≤ applied) ups
      → apply_each c applied ups faults d ≡ ok (faults, d)
  unfolding apply_each
  all_skipped applied [] faults d h = refl
  all_skipped applied (m ∷ ups) faults d h =
      ap next (le→leb m.version applied h.0) ∙ all_skipped applied ups faults d h.1
    where
      next : Bool → Result (List Bool × Schema S)
      next t = elim t [
        | true ↦ apply_each c applied ups faults d
        | false ↦ do
          faults ← sent faults
          tables ← ran (c.execute m.sql d.tables)
          faults ← sent faults
          versions ← record_version m.version d.versions
          apply_each c applied ups faults (record { tables = tables; versions = versions })
      ]

  version_recorded :
      (latest : ℕ) (t : S) (vs : List ℕ)
      → 0 < max_version vs
      → version_from c latest [] t vs
        ≡ ok (max_version vs, [], record { tables = t; versions = vs })
  unfolding version_from
  version_recorded latest t [] h = absurd (nothing_recorded h)
  version_recorded latest t (v ∷ vs) h = refl

  -- Where the recorded versions reach every migration, nothing is left to do.
  migrate-Reached :
      (latest : ℕ) (ups : List Migration) (d : Schema S)
      → 0 < max_version d.versions
      → Reached ups d
      → migrate c latest ups [] d ≡ ok d
  unfolding migrate applied_version
  migrate-Reached latest ups d h r =
      ap
        (λ x. do
          (applied, faults, d) ← x
          (faults, d) ← apply_each c applied ups faults d
          faults ← sent faults
          ok d)
        (version_recorded latest d.tables d.versions h)
      ∙ ap (λ x. do (faults, d) ← x; faults ← sent faults; ok d)
          (all_skipped (max_version d.versions) ups [] d r)

  Reached-positive :
      (latest : ℕ) (ups : List Migration) (d : Schema S)
      → Ascending 0 ups
      → last_version ups ≡ some latest
      → Reached ups d
      → 0 < max_version d.versions
  unfolding last_version
  Reached-positive latest [] d a l r = cc
  Reached-positive latest (m ∷ ups) d a l r = omega (arith, a.0, r.0)

  -- Where the versions of the migrations grow from above 0 and a run of the migrations succeeds, however
  -- old the database was, a second run succeeds and leaves the tables and the versions as they are.
  pub init_schema_twice :
      (ups : List Migration) (faults : List Bool) (d d' : Schema S)
      → Ascending 0 ups
      → init_schema c ups faults d ≡ (d', none)
      → init_schema c ups [] d' ≡ (d', none)
  unfolding init_schema
  init_schema_twice ups faults d d' a h = elim (Option-cases (last_version ups)) [
    | inl e ↦
        let bad : ◌≡◌ {A = Schema S × Option Error} (d, some out_of_range) (d', none) =
          sym (ap (λ o. opening o faults d) e) ∙ h in
        refuse bad
    | inr (latest, e) ↦
        let ended : settled d (migrate c latest ups faults d) ≡ (d', none) =
          sym (ap (λ o. opening o faults d) e) ∙ h in
        let reached : Reached ups d' =
          (elim (migrate c latest ups faults d)
              as (λ r. Leaves (Reached ups) r → settled d r ≡ (d', none) → Reached ups d') [
                | err x ↦ λ k w. refuse w
                | ok x ↦ λ k w. subst (Reached ups) (ap (λ y. y.0) w) k
              ])
            (migrate-Leaves c latest ups faults d) ended in
        ap (λ o. opening o [] d') e
        ∙ ap (settled d')
            (migrate-Reached latest ups d' (Reached-positive latest ups d' a e reached) reached)
  ]
    where
      settled : Schema S → Result (Schema S) → Schema S × Option Error
      settled d r = elim r [ err e ↦ (d, some e) | ok d' ↦ (d', none) ]

      opening : Option ℕ → List Bool → Schema S → Schema S × Option Error
      opening o faults d = elim o [
        | none ↦ (d, some out_of_range)
        | some latest ↦ settled d (migrate c latest ups faults d)
      ]

      refuse :
          {A : Type 0} {x y : Schema S} {e : Error}
          → ◌≡◌ {A = Schema S × Option Error} (x, some e) (y, none)
          → A
      refuse {e = e} w = let bad : some e ≡ none = ap (λ p. p.1) w in cc
