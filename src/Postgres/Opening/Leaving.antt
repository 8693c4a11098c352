-- ===== src/Postgres/Opening/Leaving.antt =====
-- internal/storage/postgres.go: the versions that a run of the migrations records.
use shoebox.Base.{
  ℕ, ◌≡◌, ◌≤◌, refl, Bool, true, false, not, List, [], ◌∷◌, ◌++◌, leb, if_elim, arith, All, inl,
  inr, Bool-cases, leb→le,
}
use shoebox.Storage.{Result, ok, err}
use shoebox.Migrations.{Migration}
use shoebox.Postgres.Opening.{
  Schema, Catalog, ◌>>=◌, sent, max_version, has_version, record_version, ran, baseline,
  version_from, applied_version, apply_each, migrate,
}

-- What a run that succeeds leaves.
abbrev pub Leaves : {A : Type 0} → (A → Type 0) → Result A → Type 0
Leaves P (err e) = Unit
Leaves P (ok a) = P a

Leaves-bind :
    {A B : Type 0} (P : A → Type 0) (Q : B → Type 0) (r : Result A) (k : A → Result B)
    → Leaves P r
    → ((a : A) → P a → Leaves Q (k a))
    → Leaves Q (r >>= k)
Leaves-bind P Q (err e) k h f = tt
Leaves-bind P Q (ok a) k h f = f a h

Leaves-mono :
    {A : Type 0} (P Q : A → Type 0)
    → ((a : A) → P a → Q a)
    → (r : Result A) → Leaves P r
    → Leaves Q r
Leaves-mono P Q f (err e) h = tt
Leaves-mono P Q f (ok a) h = f a h

anything : {A : Type 0} (r : Result A) → Leaves (λ a. Unit {0}) r
anything (err e) = tt
anything (ok a) = tt

Leaves-sent :
    {B : Type 0} (Q : B → Type 0) (faults : List Bool) (k : List Bool → Result B)
    → ((f : List Bool) → Leaves Q (k f))
    → Leaves Q (sent faults >>= k)
Leaves-sent Q faults k h =
    Leaves-bind (λ f. Unit {0}) Q (sent faults) k (anything (sent faults)) (λ f u. h f)

max_version-append :
    (vs : List ℕ) (v : ℕ)
    → (max_version vs ≤ max_version (vs ++ v ∷ [])) × (v ≤ max_version (vs ++ v ∷ []))
unfolding max_version
max_version-append [] v = ground arith
max_version-append (w ∷ vs) v = ground (arith, max_version-append vs v)

record_version-Leaves :
    (v : ℕ) (vs : List ℕ)
    → Leaves (λ ws. (max_version vs ≤ max_version ws) × (v ≤ max_version ws)) (record_version v vs)
unfolding record_version
record_version-Leaves v vs = elim (Bool-cases (has_version v vs)) [
  | inl e ↦ rw e tt
  | inr e ↦ rw e (max_version-append vs v)
]

-- The recorded versions reach every migration.
abbrev pub Reached : {S : Type 0} → List Migration → Schema S → Type 0
Reached ups d = All (λ m. m.version ≤ max_version d.versions) ups

module _ {S : Type 0} (c : Catalog S) where
  apply_each-Leaves :
      (applied : ℕ) (ups : List Migration) (faults : List Bool) (d : Schema S)
      → applied ≤ max_version d.versions
      → Leaves
          (λ x. (max_version d.versions ≤ max_version x.1.versions) × Reached ups x.1)
          (apply_each c applied ups faults d)
  unfolding apply_each
  apply_each-Leaves applied [] faults d h = (omega arith, tt)
  apply_each-Leaves applied (m ∷ ups) faults d h =
      (elim (leb m.version applied)
          as (λ t.
            (leb m.version applied) ≡ t
            → Leaves Goal (elim t [ true ↦ apply_each c applied ups faults d | false ↦ running ])) [
              | true ↦ λ e.
                  Leaves-mono _ _
                    (λ x r. (r.0, (ground (arith, r.0, h, leb→le m.version applied e), r.1)))
                    (apply_each c applied ups faults d) (apply_each-Leaves applied ups faults d h)
              | false ↦ λ e. Leaves-sent Goal faults _ (λ f.
                  Leaves-bind (λ a. Unit {0}) Goal (ran (c.execute m.sql d.tables)) _
                    (anything (ran (c.execute m.sql d.tables)))
                    (λ tables u. Leaves-sent Goal f _ (λ f.
                      Leaves-bind
                        (λ ws.
                          (max_version d.versions ≤ max_version ws) × (m.version ≤ max_version ws))
                        Goal (record_version m.version d.versions) _
                        (record_version-Leaves m.version d.versions)
                        (λ ws r.
                          let next : Schema S = record { tables = tables; versions = ws } in
                          Leaves-mono _ _
                            (λ x k. (omega (arith, r.0, k.0), (omega (arith, r.1, k.0), k.1)))
                            (apply_each c applied ups f next)
                            (apply_each-Leaves applied ups f next (omega (arith, h, r.0)))))))
            ])
        refl
    where
      Goal : List Bool × Schema S → Type 0
      Goal x = (max_version d.versions ≤ max_version x.1.versions) × Reached (m ∷ ups) x.1

      running : Result (List Bool × Schema S)
      running = do
        faults ← sent faults
        tables ← ran (c.execute m.sql d.tables)
        faults ← sent faults
        versions ← record_version m.version d.versions
        apply_each c applied ups faults (record { tables = tables; versions = versions })

  -- The version that is found is recorded, or it is 0.
  version_from-Leaves :
      (latest : ℕ) (faults : List Bool) (t : S) (vs : List ℕ)
      → Leaves (λ x. x.0 ≤ max_version x.2.versions) (version_from c latest faults t vs)
  unfolding version_from
  version_from-Leaves latest faults t (v ∷ vs) = Leaves-sent Found faults _ (λ f. omega arith)
    where
      Found : ℕ × List Bool × Schema S → Type 0
      Found x = x.0 ≤ max_version x.2.versions
  version_from-Leaves latest faults t [] = Leaves-sent Found faults _ (λ f.
      if_elim (Leaves Found) (not (c.has_messages t)) _ _ (λ e. omega arith)
        (λ e. Leaves-sent Found f _ (λ f. Leaves-sent Found f _ (λ f.
          Leaves-bind
            (λ ws. (max_version [] ≤ max_version ws) × (baseline c t latest ≤ max_version ws)) Found
            (record_version (baseline c t latest) [])
            (λ ws. ok (baseline c t latest, f, record { tables = t; versions = ws }))
            (record_version-Leaves (baseline c t latest) []) (λ ws r. r.1)))))
    where
      Found : ℕ × List Bool × Schema S → Type 0
      Found x = x.0 ≤ max_version x.2.versions

  applied_version-Leaves :
      (latest : ℕ) (faults : List Bool) (d : Schema S)
      → Leaves (λ x. x.0 ≤ max_version x.2.versions) (applied_version c latest faults d)
  unfolding applied_version
  applied_version-Leaves latest faults d =
      Leaves-sent (λ x. x.0 ≤ max_version x.2.versions) faults _
        (λ f. version_from-Leaves latest f d.tables d.versions)

  pub migrate-Leaves :
      (latest : ℕ) (ups : List Migration) (faults : List Bool) (d : Schema S)
      → Leaves (λ x. Reached ups x) (migrate c latest ups faults d)
  unfolding migrate
  migrate-Leaves latest ups faults d = Leaves-sent (Reached ups) faults _ (λ f.
      Leaves-sent (Reached ups) f _ (λ f.
        Leaves-bind (λ x. x.0 ≤ max_version x.2.versions) (Reached ups)
          (applied_version c latest f d) _ (applied_version-Leaves latest f d)
          (λ x h.
            Leaves-bind (λ y. Reached ups y.1) (Reached ups) (apply_each c x.0 ups x.1 x.2) _
              (Leaves-mono _ _ (λ y k. k.1) (apply_each c x.0 ups x.1 x.2)
                (apply_each-Leaves x.0 ups x.1 x.2 h))
              (λ y k. Leaves-sent (Reached ups) y.0 _ (λ f. k)))))
