-- ===== src/Migrations/Resuming.antt =====
-- internal/storage/sqlite.go: the loop over the migrations takes up an interrupted one where it stopped.
use shoebox.Base.{
  ℕ, ◌≡◌, ◌≤◌, ◌<◌, refl, ap, sym, ◌∙◌, Bool, true, false, List, [], ◌∷◌, none, some, leb, arith,
  inl, inr, Bool-cases, Option-cases, All,
}
use shoebox.Migrations.{Migration}
use shoebox.Migrations.Running.{Schema, Scripts, faulty, rest_of, apply_each, script_failed}
use shoebox.Sql.{interrupted}

-- The versions grow, from above a number.
abbrev pub Ascending : ℕ → List Migration → Type 0
Ascending v [] = Unit
Ascending v (m ∷ ups) = (v < m.version) × Ascending m.version ups

-- Two versions have the same migrations left.
abbrev pub Same : ℕ → ℕ → List Migration → Type 0
Same v w ups = All (λ m. leb m.version v ≡ leb m.version w) ups

above : (v w u : ℕ) (ups : List Migration) → v ≤ u → w ≤ u → Ascending u ups → Same v w ups
above v w u [] a b h = tt
above v w u (m ∷ ups) a b h =
    (ground arith, above v w m.version ups (omega arith) (omega arith) h.1)

Same-comm : (v w : ℕ) (ups : List Migration) → Same v w ups → Same w v ups
Same-comm v w [] h = tt
Same-comm v w (m ∷ ups) h = (sym h.0, Same-comm v w ups h.1)

module _ {S : Type 0} (c : Scripts S) where
  pub skipped :
      (v : ℕ) (m : Migration) (ups : List Migration) (faults : List Bool) (d : Schema S)
      → leb m.version v ≡ true
      → apply_each c v (m ∷ ups) faults d ≡ apply_each c v ups faults d
  unfolding apply_each
  skipped v m ups faults d e = ground (arith, e)

  halted :
      (v : ℕ) (m : Migration) (ups : List Migration) (faults : List Bool) (d : Schema S)
      → leb m.version v ≡ false
      → faulty faults ≡ true
      → apply_each c v (m ∷ ups) faults d ≡ (d, some interrupted)
  unfolding apply_each
  halted v m ups faults d e f = ground (arith, e, f)

  pub failed :
      (v : ℕ) (m : Migration) (ups : List Migration) (faults : List Bool) (d : Schema S)
      → leb m.version v ≡ false
      → faulty faults ≡ false
      → c.execute m.sql d.tables ≡ none
      → apply_each c v (m ∷ ups) faults d ≡ (d, some script_failed)
  unfolding apply_each
  failed v m ups faults d e f x = ground (arith, e, f, x)

  applied :
      (v : ℕ) (m : Migration) (ups : List Migration) (faults : List Bool) (d : Schema S) (s : S)
      → leb m.version v ≡ false
      → faulty faults ≡ false
      → c.execute m.sql d.tables ≡ some s
      → apply_each c v (m ∷ ups) faults d
        ≡ apply_each c v ups (rest_of faults) (record { tables = s; version = m.version })
  unfolding apply_each
  applied v m ups faults d s e f x = ground (arith, e, f, x)

  apply_each-Same :
      (v w : ℕ) (ups : List Migration) (d : Schema S)
      → Same v w ups
      → apply_each c v ups [] d ≡ apply_each c w ups [] d
  unfolding apply_each
  apply_each-Same v w [] d h = refl
  apply_each-Same v w (m ∷ ups) d h = elim (Bool-cases (leb m.version v)) [
    | inl e ↦
        skipped v m ups [] d e
        ∙ apply_each-Same v w ups d h.1
        ∙ sym (skipped w m ups [] d (sym h.0 ∙ e))
    | inr e ↦ elim (Option-cases (c.execute m.sql d.tables)) [
      | inl x ↦ failed v m ups [] d e refl x ∙ sym (failed w m ups [] d (sym h.0 ∙ e) refl x)
      | inr (s, x) ↦
          applied v m ups [] d s e refl x
          ∙ apply_each-Same v w ups (record { tables = s; version = m.version }) h.1
          ∙ sym (applied w m ups [] d s (sym h.0 ∙ e) refl x)
    ]
  ]

  -- The version never falls.
  pub grows :
      (v u : ℕ) (ups : List Migration) (faults : List Bool) (d : Schema S)
      → v ≤ d.version
      → Same v d.version ups
      → Ascending u ups
      → d.version ≤ (apply_each c v ups faults d).0.version
  unfolding apply_each
  grows v u [] faults d l h a = omega arith
  grows v u (m ∷ ups) faults d l h a = elim (Bool-cases (leb m.version v)) [
    | inl e ↦ rw (skipped v m ups faults d e) (grows v m.version ups faults d l h.1 a.1)
    | inr e ↦ elim (Bool-cases (faulty faults)) [
      | inl f ↦ rw (halted v m ups faults d e f) (omega arith)
      | inr f ↦ elim (Option-cases (c.execute m.sql d.tables)) [
        | inl x ↦ rw (failed v m ups faults d e f x) (omega arith)
        | inr (s, x) ↦
            let below : d.version < m.version = ground (arith, h.0, e) in
            let more =
              grows v m.version ups (rest_of faults) (record { tables = s; version = m.version })
                (omega arith) (above v m.version m.version ups (omega arith) (omega arith) a.1)
                a.1 in
            rw (applied v m ups faults d s e f x) (omega arith)
      ]
    ]
  ]

  pub apply_resumed :
      (v u : ℕ) (ups : List Migration) (faults : List Bool) (d : Schema S)
      → v ≤ d.version
      → Same v d.version ups
      → Ascending u ups
      → apply_each c (apply_each c v ups faults d).0.version ups [] (apply_each c v ups faults d).0
        ≡ apply_each c v ups [] d
  unfolding apply_each
  apply_resumed v u [] faults d l h a = refl
  apply_resumed v u (m ∷ ups) faults d l h a = elim (Bool-cases (leb m.version v)) [
    | inl e ↦
        let up = grows v m.version ups faults d l h.1 a.1 in
        let past : leb m.version (apply_each c v ups faults d).0.version ≡ true =
          ground (arith, e, up, l) in
        rw (skipped v m ups faults d e) (
          skipped _ m ups [] _ past
          ∙ apply_resumed v m.version ups faults d l h.1 a.1
          ∙ sym (skipped v m ups [] d e))
    | inr e ↦ elim (Bool-cases (faulty faults)) [
      | inl f ↦
          rw (halted v m ups faults d e f)
            (apply_each-Same d.version v (m ∷ ups) d (Same-comm v d.version (m ∷ ups) h))
      | inr f ↦ elim (Option-cases (c.execute m.sql d.tables)) [
        | inl x ↦
            rw (failed v m ups faults d e f x)
              (apply_each-Same d.version v (m ∷ ups) d (Same-comm v d.version (m ∷ ups) h))
        | inr (s, x) ↦
            let next : Schema S = record { tables = s; version = m.version } in
            let kept = above v m.version m.version ups (ground (arith, e)) (omega arith) a.1 in
            let up = grows v m.version ups (rest_of faults) next (ground (arith, e)) kept a.1 in
            let past : leb m.version (apply_each c v ups (rest_of faults) next).0.version ≡ true =
              ground (arith, up) in
            rw (applied v m ups faults d s e f x) (
              skipped _ m ups [] _ past
              ∙ apply_resumed v m.version ups (rest_of faults) next (ground (arith, e)) kept a.1
              ∙ sym (applied v m ups [] d s e refl x))
      ]
    ]
  ]

  -- Where the version is still 0, no migration has been applied.
  pub unmoved :
      (v u : ℕ) (ups : List Migration) (faults : List Bool) (d : Schema S)
      → Ascending u ups
      → (apply_each c v ups faults d).0.version ≡ 0
      → (apply_each c v ups faults d).0 ≡ d
  unfolding apply_each
  unmoved v u [] faults d a z = refl
  unmoved v u (m ∷ ups) faults d a z = elim (Bool-cases (leb m.version v)) [
    | inl e ↦
        let skip = ap (λ x. x.0) (skipped v m ups faults d e) in
        skip ∙ unmoved v m.version ups faults d a.1 (ap (λ t. t.version) (sym skip) ∙ z)
    | inr e ↦ elim (Bool-cases (faulty faults)) [
      | inl f ↦ ap (λ x. x.0) (halted v m ups faults d e f)
      | inr f ↦ elim (Option-cases (c.execute m.sql d.tables)) [
        | inl x ↦ ap (λ x. x.0) (failed v m ups faults d e f x)
        | inr (s, x) ↦
            let next : Schema S = record { tables = s; version = m.version } in
            let kept = above v m.version m.version ups (ground (arith, e)) (omega arith) a.1 in
            let up = grows v m.version ups (rest_of faults) next (ground (arith, e)) kept a.1 in
            let same = ap (λ x. x.0.version) (applied v m ups faults d s e f x) in
            let bad : true ≡ false = ground (arith, up, same, z, a.0) in cc
      ]
    ]
  ]
