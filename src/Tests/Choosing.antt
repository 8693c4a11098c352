-- ===== src/Tests/Choosing.antt =====
-- Applications of the theorems on dedupe stores, backoffs and queue names.
use shoebox.Base.{◌+◌, ◌*◌, ◌^◌, ◌≡◌, List, [], ◌∷◌, arith}
use shoebox.Base.Int.{pos, ◌<ℤ◌}
use shoebox.Base.Text.{bytes}
use shoebox.Dedupe.{Entry}
use shoebox.Dedupe.Window.{asks, ttl_run, ideal_run, ttl_run-ideal_run}
use shoebox.Retry.{exponential}
use shoebox.Retry.Bounds.{exponential_wraps}

ttl_run-ideal_run_example :
    ttl_run 10 [] ((asks (bytes "a"), 1) ∷ (asks (bytes "a"), 5) ∷ (asks (bytes "a"), 20) ∷ [])
    ≡ ideal_run 10
        (λ k. 0)
        ((asks (bytes "a"), 1) ∷ (asks (bytes "a"), 5) ∷ (asks (bytes "a"), 20) ∷ [])
ttl_run-ideal_run_example =
    ttl_run-ideal_run 10
      ((asks (bytes "a"), 1) ∷ (asks (bytes "a"), 5) ∷ (asks (bytes "a"), 20) ∷ [])
      (omega arith, (omega arith, (omega arith, tt)))

abbrev kept : List Entry
kept = record { key = bytes "a"; expires_at = 9 } ∷ record { key = bytes "b"; expires_at = 9 } ∷ []

exponential_wraps_example :
    (exponential (pos (2 ^ 34 + 3)) (pos 4000000000) (pos 31) ≡ pos (3 * 2 ^ 30))
    × (pos (3 * 2 ^ 30) <ℤ pos (2 ^ 34 + 3))
exponential_wraps_example = exponential_wraps 3 4000000000 (omega arith) (omega arith) (omega arith)
