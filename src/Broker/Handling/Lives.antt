-- ===== src/Broker/Handling/Lives.antt =====
-- internal/broker/broker.go: the deliveries of one message, one after the other.
use shoebox.Base.{
  ℕ, zero, suc, ◌+◌, ◌≤◌, ◌<◌, ◌≡◌, ◌≢◌, refl, Bool, true, false, Option, none, some, arith,
  if◌then◌else◌, inl, inr, Bool-cases, ◌∙◌,
}
use shoebox.Base.Int.{pos, ltb_ℤ}
use shoebox.Base.Text.{Str}
use shoebox.Storage.{Time, Message}
use shoebox.Broker.{Handler, add_duration}
use shoebox.Broker.Handling.{max_retries_exceeded}
use shoebox.Broker.Handling.Budget.{
  Verdict, acknowledge, try_again, bury, exhausted, attempted, verdict,
}

-- The deliveries that follow a verdict, when the handler ran `runs` times for it.
after_verdict : ℕ → Verdict → (Message → ℕ × Option Verdict) → ℕ × Option Verdict
after_verdict runs acknowledge rest = (runs, some acknowledge)
after_verdict runs (bury last e) rest = (runs, some (bury last e))
after_verdict runs (try_again next) rest = (runs + (rest next).0, (rest next).1)

-- The deliveries of one message, each at the time `clock` tells and each with the result `results`
-- tells, by the number of attempts before it: how often the handler ran, and how it ended. `none`
-- means that the fuel ran out.
pub life :
    {S : Type 0} → ℕ → Handler S → (ℕ → Option Str) → (ℕ → Time) → Message → ℕ × Option Verdict
unfolding after_verdict
life zero h results clock msg = (0, none)
life (suc f) h results clock msg =
    after_verdict (if exhausted h msg then 0 else 1)
      (verdict h msg (results msg.attempts) (clock msg.attempts)) (life f h results clock)

module _ {S : Type 0} (h : Handler S) (n : ℕ) (limit : h.max_retries ≡ pos n) where
  not_exhausted : (msg : Message) → msg.attempts ≤ n → exhausted h msg ≡ false
  not_exhausted msg l = rw limit (ground arith)

  verdict_last :
      (msg : Message) (e : Str) (now : Time)
      → msg.attempts ≡ n
      → verdict h msg (some e) now ≡ bury (attempted msg) (some e)
  unfolding verdict
  verdict_last msg e now l = rw (not_exhausted msg (omega arith)) (rw limit (ground arith))

  verdict_again :
      (msg : Message) (e : Str) (now : Time)
      → msg.attempts < n
      → (next : Message) × (verdict h msg (some e) now ≡ try_again next)
        × (next.attempts ≡ msg.attempts + 1)
        × (next.id ≡ msg.id)
  unfolding verdict
  verdict_again msg e now l = (
    record (attempted msg) { scheduled_at = add_duration now (h.backoff (pos (msg.attempts + 1))) },
    rw (not_exhausted msg (omega arith)) (rw limit (ground arith)),
    refl,
    refl,
  )

-- The end of a message whose handler always fails: how often the handler ran, and what is buried.
pub record Buried (msg : Message) (n runs : ℕ) (errors : ℕ → Str) (r : ℕ × Option Verdict)
    : Type 0 where
  pub last : Message
  pub ran : r.0 ≡ runs
  pub outcome : r.1 ≡ some (bury last (some (errors n)))
  pub spent : last.attempts ≡ n + 1
  pub same : last.id ≡ msg.id

life_last :
    {S : Type 0} (h : Handler S) (errors : ℕ → Str) (clock : ℕ → Time) (n f : ℕ) (msg : Message)
    → h.max_retries ≡ pos n
    → msg.attempts ≡ n
    → Buried msg n 1 errors (life (suc f) h (λ a. some (errors a)) clock msg)
unfolding life
life_last h errors clock n f msg limit a =
    rw (verdict_last h n limit msg (errors msg.attempts) (clock msg.attempts) a) (
      rw (not_exhausted h n limit msg (omega arith))
        (record { last = attempted msg; ran = refl; outcome = rw a; spent = rw a; same = refl }))

life_again :
    {S : Type 0} (h : Handler S) (results : ℕ → Option Str) (clock : ℕ → Time) (f : ℕ)
    (msg next : Message)
    → exhausted h msg ≡ false
    → verdict h msg (results msg.attempts) (clock msg.attempts) ≡ try_again next
    → life (suc f) h results clock msg
      ≡ (1 + (life f h results clock next).0, (life f h results clock next).1)
unfolding life
life_again h results clock f msg next x v = rw v (rw x)

life_fails :
    {S : Type 0} (h : Handler S) (errors : ℕ → Str) (clock : ℕ → Time) (n k : ℕ) (msg : Message)
    → h.max_retries ≡ pos n
    → msg.attempts + k ≡ n
    → Buried msg n (k + 1) errors (life (suc k) h (λ a. some (errors a)) clock msg)
life_fails h errors clock n zero msg limit a =
    let here = life_last h errors clock n 0 msg limit (omega arith) in
    record {
      last = here.last;
      ran = omega (arith, here.ran);
      outcome = here.outcome;
      spent = here.spent;
      same = here.same;
    }
life_fails h errors clock n (suc k) msg limit a =
    let again =
      verdict_again h n limit msg (errors msg.attempts) (clock msg.attempts) (omega arith) in
    let fit = not_exhausted h n limit msg (omega arith) in
    let step = life_again h (λ j. some (errors j)) clock (suc k) msg again.0 fit again.1 in
    let rest = life_fails h errors clock n k again.0 limit (omega (arith, again.2)) in
    record {
      last = rest.last;
      ran = rw step (omega (arith, rest.ran));
      outcome = rw step rest.outcome;
      spent = rest.spent;
      same = rest.same ∙ again.3;
    }

-- A message that was never attempted and whose handler always fails, under a limit of n retries,
-- runs its handler exactly n + 1 times and is then dead-lettered, with n + 1 attempts, its own
-- identifier and the last error. Fuel n + 1 is enough.
pub always_failing_is_Buried :
    {S : Type 0} (h : Handler S) (errors : ℕ → Str) (clock : ℕ → Time) (n : ℕ) (msg : Message)
    → h.max_retries ≡ pos n
    → msg.attempts ≡ 0
    → Buried msg n (n + 1) errors (life (suc n) h (λ a. some (errors a)) clock msg)
always_failing_is_Buried h errors clock n msg limit a =
    life_fails h errors clock n n msg limit (omega arith)

-- A message that has used up its attempts is buried, and its handler does not run.
pub life_spent :
    {S : Type 0} (h : Handler S) (results : ℕ → Option Str) (clock : ℕ → Time) (f : ℕ)
    (msg : Message)
    → exhausted h msg ≡ true
    → life (suc f) h results clock msg ≡ (0, some (bury msg max_retries_exceeded))
unfolding life verdict
life_spent h results clock f msg x = rw x refl

-- The ways a delivery can end under a limit of n retries.
data Ends (msg : Message) (n : ℕ) (v : Verdict) : Type 0 where
  settled : ((next : Message) → v ≢ try_again next) → Ends msg n v
  again :
      (next : Message)
      → v ≡ try_again next
      → next.attempts ≡ msg.attempts + 1
      → msg.attempts < n
      → Ends msg n v

verdict-Ends :
    {S : Type 0} (h : Handler S) (n : ℕ)
    → h.max_retries ≡ pos n
    → (msg : Message) (r : Option Str) (now : Time) → Ends msg n (verdict h msg r now)
unfolding verdict
verdict-Ends h n limit msg none now = settled (λ next. ground arith)
verdict-Ends h n limit msg (some e) now = elim (Bool-cases (exhausted h msg)) [
  | inl x ↦ rw x (settled (λ next. ground arith))
  | inr x ↦ elim (Bool-cases (ltb_ℤ h.max_retries (pos (msg.attempts + 1)))) [
    | inl over ↦ rw x (rw over (settled (λ next. ground arith)))
    | inr more ↦ rw x (rw more (again _ refl refl (below more)))
  ]
]
  where
    below : ltb_ℤ h.max_retries (pos (msg.attempts + 1)) ≡ false → msg.attempts < n
    below more =
        let fits : ltb_ℤ (pos n) (pos (msg.attempts + 1)) ≡ false = rw limit at more in ground arith

after_settled :
    (runs : ℕ) (v : Verdict) (rest : Message → ℕ × Option Verdict)
    → ((next : Message) → v ≢ try_again next)
    → ((after_verdict runs v rest).1 ≢ none) × ((after_verdict runs v rest).0 ≡ runs)
unfolding after_verdict
after_settled runs acknowledge rest h = ground arith
after_settled runs (bury last e) rest h = ground arith
after_settled runs (try_again next) rest h = absurd (h next refl)

at_most_one : (x : Bool) → (if x then 0 else 1) ≤ 1
at_most_one x = ground arith

life_settled :
    {S : Type 0} (h : Handler S) (results : ℕ → Option Str) (clock : ℕ → Time) (f : ℕ)
    (msg : Message)
    → ((next : Message)
        → verdict h msg (results msg.attempts) (clock msg.attempts) ≢ try_again next)
    → ((life (suc f) h results clock msg).1 ≢ none) × ((life (suc f) h results clock msg).0 ≤ 1)
unfolding life
life_settled h results clock f msg s =
    let runs : ℕ = if exhausted h msg then 0 else 1 in
    let done =
      after_settled runs (verdict h msg (results msg.attempts) (clock msg.attempts))
        (life f h results clock) s in
    (done.0, omega (arith, done.1, at_most_one (exhausted h msg)))

life_within :
    {S : Type 0} (h : Handler S) (results : ℕ → Option Str) (clock : ℕ → Time) (n k : ℕ)
    (msg : Message)
    → h.max_retries ≡ pos n
    → n ≤ msg.attempts + k
    → ((life (suc k) h results clock msg).1 ≢ none) × ((life (suc k) h results clock msg).0 ≤ k + 1)
life_within h results clock n zero msg limit l =
    elim (verdict-Ends h n limit msg (results msg.attempts) (clock msg.attempts)) [
      | settled s ↦ life_settled h results clock 0 msg s
      | again next v a b ↦ absurd (omega arith)
    ]
life_within h results clock n (suc k) msg limit l =
    elim (verdict-Ends h n limit msg (results msg.attempts) (clock msg.attempts)) [
      | settled s ↦
          let done = life_settled h results clock (suc k) msg s in (done.0, omega (arith, done.1))
      | again next v a b ↦
          let rest = life_within h results clock n k next limit (omega arith) in
          rw
            (life_again h results clock (suc k) msg next (not_exhausted h n limit msg (omega arith))
              v)
            (rest.0, omega (arith, rest.1))
    ]

-- Whatever its handler returns, and whatever its count of attempts, a message comes to an end under
-- a limit of n retries within n + 1 deliveries, and its handler runs at most n + 1 times.
life_ends :
    {S : Type 0} (h : Handler S) (results : ℕ → Option Str) (clock : ℕ → Time) (n : ℕ)
    (msg : Message)
    → h.max_retries ≡ pos n
    → ((life (suc n) h results clock msg).1 ≢ none) × ((life (suc n) h results clock msg).0 ≤ n + 1)
life_ends h results clock n msg limit = life_within h results clock n n msg limit (omega arith)
