-- ===== src/Webhook/Verdicts.antt =====
-- webhook.go with internal/broker/broker.go: what becomes of a message that a webhook delivers.
use shoebox.Base.{
  ℕ, suc, ◌↔◌, ◌++◌, subst, ◌+◌, ◌≡◌, ◌≤◌, ◌<◌, refl, ap, sym, ◌∙◌, true, false, List, Option, none,
  some, arith,
}
use shoebox.Base.Int.{pos}
use shoebox.Base.Text.{Str, bytes}
use shoebox.Storage.{Time, Message}
use shoebox.Broker.{Handler}
use shoebox.Broker.Handling.Budget.{acknowledge, exhausted, verdict}
use shoebox.Broker.Handling.Lives.{life, Buried, always_failing_is_Buried}
use shoebox.Webhook.{
  WebhookOption, HttpResponse, replied, Client, reply_error, deliver, webhook_handler,
  apply_options, default_config, delivery_request,
}

unposted :
    {S : Type 0} (cl : Client S) (target : Str) (opts : List WebhookOption) (s : S) (msg : Message)
    → cl.parses target ≡ false
    → webhook_handler cl target opts s msg
      ≡ (s, some (bytes "webhook: " ++ (target ++ bytes ": build request")))
unfolding webhook_handler deliver
unposted cl target opts s msg p = rw p refl

posted :
    {S : Type 0} (cl : Client S) (target : Str) (opts : List WebhookOption) (s : S) (msg : Message)
    → cl.parses target ≡ true
    → (webhook_handler cl target opts s msg).1
      ≡ reply_error cl target
          (cl.post s (delivery_request cl (apply_options default_config opts) target msg)).1
unfolding webhook_handler deliver
posted cl target opts s msg p = rw p refl

-- Although the comment on it says that retries are skipped, a target URL that does not parse costs a message
-- all of its retries: never attempted before, and under a limit of n retries, it is handed to the webhook
-- n + 1 times, whatever the states and the other fields of the delivered messages are, each time nothing
-- is posted, and then it is dead-lettered.
pub bad_target_is_Buried :
    {S : Type 0} (cl : Client S) (h : Handler S) (target : Str) (opts : List WebhookOption)
    (states : ℕ → S) (deliveries : ℕ → Message) (clock : ℕ → Time) (n : ℕ) (msg : Message)
    → cl.parses target ≡ false
    → h.max_retries ≡ pos n
    → msg.attempts ≡ 0
    → ((λ a. (webhook_handler cl target opts (states a) (deliveries a)).0) ≡ states)
      × Buried msg n
          (n + 1)
          (λ a. bytes "webhook: " ++ (target ++ bytes ": build request"))
          (life
            (suc n)
            h
            (λ a. (webhook_handler cl target opts (states a) (deliveries a)).1)
            clock
            msg)
bad_target_is_Buried cl h target opts states deliveries clock n msg p limit fresh =
    let same : (a : ℕ) → _ = λ a. unposted cl target opts (states a) (deliveries a) p in
    (
      λ i a. (same a i).0,
      subst
          (λ r.
            Buried msg n (n + 1) (λ a. bytes "webhook: " ++ (target ++ bytes ": build request"))
              (life (suc n) h r clock msg))
          (sym (λ i a. (same a i).1)) (always_failing_is_Buried h _ clock n msg limit fresh),
    )

acknowledged :
    {S : Type 0} (h : Handler S) (msg : Message) (r : Option Str) (now : Time)
    → exhausted h msg ≡ false
    → (verdict h msg r now ≡ acknowledge) ↔ (r ≡ none)
unfolding verdict
acknowledged h msg none now x = ((λ e. refl), λ e. rw x refl)
acknowledged h msg (some e) now x = ((λ v. ground (arith, x, v)), λ n. cc)

reply_error-none :
    {S : Type 0} (cl : Client S) (target : Str) (resp : HttpResponse)
    → (reply_error cl target (replied resp) ≡ none)
      ↔ ((200 ≤ resp.status_code) × (resp.status_code < 300))
unfolding reply_error
reply_error-none cl target resp = ground arith

-- A message that its handler may still try, and whose target replies, is acknowledged exactly when the
-- status of the reply is from 200 to 299.
replied_verdict :
    {S : Type 0} (cl : Client S) (h : Handler S) (target : Str) (opts : List WebhookOption) (s : S)
    (msg : Message) (now : Time) (resp : HttpResponse)
    → cl.parses target ≡ true
    → exhausted h msg ≡ false
    → (cl.post s (delivery_request cl (apply_options default_config opts) target msg)).1
      ≡ replied resp
    → (verdict h msg (webhook_handler cl target opts s msg).1 now ≡ acknowledge)
      ↔ ((200 ≤ resp.status_code) × (resp.status_code < 300))
replied_verdict cl h target opts s msg now resp p x r =
    let result : (webhook_handler cl target opts s msg).1 ≡ reply_error cl target (replied resp) =
      posted cl target opts s msg p ∙ ap (λ y. reply_error cl target y) r in
    let first = acknowledged h msg (reply_error cl target (replied resp)) now x in
    let then_ok = reply_error-none cl target resp in
    subst
      (λ o.
        (verdict h msg o now ≡ acknowledge) ↔ ((200 ≤ resp.status_code) × (resp.status_code < 300)))
      (sym result) ((λ v. then_ok.0 (first.0 v)), λ b. first.1 (then_ok.1 b))
