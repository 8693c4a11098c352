-- ===== src/Api/Behaviour.antt =====
-- internal/api: what a request to enqueue does, which page of dead letters is asked for, and whom the
-- guards let in.
use shoebox.Base.{
  ℕ, ◌≡◌, ◌<◌, ◌≤◌, ◌⊎◌, refl, sym, ap, true, false, not, [], ◌∷◌, ◌++◌, Option, none, some, arith,
  inl, inr, is_nil, length, take, ltb, if_elim, un_not, subst, ◌&&◌, if◌then◌else◌, ◌+◌,
}
use shoebox.Base.Int.{ℤ, pos, negsuc, ltb_ℤ, pos_part}
use shoebox.Base.Text.{Str, str_eq, bytes}
use shoebox.Naming.{valid_queue_name}
use shoebox.Storage.{Time, Message, Error, backend, Result, ok, err}
use shoebox.Storage.Interface.{Moment, Store}
use shoebox.Dlq.{clamp_limit}
use shoebox.Api.{
  Decoding, Response, accepted, delayed_until, request_message, enqueue, list_limit,
  max_payload_size, max_dlq_limit, write_json, write_error, text_of, enqueued,
}
use shoebox.Api.Guards.{Request, Handler, auth, provided_key, unauthorized, skip}

-- A message that a request may ask for: in a queue with a valid name, new, with a payload, and due at
-- once or later.
pub record Acceptable (w : Moment) (queue : Str) (msg : Message) : Type 0 where
  pub valid : valid_queue_name queue ≡ true
  pub queue_set : msg.queue ≡ queue
  pub id_fresh : msg.id ≡ w.fresh
  pub filled : is_nil msg.payload ≡ false
  pub new : msg.attempts ≡ 0
  pub due : (msg.scheduled_at ≡ 0) ⊎ (w.now < msg.scheduled_at)

abbrev Later : Time → Option Time → Type 0
Later now none = Unit
Later now (some t) = (t ≡ 0) ⊎ (now < t)

delayed_until-Later :
    (parse : Str → Option ℤ) (now : Time) (delay : Str) → Later now (delayed_until parse now delay)
unfolding delayed_until
delayed_until-Later parse now delay =
    if_elim (Later now) (is_nil delay) _ _ (λ e. inl refl)
      (λ e.
        elim (parse delay)
          as (λ o. Later now (elim o [
            | none ↦ none
            | some d ↦ some (if ltb_ℤ (pos 0) d then now + pos_part d else 0)
          ])) [
            | none ↦ tt
            | some d ↦
                if_elim (λ t. (t ≡ 0) ⊎ (now < t)) (ltb_ℤ (pos 0) d) _ _
                  (λ l. inr (ground (arith, l))) (λ l. inl refl)
          ])

abbrev Accepts : (Message → Type 0) → Result Message → Type 0
Accepts P (err e) = Unit
Accepts P (ok msg) = P msg

accepted-Acceptable :
    (x : Decoding) (w : Moment) (queue body : Str)
    → Accepts (Acceptable w queue) (accepted x w queue body)
unfolding accepted request_message
accepted-Acceptable x w queue body =
    if_elim (Accepts (Acceptable w queue)) (not (valid_queue_name queue)) _ _ (λ e. tt)
      (λ v.
        elim (x.decode max_payload_size body)
          as (λ o. Accepts (Acceptable w queue) (elim o [
            | none ↦ err (backend (bytes "invalid JSON body"))
            | some req ↦
                if is_nil req.payload
                then err (backend (bytes "payload is required"))
                else elim (delayed_until x.parse_duration w.now req.delay) [
                  | none ↦ err (backend (bytes "invalid delay"))
                  | some t ↦ ok (request_message w.fresh queue req t)
                ]
          ])) [
            | none ↦ tt
            | some req ↦
                if_elim (Accepts (Acceptable w queue)) (is_nil req.payload) _ _ (λ e. tt)
                  (λ p.
                    (elim (delayed_until x.parse_duration w.now req.delay)
                        as (λ o.
                          Later w.now o
                          → Accepts (Acceptable w queue) (elim o [
                            | none ↦ err (backend (bytes "invalid delay"))
                            | some t ↦ ok (request_message w.fresh queue req t)
                          ])) [
                            | none ↦ λ l. tt
                            | some t ↦ λ l. record {
                              valid = un_not (valid_queue_name queue) v;
                              queue_set = refl;
                              id_fresh = refl;
                              filled = p;
                              new = refl;
                              due = l;
                            }
                          ])
                      (delayed_until-Later x.parse_duration w.now req.delay))
          ])

-- The answer to a message that the store was given.
abbrev pub posted : {S : Type 0} → Message → S × Option Error → S × Response
posted msg (s, none) = (s, write_json 201 (enqueued msg.id))
posted msg (s, some e) = (s, write_error 500 (bytes "enqueue failed"))

-- A request to enqueue is refused with the status 400 and changes nothing, or it hands one acceptable
-- message to the store and answers 201 with its identifier, or 500 where the store reports an error.
pub enqueue_outcome :
    {S : Type 0} (store : Store S) (x : Decoding) (w : Moment) (s : S) (queue body : Str)
    → (((enqueue store x w s queue body).0 ≡ s) × ((enqueue store x w s queue body).1.status ≡ 400))
      ⊎ ((msg : Message) × Acceptable w queue msg
          × (enqueue store x w s queue body ≡ posted msg (store.enqueue w s queue msg)))
unfolding enqueue
enqueue_outcome {S} store x w s queue body =
    (elim (accepted x w queue body) as (λ r. Accepts (Acceptable w queue) r → Settled (respond r)) [
      | err e ↦ λ a. inl (refl, refl)
      | ok msg ↦ λ a. inr (msg, a, by_error msg (store.enqueue w s queue msg))
    ])
      (accepted-Acceptable x w queue body)
  where
    respond : Result Message → S × Response
    respond r = elim r [
      | err e ↦ (s, write_error 400 (text_of e))
      | ok msg ↦
          let r = store.enqueue w s queue msg in
          (
            r.0,
            elim r.1 [
              | none ↦ write_json 201 (enqueued msg.id)
              | some e ↦ write_error 500 (bytes "enqueue failed")
            ],
          )
    ]

    Settled : S × Response → Type 0
    Settled y =
        ((y.0 ≡ s) × (y.1.status ≡ 400))
        ⊎ ((msg : Message) × Acceptable w queue msg
            × (y ≡ posted msg (store.enqueue w s queue msg)))

    by_error :
        (msg : Message) (r : S × Option Error)
        → (
          r.0,
          elim r.1 [
            | none ↦ write_json 201 (enqueued msg.id)
            | some e ↦ write_error 500 (bytes "enqueue failed")
          ],
        )
          ≡ posted msg r
    by_error msg (t, none) = refl
    by_error msg (t, some e) = refl

abbrev Page : ℤ → Type 0
Page z = (1 ≤ clamp_limit z) × (clamp_limit z ≤ 1000) × (pos (clamp_limit z) ≡ z)

pos-Page : (n : ℕ) → 1 ≤ n → n ≤ 1000 → Page (pos n)
unfolding clamp_limit
pos-Page n a b = (ground arith, ground arith, ground arith)

number-Page : (n : ℤ) → ltb_ℤ (pos 0) n ≡ true → ltb_ℤ max_dlq_limit n ≡ false → Page n
number-Page (pos n) a b = pos-Page n (ground (arith, a)) (ground (arith, b))
number-Page (negsuc n) a b = let bad : true ≡ false = ground (arith, a) in cc

clamped-Page :
    (n : ℤ)
    → Page
        (if ltb_ℤ (pos 0) n then (if ltb_ℤ max_dlq_limit n then max_dlq_limit else n) else pos 50)
clamped-Page n =
    if_elim Page (ltb_ℤ (pos 0) n) _ _
      (λ a.
        if_elim Page (ltb_ℤ max_dlq_limit n) _ _ (λ b. pos-Page 1000 (omega arith) (omega arith))
          (number-Page n a))
      (λ a. pos-Page 50 (omega arith) (omega arith))

-- The page of dead letters that an endpoint asks for is from 1 to 1000 messages long, and the manager
-- takes it as it is.
clamp_limit-list_limit :
    (atoi : Str → Option ℤ) (text : Str)
    → (1 ≤ clamp_limit (list_limit atoi text))
      × (clamp_limit (list_limit atoi text) ≤ 1000)
      × (pos (clamp_limit (list_limit atoi text)) ≡ list_limit atoi text)
unfolding list_limit
clamp_limit-list_limit atoi text =
    if_elim Page (is_nil text) _ _ (λ e. pos-Page 50 (omega arith) (omega arith))
      (λ e.
        elim (atoi text)
          as (λ o. Page (elim o [
            | none ↦ pos 50
            | some n ↦
                if ltb_ℤ (pos 0) n
                then (if ltb_ℤ max_dlq_limit n then max_dlq_limit else n)
                else pos 50
          ])) [ none ↦ pos-Page 50 (omega arith) (omega arith) | some n ↦ clamped-Page n ])

bearer :
    (header key : Str)
    → header ≡ bytes "Bearer " ++ key
    → (if ltb 7 (length header) && str_eq (take 7 header) (bytes "Bearer ")
        then skip 7 header
        else [])
      ≡ key
unfolding str_eq
bearer header [] h = rw h (ground arith)
bearer header (c ∷ key) h = rw h (ground arith)

key_provided :
    (key : Str) (r : Request)
    → r.api_key ≡ []
    → r.authorization ≡ bytes "Bearer " ++ key
    → provided_key r ≡ key
unfolding provided_key
key_provided key r a h =
    subst
      (λ t.
        (if t
          then (if ltb 7 (length r.authorization)
                && str_eq (take 7 r.authorization) (bytes "Bearer ")
              then skip 7 r.authorization
              else [])
          else r.api_key)
        ≡ key)
      (sym (ap is_nil a)) (bearer r.authorization key h)

-- A request without an X-API-Key header whose Authorization header is `Bearer` and a key reaches the
-- handler if the key is the token; otherwise it is refused and nothing changes.
auth_bearer :
    {S : Type 0} (token key : Str) (next : Handler S) (s : S) (r : Request)
    → is_nil token ≡ false
    → r.api_key ≡ []
    → r.authorization ≡ bytes "Bearer " ++ key
    → auth token next s r ≡ (if str_eq key token then next s r else (s, some unauthorized))
unfolding auth
auth_bearer token key next s r t a h = rw (t, key_provided key r a h) refl
