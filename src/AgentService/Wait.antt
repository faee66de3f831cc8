-- ===== src/AgentService/Wait.antt =====
-- Which answer the client takes, and that it takes one.
use dsk_agent.Base.{
  ◌≡◌, refl, ap, Bool, true, Option, none, some, List, [], ◌∷◌, ◌++◌, find, arith, Bool-cases,
  Option-cases, inl, inr,
}
use dsk_agent.Base.Text.{Text, text_eq, text_eq→eq}
use dsk_agent.AgentService.{
  AgentRpcResponse, AgentDelivery, Event, message, queue_closed, timer_fired, context_done,
  Decoders, Answer, output, failure, response_timeout, callback_queue_closed, context_ended,
  receive, check_body, check_response, refused,
}

-- What ends the waiting: all but a message with another correlation id.
abbrev pub ends_wait : Text → Event → Bool
ends_wait correlation_id (message d) = text_eq d.correlation_id correlation_id
ends_wait correlation_id _ = true

module _ {A : Type 0} (json : Decoders A) (request_id correlation_id : Text) where
  -- The answer to an event that ends the waiting.
  abbrev pub answer_to : Option Event → Option (Answer A)
  answer_to none = none
  answer_to (some (message d)) = some (check_body json request_id d.body)
  answer_to (some queue_closed) = some (failure callback_queue_closed)
  answer_to (some timer_fired) = some (failure response_timeout)
  answer_to (some (context_done e)) = some (failure (context_ended e))

  -- The client's answer is decided by the first event that is no message with another correlation id: it passes
  -- over all messages before it, looks at none after it, and waits exactly as long as there is none.
  pub receive-first :
      (events : List Event)
      → receive json request_id correlation_id events
        ≡ answer_to (find (ends_wait correlation_id) events)
  unfolding receive
  receive-first [] = refl
  receive-first (context_done e ∷ events) = refl
  receive-first (timer_fired ∷ events) = refl
  receive-first (queue_closed ∷ events) = refl
  receive-first (message d ∷ events) = elim (Bool-cases (text_eq d.correlation_id correlation_id)) [
    | inl e ↦ rw e refl
    | inr e ↦ rw e (receive-first events)
  ]

  -- Once the timer has fired, the context has ended, or the queue has closed, the client has an answer, whatever
  -- messages came before and after.
  pub receive-ends :
      (before after : List Event) (e : Event)
      → ends_wait correlation_id e ≡ true
      → (a : Answer A) × (receive json request_id correlation_id (before ++ e ∷ after) ≡ some a)
  unfolding receive
  receive-ends [] after (message d) h = (check_body json request_id d.body, rw h refl)
  receive-ends [] after queue_closed h = (failure callback_queue_closed, refl)
  receive-ends [] after timer_fired h = (failure response_timeout, refl)
  receive-ends [] after (context_done x) h = (failure (context_ended x), refl)
  receive-ends (context_done x ∷ l) after e h = (failure (context_ended x), refl)
  receive-ends (timer_fired ∷ l) after e h = (failure response_timeout, refl)
  receive-ends (queue_closed ∷ l) after e h = (failure callback_queue_closed, refl)
  receive-ends (message d ∷ l) after e h =
      elim (Bool-cases (text_eq d.correlation_id correlation_id)) [
        | inl m ↦ (check_body json request_id d.body, rw m refl)
        | inr m ↦ let (a, r) = receive-ends l after e h in (a, rw m r)
      ]

  refused_none : (o : Option (Text × Text)) (a : A) → refused json request_id o ≡ output a → ⊥
  refused_none none a h = ground (arith, h)
  refused_none (some e) a h = ground (arith, h)

  check_response-output :
      (r : AgentRpcResponse) (a : A)
      → check_response json request_id r ≡ output a
      → (text_eq r.request_id request_id ≡ true)
        × (r.success ≡ true)
        × (json.output_data r.raw ≡ some a)
  unfolding check_response
  check_response-output r a h = (
    ground (arith, h),
    ground (arith, h, refused_none r.error a),
    ground (arith, h, refused_none r.error a),
  )

  check_body-output :
      (body : Text) (a : A)
      → check_body json request_id body ≡ output a
      → (r : AgentRpcResponse) × (json.response body ≡ some r)
        × (r.request_id ≡ request_id)
        × (r.success ≡ true)
        × (json.output_data r.raw ≡ some a)
  unfolding check_body
  check_body-output body a h = elim (Option-cases (json.response body)) [
    | inl e ↦ absurd (ground (arith, e, h))
    | inr (r, e) ↦
        let (own, good, same) = check_response-output r a (rw (e, check_body) at h) in
        (r, e, text_eq→eq _ _ own, good, same)
  ]

  -- An output that the client returns is the data of a response that came with the correlation id of the call, that
  -- names the request of the call, and that reports success.
  pub receive-own :
      (events : List Event) (a : A)
      → receive json request_id correlation_id events ≡ some (output a)
      → (d : AgentDelivery) × (r : AgentRpcResponse) × (before : List Event) × (after : List Event)
        × (events ≡ before ++ message d ∷ after)
        × (d.correlation_id ≡ correlation_id)
        × (json.response d.body ≡ some r)
        × (r.request_id ≡ request_id)
        × (r.success ≡ true)
        × (json.output_data r.raw ≡ some a)
  unfolding receive
  receive-own [] a h = absurd (cc h)
  receive-own (context_done x ∷ events) a h = absurd (ground (arith, h))
  receive-own (timer_fired ∷ events) a h = absurd (ground (arith, h))
  receive-own (queue_closed ∷ events) a h = absurd (ground (arith, h))
  receive-own (message d ∷ events) a h =
      elim (Bool-cases (text_eq d.correlation_id correlation_id)) [
        | inl m ↦
            let (r, e, own, good, same) = check_body-output d.body a (ground (arith, m, h)) in
            (d, r, [], events, refl, text_eq→eq _ _ m, e, own, good, same)
        | inr m ↦
            let (c, r, before, after, split, own, read, named, good, same) =
              receive-own events a (ground (arith, m, h)) in
            (
              c,
              r,
              message d ∷ before,
              after,
              ap (λ l. message d ∷ l) split,
              own,
              read,
              named,
              good,
              same,
            )
      ]
