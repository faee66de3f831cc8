-- ===== src/Broker/Settled.antt =====
-- Every delivery is settled, once, and a client that is answered gets the answer to its own call.
use dsk_agent.Base.{
  ℕ, suc, ◌≡◌, refl, inl, inr, ◌||◌, Bool, true, false, Option, none, some, List, [], ◌∷◌, map, All,
  Bool-cases, Option-cases, if◌then◌else◌, arith, ap,
}
use dsk_agent.Base.Text.{Text, trim_space, is_empty}
use dsk_agent.Db.{World, Store}
use dsk_agent.Broker.Interfaces.{Dispatcher, Response}
use dsk_agent.Broker.Dispatch.{dispatch}
use dsk_agent.Broker.Consumer.{
  Delivery, new_rpc_response_publishing, Effect, publish, ack, nack, reject, answer,
  handle_delivery, Event, delivered, done, closed, consume,
}

abbrev pub is_settlement : Effect → Bool
is_settlement (publish q p taken) = false
is_settlement _ = true

-- How often a delivery is acknowledged, returned or rejected.
abbrev pub settlements : List Effect → ℕ
settlements [] = 0
settlements (e ∷ l) = let rest = settlements l in if is_settlement e then suc rest else rest

module _ {F : Type 0} (d : Dispatcher F) (encode : Response F → Option Text) where
  -- The calls that send a response with this body, and the answer to them.
  abbrev pub sent_to : Delivery → Text → Bool → Effect
  sent_to delivery body taken =
      publish delivery.reply_to (new_rpc_response_publishing body delivery.correlation_id) taken

  -- One of the three texts that an answer needs is blank.
  abbrev pub has_blank : Delivery → Response F → Bool
  has_blank delivery r =
      is_empty (trim_space delivery.reply_to)
      || is_empty (trim_space delivery.correlation_id)
      || is_empty (trim_space r.request_id)

  -- The ways in which a delivery ends, given the response that `Dispatch` makes: it is rejected for good where it
  -- cannot be answered, returned to the queue where the response could not be written or sent, and
  -- acknowledged only after the response was sent to the caller's queue with the caller's correlation id.
  -- Which of the four it is depends on the delivery, on the response and on the two answers alone.
  pub data IsHandled (delivery : Delivery) (r : Response F) (l : List Effect) : Type 0 where
    unanswerable : has_blank delivery r ≡ true → l ≡ reject false ∷ [] → IsHandled delivery r l
    unwritten :
        has_blank delivery r ≡ false → encode r ≡ none → l ≡ nack true ∷ [] → IsHandled delivery r l
    unsent :
        (body : Text)
        → has_blank delivery r ≡ false
        → encode r ≡ some body
        → l ≡ sent_to delivery body false ∷ nack true ∷ []
        → IsHandled delivery r l
    answered :
        (body : Text)
        → has_blank delivery r ≡ false
        → encode r ≡ some body
        → l ≡ sent_to delivery body true ∷ ack ∷ []
        → IsHandled delivery r l

  answer-IsHandled :
      (delivery : Delivery) (taken : Bool) (r : Response F)
      → (is_empty (trim_space delivery.reply_to) || is_empty (trim_space delivery.correlation_id))
        ≡ false
      → IsHandled delivery r (answer d encode delivery taken r)
  unfolding answer
  answer-IsHandled delivery taken r given = elim (Bool-cases (is_empty (trim_space r.request_id))) [
    | inl e ↦ unanswerable (ground (arith, e)) (rw e refl)
    | inr e ↦ elim (Option-cases (encode r)) [
      | inl h ↦ unwritten (ground (arith, given, e)) h (rw (e, h) refl)
      | inr (body, h) ↦ elim (Bool-cases taken) [
        | inl t ↦ answered body (ground (arith, given, e)) h (rw (e, h, t) refl)
        | inr t ↦ unsent body (ground (arith, given, e)) h (rw (e, h, t) refl)
      ]
    ]
  ]

  -- Whatever a delivery holds, and whatever the database and the message broker do: a delivery with a blank
  -- reply queue, correlation id or request id is rejected for good; one whose response cannot be written
  -- or is not taken by the message broker goes back to the queue; and any other is acknowledged after
  -- its response was sent to its reply queue with its correlation id.
  pub handle_delivery-IsHandled :
      (delivery : Delivery) (taken : Bool) (w : World F) (s : Store F)
      → IsHandled delivery
          (dispatch d delivery.routing_key delivery.body w s).0
          (handle_delivery d encode delivery taken w s).0
  unfolding handle_delivery
  handle_delivery-IsHandled delivery taken w s =
      elim (Bool-cases (
        is_empty (trim_space delivery.reply_to) || is_empty (trim_space delivery.correlation_id))) [
          | inl e ↦ unanswerable (ground (arith, e)) (rw e refl)
          | inr e ↦ rw e (
              answer-IsHandled delivery taken (dispatch d delivery.routing_key delivery.body w s).0
                e)
        ]

  handled-once :
      {delivery : Delivery} {r : Response F} {l : List Effect}
      → IsHandled delivery r l
      → settlements l ≡ 1
  handled-once (unanswerable h e) = rw e refl
  handled-once (unwritten b h e) = rw e refl
  handled-once (unsent body b h e) = rw e refl
  handled-once (answered body b h e) = rw e refl

  -- The deliveries that arrive before the context ends or the channel is closed.
  abbrev pub arrived : List Event → List Delivery
  arrived [] = []
  arrived (done ∷ events) = []
  arrived (closed ∷ events) = []
  arrived (delivered delivery taken ∷ events) = delivery ∷ arrived events

  -- The loop handles each delivery that arrives before its end, in their order and each of them once, and
  -- settles each exactly once.
  pub consume-arrived :
      (events : List Event) (w : World F) (s : Store F)
      → let handled = (consume d encode events w s).0 in
        (map (λ h. h.0) handled ≡ arrived events) × All (λ h. settlements h.1 ≡ 1) handled
  unfolding consume
  consume-arrived [] w s = (refl, tt)
  consume-arrived (done ∷ events) w s = (refl, tt)
  consume-arrived (closed ∷ events) w s = (refl, tt)
  consume-arrived (delivered delivery taken ∷ events) w s =
      let (same, once) = consume-arrived events w (handle_delivery d encode delivery taken w s).1 in
      (
        ap (λ l. delivery ∷ l) same,
        (handled-once (handle_delivery-IsHandled delivery taken w s), once),
      )
