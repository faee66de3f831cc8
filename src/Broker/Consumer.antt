-- ===== src/Broker/Consumer.antt =====
-- `BackendRPCConsumer`: what it does with each delivery, and its loop. The message broker is outside: a
-- call of it is an entry of the trace, and the answers to publishing and to the setting up are given.
use dsk_agent.Base.{◌||◌, Bool, true, false, Option, none, some, List, [], ◌∷◌, ◌++◌, if◌then◌else◌}
use dsk_agent.Base.Text.{Text, codes, trim_space, is_empty}
use dsk_agent.Db.{World, Store}
use dsk_agent.Broker.Keys.{RoutingKey, supported_backend_routing_keys}
use dsk_agent.Broker.Interfaces.{Dispatcher, Response}
use dsk_agent.Broker.Dispatch.{dispatch}

-- `amqp.Delivery`, as far as it is read.
pub record Delivery : Type 0 where
  pub routing_key : Text
  pub reply_to : Text
  pub correlation_id : Text
  pub body : Text

pub record Publishing : Type 0 where
  pub content_type : Text
  pub correlation_id : Text
  pub body : Text

-- `newRPCResponsePublishing`.
abbrev pub new_rpc_response_publishing : Text → Text → Publishing
new_rpc_response_publishing body correlation_id = record {
  content_type = codes "application/json";
  correlation_id = correlation_id;
  body = body;
}

-- A call on the channel for a delivery: a response to a queue, with whether it was taken, or one of the
-- three ways to settle the delivery.
pub data Effect : Type 0 where
  publish : Text → Publishing → Bool → Effect
  ack : Effect
  nack : Bool → Effect
  reject : Bool → Effect

-- What the loop of `Start` meets: a delivery, the end of the context, or the channel closed.
pub data Event : Type 0 where
  delivered : Delivery → Bool → Event
  done : Event
  closed : Event

abbrev pub settled : Bool → List Effect
settled true = ack ∷ []
settled false = nack true ∷ []

-- `encode` is json.Marshal. `taken` says whether the broker takes the response.
module _ {F : Type 0} (d : Dispatcher F) (encode : Response F → Option Text) where
  -- The part of `handleDelivery` after the call of `Dispatch`.
  unfoldable pub answer : Delivery → Bool → Response F → List Effect
  answer delivery taken response =
      if is_empty (trim_space response.request_id)
      then reject false ∷ []
      else elim (encode response) [
        | none ↦ nack true ∷ []
        | some body ↦
            publish delivery.reply_to (new_rpc_response_publishing body delivery.correlation_id)
              taken
            ∷ settled taken
      ]

  -- `handleDelivery`.
  unfoldable pub handle_delivery : Delivery → Bool → World F → Store F → List Effect × Store F
  unfolding answer
  handle_delivery delivery taken w s =
      if is_empty (trim_space delivery.reply_to) || is_empty (trim_space delivery.correlation_id)
      then (reject false ∷ [], s)
      else let (response, s') = dispatch d delivery.routing_key delivery.body w s in
        (answer delivery taken response, s')

  -- The loop of `Start`, over what it meets in turn: the deliveries handled, each with its calls.
  unfoldable pub consume : List Event → World F → Store F → List (Delivery × List Effect) × Store F
  consume [] w s = ([], s)
  consume (done ∷ events) w s = ([], s)
  consume (closed ∷ events) w s = ([], s)
  consume (delivered delivery taken ∷ events) w s =
      let (effects, s1) = handle_delivery delivery taken w s in
      let (rest, s2) = consume events w s1 in ((delivery, effects) ∷ rest, s2)

-- The calls of `Start` on the channel, in their order.
pub data Setup : Type 0 where
  open_channel declare_exchange declare_queue set_qos start_consuming close_channel : Setup
  bind_queue : RoutingKey → Setup

abbrev pub bindings : List RoutingKey → List Setup
bindings [] = []
bindings (k ∷ keys) = bind_queue k ∷ bindings keys

abbrev pub setup_calls : List Setup
setup_calls =
    declare_exchange
    ∷ declare_queue
    ∷ (bindings supported_backend_routing_keys ++ set_qos ∷ start_consuming ∷ [])

-- The calls after the opening, up to the first that fails, which closes the channel; `fails` says what the
-- broker answers. The Boolean is whether the consumer was started.
unfoldable pub set_up : (Setup → Bool) → List Setup → List Setup × Bool
set_up fails [] = ([], true)
set_up fails (c ∷ calls) =
    let (made, started) = set_up fails calls in
    if fails c then (c ∷ close_channel ∷ [], false) else (c ∷ made, started)

-- `Start`, up to the loop.
unfoldable pub start : (Setup → Bool) → List Setup × Bool
unfolding set_up
start fails =
    let (made, started) = set_up fails setup_calls in
    if fails open_channel then (open_channel ∷ [], false) else (open_channel ∷ made, started)
