-- ===== src/AgentService.antt =====
-- backend/internal/service/ai_agent.go: the client of the agents. The message broker is outside: what it
-- answers to a call, and what arrives while the client waits, are given. `A` is the type of the output.
pub mod Wait
pub mod Queue
use dsk_agent.Base.{
  ℕ, ◌&&◌, ◌||◌, not, Bool, true, false, Option, none, some, List, [], ◌∷◌, ◌++◌, if◌then◌else◌,
}
use dsk_agent.Base.Text.{Text, codes, text_eq, is_empty}
use dsk_agent.Domain.Error.{Fault}

pub data AgentError : Type 0 where
  rabbitmq_unavailable open_channel_failed declare_exchange_failed marshal_failed : AgentError
  declare_queue_failed register_consumer_failed publish_failed : AgentError
  context_ended : Fault → AgentError
  response_timeout callback_queue_closed : AgentError
  unreadable_response request_id_mismatch rpc_failed empty_data unreadable_data : AgentError
  -- `AgentRPCError`.
  agent_error : Text → Text → AgentError

pub data Answer (A : Type 0) : Type 0 where
  output : A → Answer A
  failure : AgentError → Answer A

-- `agentRPCEnvelope`, its payload being what the caller sends.
pub record AgentRpcEnvelope (P : Type 0) : Type 0 where
  pub request_id : Text
  pub action : Text
  pub payload : P

-- `agentRPCResponse`: `raw` is the JSON text of its `data`, empty where it has none.
pub record AgentRpcResponse : Type 0 where
  pub request_id : Text
  pub success : Bool
  pub raw : Text
  pub error : Option (Text × Text)

pub record AgentDelivery : Type 0 where
  pub correlation_id : Text
  pub body : Text

-- What arrives while the client waits: a message of its queue, the closing of the queue, the end of
-- the context, or the timer's 75 seconds.
pub data Event : Type 0 where
  message : AgentDelivery → Event
  queue_closed timer_fired : Event
  context_done : Fault → Event

-- encoding/json for the response and for the output.
pub record Decoders (A : Type 0) : Type 0 where
  pub response : Text → Option AgentRpcResponse
  pub output_data : Text → Option A

module _ {A : Type 0} (json : Decoders A) (request_id : Text) where
  -- A response of the agent that is no success.
  abbrev pub refused : Option (Text × Text) → Answer A
  refused none = failure rpc_failed
  refused (some (code, text)) = failure (agent_error code text)

  -- The checks of a response, once it is decoded.
  unfoldable pub check_response : AgentRpcResponse → Answer A
  check_response r =
      if not (text_eq r.request_id request_id)
      then failure request_id_mismatch
      else if not r.success
      then refused r.error
      else if is_empty r.raw || text_eq r.raw (codes "null")
      then failure empty_data
      else elim (json.output_data r.raw) [ none ↦ failure unreadable_data | some a ↦ output a ]

  unfoldable pub check_body : Text → Answer A
  unfolding check_response
  check_body body = elim (json.response body) [
    | none ↦ failure unreadable_response
    | some r ↦ check_response r
  ]

  module _ (correlation_id : Text) where
    -- The loop of `sendRPC`, over what arrives in turn; `none` where it still waits.
    unfoldable pub receive : List Event → Option (Answer A)
    unfolding check_body
    receive [] = none
    receive (context_done e ∷ events) = some (failure (context_ended e))
    receive (timer_fired ∷ events) = some (failure response_timeout)
    receive (queue_closed ∷ events) = some (failure callback_queue_closed)
    receive (message d ∷ events) =
        let rest = receive events in
        if not (text_eq d.correlation_id correlation_id) then rest else some (check_body d.body)

-- The calls of `sendRPC` and `ensureConnection` on the broker.
pub data Call : Type 0 where
  dial open_channel declare_exchange close_channel close_connection : Call
  declare_queue delete_queue register_consumer publish_request : Call

-- The connection that the service keeps: whether it and its channel are there and open.
pub record Link : Type 0 where
  pub connected : Bool
  pub channel_open : Bool

-- `ensureConnection`: the calls made, the link kept, and the error.
unfoldable pub ensure_connection : (Call → Bool) → Link → List Call × Link × Option AgentError
ensure_connection fails link =
    if link.connected && link.channel_open
    then ([], link, none)
    else if fails dial
    then (dial ∷ [], link, some rabbitmq_unavailable)
    else if fails open_channel
    then (dial ∷ open_channel ∷ close_connection ∷ [], link, some open_channel_failed)
    else if fails declare_exchange
    then (
      dial ∷ open_channel ∷ declare_exchange ∷ close_channel ∷ close_connection ∷ [],
      link,
      some declare_exchange_failed,
    )
    else (
      dial ∷ open_channel ∷ declare_exchange ∷ [],
      record { connected = true; channel_open = true },
      none,
    )

module _ {A P : Type 0} (json : Decoders A) (marshal : AgentRpcEnvelope P → Option Text)
    (fails : Call → Bool) (request_id correlation_id : Text) (events : List Event) where
  -- The part of `sendRPC` after the declaration of the callback queue, which is deleted at its end.
  unfoldable pub with_queue : List Call × Option (Answer A)
  unfolding receive
  with_queue =
      if fails register_consumer
      then (register_consumer ∷ delete_queue ∷ [], some (failure register_consumer_failed))
      else if fails publish_request
      then (register_consumer ∷ publish_request ∷ delete_queue ∷ [], some (failure publish_failed))
      else elim (receive json request_id correlation_id events) [
        | none ↦ (register_consumer ∷ publish_request ∷ [], none)
        | some answer ↦ (register_consumer ∷ publish_request ∷ delete_queue ∷ [], some answer)
      ]

  -- The part of `sendRPC` on an open channel.
  unfoldable pub on_channel : Text → P → List Call × Option (Answer A)
  unfolding with_queue
  on_channel action payload =
      elim (marshal (record { request_id = request_id; action = action; payload = payload })) [
        | none ↦ ([], some (failure marshal_failed))
        | some body ↦
            if fails declare_queue
            then (declare_queue ∷ [], some (failure declare_queue_failed))
            else (declare_queue ∷ with_queue.0, with_queue.1)
      ]

  -- `sendRPC`: the calls made, the link kept, and the answer, `none` while it waits.
  unfoldable pub send_rpc : Link → Text → P → (List Call × Option (Answer A)) × Link
  unfolding ensure_connection on_channel
  send_rpc link action payload =
      let (calls, kept, error) = ensure_connection fails link in
      elim error [
        | some e ↦ ((calls, some (failure e)), kept)
        | none ↦ let (more, answer) = on_channel action payload in ((calls ++ more, answer), kept)
      ]
