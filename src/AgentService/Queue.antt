-- ===== src/AgentService/Queue.antt =====
-- The callback queue of a call is deleted.
use dsk_agent.Base.{
  if◌then◌else◌, ◌≤◌, ℕ, ◌+◌, ◌≡◌, Option, List, [], ◌∷◌, ◌++◌, Bool, true, arith, is_some,
}
use dsk_agent.Base.Text.{Text}
use dsk_agent.AgentService.{
  Call, declare_queue, delete_queue, Event, Link, Decoders, AgentRpcEnvelope, ensure_connection,
  with_queue, on_channel, send_rpc,
}

abbrev pub opens : (Call → Bool) → Call → ℕ
opens fails declare_queue = if fails declare_queue then 0 else 1
opens fails _ = 0

abbrev pub closes : Call → ℕ
closes delete_queue = 1
closes _ = 0

-- The queues that were declared, and those that were deleted.
abbrev pub opened : (Call → Bool) → List Call → ℕ
opened fails [] = 0
opened fails (c ∷ l) = opens fails c + opened fails l

abbrev pub deleted : List Call → ℕ
deleted [] = 0
deleted (c ∷ l) = closes c + deleted l

opened-append :
    (fails : Call → Bool) (l m : List Call)
    → opened fails (l ++ m) ≡ opened fails l + opened fails m
opened-append fails [] m = omega arith
opened-append fails (c ∷ l) m = omega (arith, opened-append fails l m)

deleted-append : (l m : List Call) → deleted (l ++ m) ≡ deleted l + deleted m
deleted-append [] m = omega arith
deleted-append (c ∷ l) m = omega (arith, deleted-append l m)

ensure_connection-no_queue :
    (fails : Call → Bool) (link : Link)
    → (opened fails (ensure_connection fails link).0 ≡ 0)
      × (deleted (ensure_connection fails link).0 ≡ 0)
unfolding ensure_connection
ensure_connection-no_queue fails link = ground arith

module _ {A P : Type 0} (json : Decoders A) (marshal : AgentRpcEnvelope P → Option Text)
    (fails : Call → Bool) (request_id correlation_id : Text) (events : List Event) where
  with_queue-deletes :
      is_some (with_queue json marshal fails request_id correlation_id events).1 ≡ true
      → (opened fails (with_queue json marshal fails request_id correlation_id events).0 ≡ 0)
        × (deleted (with_queue json marshal fails request_id correlation_id events).0 ≡ 1)
  unfolding with_queue
  with_queue-deletes h = ground (arith, h)

  on_channel-deletes :
      (action : Text) (payload : P)
      → is_some (on_channel json marshal fails request_id correlation_id events action payload).1
        ≡ true
      → (deleted (on_channel json marshal fails request_id correlation_id events action payload).0
          ≡ opened fails
              (on_channel json marshal fails request_id correlation_id events action payload).0)
        × (opened fails
              (on_channel json marshal fails request_id correlation_id events action payload).0
            ≤ 1)
  unfolding on_channel
  on_channel-deletes action payload h = ground (arith, h, with_queue-deletes)

  -- Every call of an agent that has ended, with an output or with any error, has deleted each callback queue that it
  -- declared, and it declared at most one.
  pub send_rpc-deletes :
      (link : Link) (action : Text) (payload : P)
      → is_some
          (send_rpc json marshal fails request_id correlation_id events link action payload).0.1
        ≡ true
      → let calls =
          (send_rpc json marshal fails request_id correlation_id events link action payload).0.0 in
        (deleted calls ≡ opened fails calls) × (opened fails calls ≤ 1)
  unfolding send_rpc
  send_rpc-deletes link action payload h =
      let before = (ensure_connection fails link).0 in
      let more =
        (on_channel json marshal fails request_id correlation_id events action payload).0 in
      ground (
        arith,
        h,
        ensure_connection-no_queue fails link,
        on_channel-deletes action payload,
        opened-append fails before more,
        deleted-append before more,
      )
