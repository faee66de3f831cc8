-- ===== src/Broker/Setup.antt =====
-- The setting up of the consumer, and the keys that it binds.
use dsk_agent.Base.{
  ◌≡◌, ◌↔◌, ◌⊎◌, refl, sym, ◌∙◌, ap, Bool, true, false, some, List, [], ◌∷◌, ◌++◌, All, Bool-cases,
  Option-cases, inl, inr,
}
use dsk_agent.Base.Text.{Text, codes}
use dsk_agent.Broker.Keys
use dsk_agent.Broker.Keys.{
  RoutingKey, key_text, action_text, read_key, read_key-key_text, action_for_routing_key,
}
use dsk_agent.Broker.Consumer.{Setup, open_channel, close_channel, setup_calls, set_up, start}

-- A key is its action behind `backend.`.
key-action : (k : RoutingKey) → key_text k ≡ codes "backend." ++ action_text k
unfolding key_text
key-action Keys.deal_get = refl
key-action _ = refl

-- Every key is read.
pub read_key_written : (k : RoutingKey) → read_key (key_text k) ≡ some k
unfolding read_key key_text
read_key_written Keys.deal_get = refl
read_key_written _ = refl

-- A text is a routing key with the action `a` exactly where `a` is the action of one of the fourteen operations
-- and the text is `backend.` followed by `a`.
pub action_for_routing_key_lem :
    (text a : Text)
    → (action_for_routing_key text ≡ some a)
      ↔ ((k : RoutingKey) × (a ≡ action_text k) × (text ≡ codes "backend." ++ a))
unfolding action_for_routing_key
action_for_routing_key_lem text a = (
  λ h. elim (Option-cases (read_key text)) [
    | inl e ↦ absurd (cc (rw (e, action_for_routing_key) at h))
    | inr (k, e) ↦
        let same : some (action_text k) ≡ some a = (rw (e, action_for_routing_key) at h) in
        let eq : a ≡ action_text k = cc same in
        (
          k,
          eq,
          read_key-key_text text k e ∙ key-action k ∙ ap (λ b. codes "backend." ++ b) (sym eq),
        )
  ],
  λ found.
      let (k, eq, written) = found in
      let read : text ≡ key_text k =
        written ∙ ap (λ b. codes "backend." ++ b) eq ∙ sym (key-action k) in
      rw (read, action_for_routing_key, read_key_written k) (ap some (sym eq)),
)

-- How the calls of a list end: all are made, or the first that fails is followed by the closing of the channel.
set_up-cases :
    (fails : Setup → Bool) (calls : List Setup)
    → ((set_up fails calls ≡ (calls, true)) × All (λ c. fails c ≡ false) calls)
      ⊎ ((made : List Setup) × (c : Setup) × (rest : List Setup) × (calls ≡ made ++ c ∷ rest)
          × All (λ b. fails b ≡ false) made
          × (fails c ≡ true)
          × (set_up fails calls ≡ (made ++ c ∷ close_channel ∷ [], false)))
unfolding set_up
set_up-cases fails [] = inl (refl, tt)
set_up-cases fails (c ∷ calls) = elim (Bool-cases (fails c)) [
  | inl e ↦ inr ([], c, calls, refl, tt, e, rw e refl)
  | inr e ↦ elim (set_up-cases fails calls) [
    | inl (h, all) ↦ inl (rw (e, h) refl, (e, all))
    | inr (made, b, rest, split, good, bad, h) ↦
        inr (c ∷ made, b, rest, ap (λ l. c ∷ l) split, (e, good), bad, rw (e, h) refl)
  ]
]

-- The consumer is started exactly by opening the channel, declaring the exchange and the queue, binding all
-- fourteen keys, and starting to consume, where none of these fails. The first of them that fails is
-- the last, and is followed by the closing of the channel, unless it is the opening.
pub start-cases :
    (fails : Setup → Bool)
    → ((start fails ≡ (open_channel ∷ setup_calls, true))
        × All (λ c. fails c ≡ false) (open_channel ∷ setup_calls))
      ⊎ ((start fails ≡ (open_channel ∷ [], false)) × (fails open_channel ≡ true))
      ⊎ ((made : List Setup) × (c : Setup) × (rest : List Setup) × (setup_calls ≡ made ++ c ∷ rest)
          × All (λ b. fails b ≡ false) made
          × (fails c ≡ true)
          × (start fails ≡ (open_channel ∷ (made ++ c ∷ close_channel ∷ []), false)))
unfolding start
start-cases fails = elim (Bool-cases (fails open_channel)) [
  | inl e ↦ inr (inl (rw e refl, e))
  | inr e ↦ elim (set_up-cases fails setup_calls) [
    | inl (h, all) ↦ inl (rw (e, h) refl, (e, all))
    | inr (made, c, rest, split, good, bad, h) ↦
        inr (inr (made, c, rest, split, good, bad, rw (e, h) refl))
  ]
]
