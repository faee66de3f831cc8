-- ===== src/Tests/Agents.antt =====
-- The client of the agents, the life of an offer, users, construction and recommendations.
use dsk_agent.Base.{
  String, ℕ, ◌≤◌, ◌≡◌, refl, true, false, Bool, Option, none, some, List, [], ◌∷◌, ◌++◌,
}
use dsk_agent.Base.Text.{Text, codes}
use dsk_agent.Base.Int.{pos}
use dsk_agent.Domain.Error.{Result, ok, err}
use dsk_agent.Domain.Account.{UpdateUserRequest}
use dsk_agent.Domain.Estate.{ConstructionProgress, delayed}
use dsk_agent.AgentService.{
  Decoders, AgentDelivery, AgentRpcResponse, AgentRpcEnvelope, Event, message, timer_fired, Answer,
  receive, Call, publish_request, send_rpc,
}
use dsk_agent.AgentService.Wait.{receive-first, receive-ends, receive-own, answer_to}
use dsk_agent.AgentService.Queue.{send_rpc-deletes, deleted, opened}
use dsk_agent.OfferService.Table.{next, here, decided_on}
use dsk_agent.OfferService.Lifecycle.{Evolves, Writes-Evolves}
use dsk_agent.Repo.Offer.{decide_row}
use dsk_agent.Repo.Home
use dsk_agent.Repo.Construction.{scan_all, null_to_float}
use dsk_agent.Repo.Construction.Scan.{scan_all_lem}
use dsk_agent.ConstructionService.{create_progress, update_progress}
use dsk_agent.ConstructionService.Outcome.{progress_outcome}
use dsk_agent.UserService.{update_user}
use dsk_agent.UserService.Update.{update_user-standings, standings}
use dsk_agent.Tests.Data.{state, tables, house, quiet_world, quiet_world-IsQuiet}

-- The body of a response is its request's id, and its data is a text.
abbrev json : Decoders Text
json = record {
  response =
      λ body. some (record { request_id = body; success = true; raw = codes "5"; error = none });
  output_data = λ raw. some raw;
}

abbrev told : String → String → Event
told correlation_id body =
    message (record { correlation_id = codes correlation_id; body = codes body })

abbrev arriving : List Event
arriving = told "c0" "r0" ∷ told "c1" "r1" ∷ timer_fired ∷ []

receive-first_example :
    receive json (codes "r1") (codes "c1") arriving
    ≡ answer_to json (codes "r1") (codes "c1") (some (told "c1" "r1"))
receive-first_example = receive-first json (codes "r1") (codes "c1") arriving

receive-ends_example :
    (a : Answer Text) × (receive json
        (codes "r1")
        (codes "c1")
        ((told "c0" "r0" ∷ []) ++ timer_fired ∷ [])
      ≡ some a)
receive-ends_example =
    receive-ends json (codes "r1") (codes "c1") (told "c0" "r0" ∷ []) [] timer_fired refl

receive-own_example :
    (d : AgentDelivery) × (r : AgentRpcResponse) × (before : List Event) × (after : List Event)
    × (arriving ≡ before ++ message d ∷ after)
    × (d.correlation_id ≡ codes "c1")
    × (some (record { request_id = d.body; success = true; raw = codes "5"; error = none })
        ≡ some r)
    × (r.request_id ≡ codes "r1")
    × (r.success ≡ true)
    × (some r.raw ≡ some (codes "5"))
unfolding receive
receive-own_example = receive-own json (codes "r1") (codes "c1") arriving (codes "5") refl

abbrev marshal : AgentRpcEnvelope Text → Option Text
marshal e = some e.payload

abbrev no_publishing : Call → Bool
no_publishing publish_request = true
no_publishing _ = false

send_rpc-deletes_example :
    let calls =
      (send_rpc json marshal no_publishing
        (codes "r1")
        (codes "c1")
        arriving
        (record { connected = false; channel_open = false })
        (codes "chat")
        (codes "p")).0.0 in
    (deleted calls ≡ opened no_publishing calls) × (opened no_publishing calls ≤ 1)
unfolding send_rpc
send_rpc-deletes_example =
    send_rpc-deletes json marshal no_publishing (codes "r1") (codes "c1") arriving
      (record { connected = false; channel_open = false }) (codes "chat") (codes "p") refl

Writes-Evolves_example : Evolves tables.offers (decide_row 50 3 true [] 61 tables).1.offers
Writes-Evolves_example = Writes-Evolves {t = tables} (next here (decided_on 50 3 true [] 61))

abbrev stage : ConstructionProgress
stage = record {
  id = 4;
  building_id = 5;
  stage_name = codes "frame";
  planned_start_date = none;
  actual_start_date = none;
  planned_end_date = none;
  actual_end_date = none;
  status = delayed;
  completion_percentage = some (pos 10);
  delay_reason = [];
  risk_level = none;
  delay_days = none;
}

progress_outcome_example :
    ((create_progress stage quiet_world state).0 ≡ (Home.create_progress stage quiet_world state).0)
    × ((update_progress stage quiet_world state).0
        ≡ (Home.update_progress stage quiet_world state).0)
progress_outcome_example = progress_outcome stage quiet_world state

abbrev renamed : UpdateUserRequest
renamed = record { name = codes "M"; email = []; password = codes "p" }

abbrev hash : ℕ → Text → Result Text
hash n password = ok password

update_user-standings_example :
    standings (update_user hash 2 renamed quiet_world state).1.tables ≡ standings tables
update_user-standings_example =
    update_user-standings quiet_world quiet_world-IsQuiet hash 2 renamed state

scan_all_lem_example : scan_all {F = ℕ} 0 (house ∷ []) ≡ err null_to_float
scan_all_lem_example = scan_all_lem 0 (house ∷ [])
