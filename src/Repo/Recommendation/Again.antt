-- ===== src/Repo/Recommendation/Again.antt =====
-- One recommendation for one request.
use dsk_agent.Base.{ℕ, ◌+◌, ◌≡◌, refl, ◌∙◌, Option, none, some}
use dsk_agent.Base.Text.{Text}
use dsk_agent.Domain.Error.{ok}
use dsk_agent.Domain.Rpc.{Recommendation}
use dsk_agent.Db.{World, Store, Columns, Tables, exec, or_throw}
use dsk_agent.Db.Laws.{IsQuiet, exec-quiet, bind-run}
use dsk_agent.Repo.Recommendation.{
  create, insert_recommendation, inserted_or_old, of_request, the_recommendation, no_rows,
}

-- In a quiet world a call whose request id already has a recommendation is answered with that one, whatever the
-- new call recommends, and changes no table.
pub recommended_again :
    {F : Type 0} (w : World F) (quiet : IsQuiet w) (s : Store F) (request_id : Text)
    (r old : Recommendation) (id : Text)
    → of_request request_id s.tables ≡ some (old, id)
    → create request_id r w s ≡ (ok old, record s { tick = s.tick + 1 + 1 })
unfolding create insert_recommendation
recommended_again {F = F} w quiet s request_id r old id found =
    let step : Columns F → ℕ → Tables F → Option Recommendation × Tables F =
      λ c now t. insert_recommendation request_id r t in
    let read : Columns F → ℕ → Tables F → Option Recommendation × Tables F =
      λ c now t. (the_recommendation (of_request request_id t), t) in
    let after : Store F = record s { tick = s.tick + 1 } in
    let ran : exec step w s ≡ (ok none, after) =
      exec-quiet w quiet step s ∙ rw (found, insert_recommendation) refl in
    bind-run (exec step) (inserted_or_old request_id) w s ran
    ∙ bind-run (exec read) (λ x. or_throw x no_rows) w after (exec-quiet w quiet read after)
    ∙ rw found refl
