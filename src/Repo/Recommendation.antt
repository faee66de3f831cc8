-- ===== src/Repo/Recommendation.antt =====
-- backend/internal/repository/recommendation.go. A request id names one recommendation.
pub mod Again
use dsk_agent.Base.{ℕ, ◌+◌, Option, none, some, [], ◌∷◌, ◌++◌, find}
use dsk_agent.Base.Text.{Text, codes, text_eq}
use dsk_agent.Domain.Error.{Err, fault, driver}
use dsk_agent.Domain.Rpc.{Recommendation}
use dsk_agent.Db.{Action, Tables, ◌>>=◌, pure, or_throw, query, exec}

abbrev pub of_request : {F : Type 0} → Text → Tables F → Option (Recommendation × Text)
of_request request_id t = find (λ r. text_eq r.1 request_id) t.recommendations

abbrev pub the_recommendation : Option (Recommendation × Text) → Option Recommendation
the_recommendation none = none
the_recommendation (some (r, id)) = some r

-- `pgx.ErrNoRows`, which the code passes on where the earlier row is gone.
abbrev pub no_rows : Err
no_rows = fault (driver (codes "no rows in result set"))

module _ {F : Type 0} where
  -- `INSERT … ON CONFLICT (request_id) DO NOTHING RETURNING …`.
  unfoldable pub insert_recommendation :
      Text → Recommendation → Tables F → Option Recommendation × Tables F
  insert_recommendation request_id r t = elim (of_request request_id t) [
    | some old ↦ (none, t)
    | none ↦
        let row : Recommendation = record r { id = t.next_id } in
        (
          some row,
          record t {
            next_id = t.next_id + 1;
            recommendations = t.recommendations ++ (row, request_id) ∷ [];
          },
        )
  ]

  -- The row of an earlier call.
  abbrev pub get_by_request : Text → Action F Recommendation
  get_by_request request_id = do
    or_throw (← query (λ now t. the_recommendation (of_request request_id t))) no_rows

  abbrev pub inserted_or_old : Text → Option Recommendation → Action F Recommendation
  inserted_or_old request_id (some row) = pure row
  inserted_or_old request_id none = get_by_request request_id

  -- `Create`.
  unfoldable pub create : Text → Recommendation → Action F Recommendation
  unfolding insert_recommendation
  create request_id r = do
    row ← exec {A = Option Recommendation} (λ c now t. insert_recommendation request_id r t)
    inserted_or_old request_id row
