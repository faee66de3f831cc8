-- ===== src/NotificationService/Once.antt =====
-- A state of the construction is announced once (`ClaimConstructionState` in
-- backend/internal/repository/notification.go, `NotifyConstructionUpdate` in
-- backend/internal/service/notification.go).
use dsk_agent.Base.{
  ℕ, ◌+◌, ◌∙◌, not, ◌&&◌, ◌||◌, if◌then◌else◌, Bool, Bool-cases, ==_refl, ◌≡◌, refl, List, some,
  true, false, find, Option-cases, inl, inr, ◌==◌,
}
use dsk_agent.Base.Text.{Text, text_eq, text_eq_refl}
use dsk_agent.Base.Rows.{find-append, find_updated, find_test}
use dsk_agent.Domain.Error.{ok}
use dsk_agent.Domain.Estate.{ConstructionProgress}
use dsk_agent.Db.{World, Store, Columns, Tables, Action, exec, pure, ◌>>=◌}
use dsk_agent.Db.Laws.{IsQuiet, exec-quiet, bind-run}
use dsk_agent.Repo.Deal.{get_deals_by_building_id}
use dsk_agent.Repo.Notice.{claim, claim_construction_state}
use dsk_agent.NotificationService.{
  fingerprint, notify_construction_update, is_delay, has_risk, notify_deals,
}

-- After a claim the state of the stage is the claimed one.
claimed :
    (id : ℕ) (fingerprint : Text) (rows : List (ℕ × Text))
    → (e : ℕ × Text) × (find (λ e. e.0 == id) (claim id fingerprint rows).1 ≡ some e)
      × (text_eq e.1 fingerprint ≡ true)
unfolding claim
claimed id fingerprint rows =
    let test : ℕ × Text → Bool = λ e. e.0 == id in
    elim (Option-cases (find test rows)) [
      | inl fresh ↦
          rw (fresh, claim)
            (
              (id, fingerprint),
              find-append test rows (id, fingerprint) fresh (==_refl id),
              text_eq_refl fingerprint,
            )
      | inr (e, found) ↦ elim (Bool-cases (text_eq e.1 fingerprint)) [
        | inl same ↦ rw (found, claim) (rw same (e, found, same))
        | inr new ↦
            rw (found, claim)
              (rw new (
                (id, fingerprint),
                find_updated test test (λ e. (id, fingerprint)) (λ y d. rw (d, ==_refl id)) rows
                    found (find_test test rows found),
                text_eq_refl fingerprint,
              ))
      ]
    ]

-- A second claim of the same state is refused and changes nothing, whether or not the first was granted.
pub claim_twice :
    (id : ℕ) (fingerprint : Text) (rows : List (ℕ × Text))
    → claim id fingerprint (claim id fingerprint rows).1 ≡ (false, (claim id fingerprint rows).1)
unfolding claim
claim_twice id fingerprint rows =
    let (e, found, same) = claimed id fingerprint rows in rw (found, claim) (rw same refl)

-- In a quiet world an update whose state is already the stored one sends no notification and no mail and
-- changes no table.
pub notify_repeated :
    {F : Type 0} (w : World F) (s : Store F) (p : ConstructionProgress) (e : ℕ × Text)
    → IsQuiet w
    → find (λ e. e.0 == p.id) s.tables.construction_notification_state ≡ some e
    → text_eq e.1 (fingerprint p) ≡ true
    → notify_construction_update (some p) w s ≡ (ok tt, record s { tick = s.tick + 1 })
unfolding notify_construction_update claim_construction_state claim
notify_repeated {F = F} w s p e quiet found same =
    let step : Columns F → ℕ → Tables F → Bool × Tables F = λ c now t.
      let (claimed, rows) = claim p.id (fingerprint p) t.construction_notification_state in
      (claimed, record t { construction_notification_state = rows }) in
    let rest : Bool → Action F (Unit {0}) = λ changed.
      if not changed || (not (is_delay p) && not (has_risk p))
      then pure tt
      else (get_deals_by_building_id p.building_id >>= notify_deals p) in
    bind-run (exec step) rest w s (exec-quiet w quiet step s) ∙ rw (found, claim) (rw same refl)
