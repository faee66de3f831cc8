-- ===== src/Server/Statuses.antt =====
-- Every status that a handler computes goes with what it writes (backend/internal/handler).
use dsk_agent.Base.{ℕ, ◌≤◌, ◌<◌, Option, some, arith}
use dsk_agent.Domain.Error.{Err}
use dsk_agent.Domain.Account.{User}
use dsk_agent.Http.Answered.{IsResponse}
use dsk_agent.ChatHandler as Chat
use dsk_agent.DealHandler as Deals
use dsk_agent.NoticeHandler as Notices
use dsk_agent.CatalogueHandler as Catalogue
use dsk_agent.AncillaryHandler as Units
use dsk_agent.Domain.Construction.{Competitor}
use dsk_agent.OfferHandler.{offer_status}

pub create_status_bounds : (e : Err) → (400 ≤ Deals.create_status e) × (Deals.create_status e < 600)
unfolding Deals.create_status
create_status_bounds e = ground arith

pub update_status_bounds : (e : Err) → (400 ≤ Deals.update_status e) × (Deals.update_status e < 600)
unfolding Deals.update_status
update_status_bounds e = ground arith

pub offer_status_bounds : (e : Err) → (400 ≤ offer_status e) × (offer_status e < 600)
unfolding offer_status
offer_status_bounds e = ground arith

pub session_filter_fine :
    (v : User) (e : Option (Option ℕ)) → IsResponse (Chat.employee_filter (some v) e)
session_filter_fine v e = ground arith

pub deal_filter_fine : (v : User) → IsResponse (Deals.employee_filter v)
unfolding Deals.employee_filter
deal_filter_fine v = ground arith

pub mark_status_bounds : (e : Err) → (400 ≤ Notices.mark_status e) × (Notices.mark_status e < 600)
unfolding Notices.mark_status
mark_status_bounds e = ground arith

pub complete_status_bounds :
    (e : Err) → (400 ≤ Notices.complete_status e) × (Notices.complete_status e < 600)
unfolding Notices.complete_status
complete_status_bounds e = ground arith

pub competitor_status_bounds :
    (e : Err) → (400 ≤ Catalogue.competitor_status e) × (Catalogue.competitor_status e < 600)
unfolding Catalogue.competitor_status
competitor_status_bounds e = ground arith

pub unit_status_bounds : (e : Err) → (400 ≤ Units.unit_status e) × (Units.unit_status e < 600)
unfolding Units.unit_status
unit_status_bounds e = ground arith

pub decoded_fine :
    {F : Type 0} (body : Option (Competitor F)) → IsResponse (Catalogue.decode_competitor body)
unfolding Catalogue.decode_competitor
decoded_fine body = ground arith

pub ruleset status_bounds = (
  create_status_bounds, update_status_bounds, offer_status_bounds, session_filter_fine,
  deal_filter_fine, mark_status_bounds, complete_status_bounds, competitor_status_bounds,
  unit_status_bounds, decoded_fine,
)
