-- ===== src/Repo/Cascade.antt =====
-- The foreign keys behind residential complexes, buildings, apartments and stages of construction
-- (backend/migrations): what PostgreSQL removes or clears when one of those is deleted. In a database where
-- every reference has its row, these are the rows whose parent has gone.
use dsk_agent.Base.{ℕ, Bool, true, Option, none, some, List, ◌==◌, any, select, map, if◌then◌else◌}
use dsk_agent.Domain.Offer.{Offer}
use dsk_agent.Domain.Chat.{ChatSession}
use dsk_agent.Db.{Tables}

module _ {A : Type 0} (id : A → ℕ) where
  -- The reference has its row.
  abbrev pub has : List A → ℕ → Bool
  has rows n = any (λ r. id r == n) rows

  -- ON DELETE CASCADE through a column that may be NULL.
  abbrev pub has_or_null : List A → Option ℕ → Bool
  has_or_null rows none = true
  has_or_null rows (some n) = has rows n

  -- ON DELETE SET NULL.
  abbrev pub or_null : List A → Option ℕ → Option ℕ
  or_null rows none = none
  or_null rows (some n) = if has rows n then some n else none

module _ {F : Type 0} where
  abbrev pub of_buildings : Tables F → Tables F
  of_buildings t =
      let buildings =
        select (λ b. has (λ c. c.id) t.residential_complexes b.residential_complex_id)
          t.buildings in
      let kept : ℕ → Bool = λ n. has (λ b. b.id) buildings n in
      record t {
        buildings = buildings;
        apartments = select (λ a. kept a.building_id) t.apartments;
        ancillary_units = select (λ u. kept u.building_id) t.ancillary_units;
        discount_policies = select (λ p. kept p.building_id) t.discount_policies;
        construction_progress = select (λ p. kept p.building_id) t.construction_progress;
        erp_events = select (λ e. kept e.building_id) t.erp_events;
        material_stocks = select (λ m. kept m.building_id) t.material_stocks;
        production_schedules = select (λ p. kept p.building_id) t.production_schedules;
      }

  abbrev pub of_apartments : Tables F → Tables F
  of_apartments t =
      let deals = select (λ d. has (λ a. a.id) t.apartments d.apartment_id) t.deals in
      let kept : ℕ → Bool = λ n. has (λ d. d.id) deals n in
      record t {
        deals = deals;
        chat_sessions =
            map
              (λ (cs : ChatSession). record cs {
                apartment_id = or_null (λ a. a.id) t.apartments cs.apartment_id;
              })
              t.chat_sessions;
        offers = select (λ o. kept o.deal_id) t.offers;
        notifications = select (λ n. has_or_null (λ d. d.id) deals n.deal_id) t.notifications;
        staff_reminders = select (λ r. has_or_null (λ d. d.id) deals r.deal_id) t.staff_reminders;
        recommendations = select (λ r. kept r.0.deal_id) t.recommendations;
      }

  abbrev pub of_offers : Tables F → Tables F
  of_offers t =
      let unit : Option ℕ → Option ℕ = or_null (λ u. u.id) t.ancillary_units in
      let kept : ℕ → Bool = λ n. has (λ o. o.id) t.offers n in
      record t {
        offers =
            map
              (λ (o : Offer). record o {
                parking_unit_id = unit o.parking_unit_id;
                storage_unit_id = unit o.storage_unit_id;
              })
              t.offers;
        offer_documents = select (λ d. kept d.0) t.offer_documents;
        offer_deliveries = select (λ d. kept d.offer_id) t.offer_deliveries;
        construction_notification_state =
            select (λ e. has (λ p. p.id) t.construction_progress e.0)
              t.construction_notification_state;
      }

  unfoldable pub cascade : Tables F → Tables F
  cascade t = of_offers (of_apartments (of_buildings t))
