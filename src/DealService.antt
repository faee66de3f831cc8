-- ===== src/DealService.antt =====
-- backend/internal/service/deal.go: deals, their discounts and statuses, and the messages about them.
pub mod Rules
pub mod Sale
pub mod Access
use dsk_agent.Base.{
  ℕ, Bool, false, not, ◌&&◌, ◌||◌, Option, none, some, List, ◌++◌, ◌==◌, if◌then◌else◌,
}
use dsk_agent.Base.Text.{Text, codes, trim_space, is_empty}
use dsk_agent.Base.Strconv.{decimal}
use dsk_agent.Base.Floats.{Floats}
use dsk_agent.Domain.Error.{
  Result, ok, err, invalid_deal_data, deal_forbidden, apartment_unavailable,
  discount_approval_required, invalid_number,
}
use dsk_agent.Domain.Account.{User, Role, user, manager, supervisor, is_supervisor, is_manager}
use dsk_agent.Domain.Estate.{ApartmentStatus, is_free}
use dsk_agent.Domain.Deal.{
  Deal, DealStatus, pending, contract, completed, cancelled, is_contract, is_cancelled, is_known,
  CreateDealRequest, UpdateDealStatusRequest,
}
use dsk_agent.Domain.Chat.{Message, system}
use dsk_agent.Domain.Notice.{Notification, deal_update}
use dsk_agent.Db.{
  Action, Mail, ◌>>=◌, ◌>>◌, pure, throw, lift, attempt, refuse_if, send_mail, ignore,
}
use dsk_agent.Repo.Account.{get_user_by_id}
use dsk_agent.Repo.Policy.{get_active_max}
use dsk_agent.Repo.Chat.{create_message}
use dsk_agent.Repo.Notice.{create_notification}
use dsk_agent.Repo.Deal as Store
use dsk_agent.OfferService.Rules.{is_policy_not_found}
use dsk_agent.DealService.Rules.{
  number, created_notice, system_message, status_text, authorize_update, some_actor,
}

-- The fields of `dealService`: its limits, and which of its optional parts are set.
pub record Settings (F : Type 0) : Type 0 where
  pub manager_max : F
  pub supervisor_max : F
  pub has_reader : Bool
  pub has_notifications : Bool
  pub has_mail : Bool
  pub has_chat : Bool

module _ {F : Type 0} (fl : Floats F) where
  -- `roundPrice`.
  unfoldable pub round_price : F → F
  round_price x = fl.div (fl.round (fl.mul x fl.hundred)) fl.hundred

  -- The price after a discount.
  unfoldable pub discounted : F → F → F
  unfolding round_price
  discounted price percent = round_price (fl.mul price (fl.sub fl.one (fl.div percent fl.hundred)))

  abbrev own_max : Settings F → Role → F
  own_max settings supervisor = settings.supervisor_max
  own_max settings _ = settings.manager_max

  abbrev parsed : Option F → Result F
  parsed none = err invalid_number
  parsed (some x) = ok x

  abbrev max_from : Settings F → Role → Result Text → Result F
  max_from settings role (ok text) = parsed (fl.parse text)
  max_from settings role (err e) =
      if is_policy_not_found e then ok (own_max settings role) else err e

  -- `maxDiscount`.
  unfoldable pub max_discount : Settings F → ℕ → Role → Action F F
  max_discount settings apartment_id role =
      if settings.has_reader
      then (do
        value ← attempt (get_active_max apartment_id role)
        lift (max_from settings role value))
      else pure (own_max settings role)

  -- The test of a discount against its bounds; `bad` is what else is wrong with the request.
  unfoldable pub check_discount : Bool → F → F → Result (Unit {0})
  check_discount bad discount limit =
      if bad || fl.lt discount fl.zero || fl.lt limit discount
      then (if fl.lt limit discount then err discount_approval_required else err invalid_deal_data)
      else ok tt

  abbrev welcome : User → Deal F → Mail
  welcome account deal = record {
    recipient = account.email;
    subject = codes "Оформление сделки " ++ number deal.id ++ codes " — АО СЗ «ДСК»";
    body =
        codes "Здравствуйте, "
        ++ account.name
        ++ codes "!\n\nМенеджер оформил сделку "
        ++ number deal.id
        ++ codes ". Статус: «На согласовании». Квартира успешно забронирована.\nИтоговая сумма: "
        ++ fl.two_places deal.total_price
        ++ codes
            " руб.\n\nВы можете ознакомиться с условиями и согласовать сделку в вашем личном кабинете.\n\nС уважением,\nОтдел продаж АО СЗ «ДСК»";
    attachment = none;
  }

  abbrev mail_client : Deal F → Result User → Action F (Unit {0})
  mail_client deal (err e) = pure tt
  mail_client deal (ok account) =
      if is_empty (trim_space account.email)
      then pure tt
      else (do send_mail (welcome account deal); pure tt)

  -- The notification, the mail and the system's message of a new deal; their errors are dropped.
  unfoldable pub announce_notice : Settings F → Deal F → Action F (Unit {0})
  unfolding created_notice
  announce_notice settings deal =
      if settings.has_notifications
      then ignore (create_notification (created_notice deal.user_id deal.id))
      else pure tt

  unfoldable pub announce_mail : Settings F → Deal F → Action F (Unit {0})
  announce_mail settings deal =
      if settings.has_mail
      then (do client ← attempt (get_user_by_id deal.user_id); mail_client deal client)
      else pure tt

  abbrev deal_text : Deal F → Text
  deal_text deal =
      codes "Сформирована сделка "
      ++ number deal.id
      ++ codes " на сумму "
      ++ fl.two_places deal.total_price
      ++ codes " руб. Статус заявки и сделки переведен в «На согласовании». Квартира забронирована."

  abbrev pub post : Bool → Option ℕ → Option Text → Action F (Unit {0})
  post has_chat none text = pure tt
  post has_chat (some id) none = pure tt
  post has_chat (some id) (some text) =
      if has_chat then ignore (create_message (system_message id text)) else pure tt

  -- The deal that `CreateDeal` asks the store for; the store sets the other columns.
  unfoldable pub requested_deal : CreateDealRequest F → User → F → Deal F
  unfolding discounted
  requested_deal req actor base_price = record {
    id = 0;
    user_id = req.user_id;
    employee_id = actor.id;
    apartment_id = req.apartment_id;
    chat_session_id = req.chat_session_id;
    base_price = base_price;
    percent_discount = req.percent_discount;
    total_price = discounted base_price req.percent_discount;
    status = pending;
    created_at = 0;
    updated_at = 0;
    user_name = none;
    employee_name = none;
    apartment_number = none;
  }

  -- The announcements of a new deal.
  unfoldable pub announce : Settings F → Deal F → Action F (Deal F)
  unfolding announce_notice announce_mail
  announce settings deal = do
    announce_notice settings deal
    announce_mail settings deal
    post settings.has_chat deal.chat_session_id (some (deal_text deal))
    pure deal

  -- `CreateDeal` from the reading of the apartment on.
  unfoldable pub sell :
      Settings F → CreateDealRequest F → User → F × ApartmentStatus → Action F (Deal F)
  unfolding requested_deal announce
  sell settings req actor (base_price, status) = do
    refuse_if (fl.leq base_price fl.zero || not (is_free status)) apartment_unavailable
    deal ← Store.create_deal (requested_deal req actor base_price)
    announce settings deal

  -- `CreateDeal` after the limit is known.
  unfoldable pub create_within : Settings F → CreateDealRequest F → User → F → Action F (Deal F)
  unfolding check_discount sell
  create_within settings req actor limit = do
    lift (check_discount ((req.user_id == 0) || (req.apartment_id == 0)) req.percent_discount limit)
    allowed ← Store.can_create_deal_for_user (some actor) req.user_id req.chat_session_id
    refuse_if (not allowed) deal_forbidden
    apartment ← Store.get_apartment_sale_data req.apartment_id
    sell settings req actor apartment

  -- `CreateDeal`.
  unfoldable pub create_deal : Settings F → CreateDealRequest F → Option User → Action F (Deal F)
  unfolding create_within
  create_deal settings req none = throw deal_forbidden
  create_deal settings req (some actor) = do
    refuse_if (not (is_manager actor.role) && not (is_supervisor actor.role)) deal_forbidden
    limit ← max_discount settings req.apartment_id actor.role
    create_within settings req actor limit

  -- The new discount and total of `UpdateDealStatus`, where the request names a discount.
  unfoldable pub new_terms : Settings F → Deal F → Role → Option F → Action F (Option F × Option F)
  unfolding check_discount discounted
  new_terms settings existing role none = pure (none, none)
  new_terms settings existing role (some d) = do
    limit ← max_discount settings existing.apartment_id role
    lift (check_discount false d limit)
    pure (some d, some (discounted existing.base_price d))

  -- `UpdateDealStatus` after its access check.
  unfoldable pub apply_update :
      Settings F → ℕ → UpdateDealStatusRequest F → Deal F → User → Action F (Deal F)
  unfolding new_terms status_text
  apply_update settings id req existing actor = do
    refuse_if (not (is_known req.status)) invalid_deal_data
    (discount, total) ← new_terms settings existing actor.role req.percent_discount
    updated ← Store.update_deal_status id req.status discount total
    post settings.has_chat updated.chat_session_id (status_text req.status updated.id)
    pure updated

  -- `UpdateDealStatus`.
  unfoldable pub update_deal_status :
      Settings F → ℕ → UpdateDealStatusRequest F → Option User → Action F (Deal F)
  unfolding authorize_update apply_update
  update_deal_status settings id req who = do
    existing ← Store.get_deal_by_id id
    actor ← lift (some_actor who)
    lift (authorize_update actor existing req.status)
    apply_update settings id req existing actor

-- `GetDealByID`, `GetDeals` and `GetDealsByBuildingID`.
module _ {F : Type 0} where
  unfoldable pub get_deal_by_id : ℕ → Action F (Deal F)
  get_deal_by_id id = Store.get_deal_by_id id

  unfoldable pub get_deals : Option ℕ → Option ℕ → Option DealStatus → Action F (List (Deal F))
  get_deals user_id employee_id status = Store.get_deals user_id employee_id status

  unfoldable pub get_deals_by_building_id : ℕ → Action F (List (Deal F))
  get_deals_by_building_id building_id = Store.get_deals_by_building_id building_id
