-- ===== src/Repo/Deal.antt =====
-- backend/internal/repository/deal.go. The two writes run in transactions, in which the errors of the
-- updates of the apartment and of the chat session are dropped.
use dsk_agent.Base.{
  ℕ, ◌+◌, Bool, true, false, ◌&&◌, ◌||◌, Option, none, some, List, [], ◌∷◌, ◌++◌, map, ltb, ◌==◌,
  find, any, select, update_where, opt_eq,
}
use dsk_agent.Base.Text.{Text, text_eq}
use dsk_agent.Base.Sort.{sort}
use dsk_agent.Domain.Error.{apartment_not_found, deal_not_found}
use dsk_agent.Domain.Account.{User, is_user, is_supervisor}
use dsk_agent.Domain.Estate.{Apartment, ApartmentStatus, free, booked, sold}
use dsk_agent.Domain.Deal.{Deal, DealStatus, pending, contract, completed, cancelled}
use dsk_agent.Domain.Chat.{ChatSession, ChatSessionStatus}
use dsk_agent.Db.{
  Action, Columns, Tables, ◌>>=◌, ◌>>◌, pure, or_throw, ignore, query, exec, exec_tx, transaction,
}

abbrev pub user_name_of : List User → ℕ → Option Text
user_name_of users id = elim (find (λ u. u.id == id) users) [ none ↦ none | some u ↦ some u.name ]

abbrev pub same_deal_status : DealStatus → DealStatus → Bool
same_deal_status pending pending = true
same_deal_status contract contract = true
same_deal_status completed completed = true
same_deal_status cancelled cancelled = true
same_deal_status (DealStatus.other a) (DealStatus.other b) = text_eq a b
same_deal_status _ _ = false

-- `$n IS NULL OR column = $n`.
abbrev pub matches : Option ℕ → ℕ → Bool
matches none n = true
matches (some m) n = n == m

-- `UPDATE apartments SET status = … WHERE id = …`.
abbrev pub set_apartment : ℕ → ApartmentStatus → List Apartment → List Apartment
set_apartment id status = update_where (λ a. a.id == id) (λ a. record a { status = status })

-- `UPDATE chat_sessions SET status = …, updated_at = NOW() WHERE id = …`.
abbrev pub set_session : ℕ → ChatSessionStatus → ℕ → List ChatSession → List ChatSession
set_session id status now =
    update_where (λ c. c.id == id) (λ c. record c { status = status; updated_at = now })

-- What each status of a deal makes of its apartment and of its chat session.
abbrev pub apartment_status : DealStatus → Option ApartmentStatus
apartment_status pending = some booked
apartment_status contract = some booked
apartment_status completed = some sold
apartment_status cancelled = some free
apartment_status (DealStatus.other s) = none

abbrev pub session_status : DealStatus → Option ChatSessionStatus
session_status pending = some ChatSessionStatus.pending_approval
session_status contract = some ChatSessionStatus.contract
session_status completed = some ChatSessionStatus.close
session_status cancelled = some ChatSessionStatus.in_progress
session_status (DealStatus.other s) = none

module _ {F : Type 0} where
  -- A row of `deals` with the names of its client, its employee and its apartment.
  abbrev pub with_names : Tables F → Deal F → Deal F
  with_names t d = record d {
    user_name = user_name_of t.users d.user_id;
    employee_name = user_name_of t.users d.employee_id;
    apartment_number = elim (find (λ a. a.id == d.apartment_id) t.apartments) [
      | none ↦ none
      | some a ↦ some a.number
    ];
  }

  -- `CanCreateDealForUser`: the client exists and, unless the actor is a supervisor, has a chat
  -- session with the actor; a session that is named is the client's.
  unfoldable pub can_create : User → ℕ → Option ℕ → Tables F → Bool
  can_create actor user_id chat_session_id t =
      let boss = is_supervisor actor.role in
      let mine = λ (cs : ChatSession). boss || opt_eq cs.employee_id (some actor.id) in
      any (λ u. (u.id == user_id) && is_user u.role) t.users
      && elim chat_session_id [
        | none ↦ true
        | some id ↦
            any (λ cs. (cs.id == id) && opt_eq cs.user_id (some user_id) && mine cs) t.chat_sessions
      ]
      && (boss
          || any
              (λ cs.
                opt_eq cs.user_id (some user_id)
                && opt_eq cs.employee_id (some actor.id)
                && matches chat_session_id cs.id)
              t.chat_sessions)

  unfoldable pub can_create_deal_for_user : Option User → ℕ → Option ℕ → Action F Bool
  unfolding can_create
  can_create_deal_for_user none user_id chat_session_id = pure false
  can_create_deal_for_user (some actor) user_id chat_session_id =
      query (λ now t. can_create actor user_id chat_session_id t)

  -- `GetApartmentSaleData`.
  unfoldable pub get_apartment_sale_data : ℕ → Action F (F × ApartmentStatus)
  get_apartment_sale_data apartment_id = do
    found ← exec λ c now t. (
      elim (find (λ a. a.id == apartment_id) t.apartments) [
        | none ↦ none
        | some a ↦ some (c.price a.price, a.status)
      ],
      t,
    )
    or_throw found apartment_not_found

  -- The `INSERT` of `CreateDeal`: the row as it is read back.
  unfoldable pub new_deal : Columns F → ℕ → Tables F → Deal F → Deal F
  new_deal c now t d = record d {
    id = t.next_id;
    base_price = c.money d.base_price;
    percent_discount = c.percent d.percent_discount;
    total_price = c.money d.total_price;
    status = pending;
    created_at = now;
    updated_at = now;
    user_name = none;
    employee_name = none;
    apartment_number = none;
  }

  abbrev pub insert_deal : Deal F → Columns F → ℕ → Tables F → Deal F × Tables F
  insert_deal d c now t =
      let row = new_deal c now t d in
      (row, record t { next_id = t.next_id + 1; deals = t.deals ++ row ∷ [] })

  unfoldable pub update_apartment : ℕ → Option ApartmentStatus → Action F (Unit {0})
  update_apartment id none = pure tt
  update_apartment id (some status) = ignore (
      exec_tx {A = Unit {0}}
        (λ c now t. (tt, record t { apartments = set_apartment id status t.apartments })))

  unfoldable pub update_session : Option ℕ → Option ChatSessionStatus → Action F (Unit {0})
  update_session none status = pure tt
  update_session (some id) none = pure tt
  update_session (some id) (some status) = ignore (
      exec_tx {A = Unit {0}}
        (λ c now t. (tt, record t { chat_sessions = set_session id status now t.chat_sessions })))

  -- `CreateDeal`.
  unfoldable pub create_deal : Deal F → Action F (Deal F)
  unfolding update_apartment update_session new_deal
  create_deal d = transaction do
    row ← exec_tx (insert_deal d)
    update_apartment d.apartment_id (some booked)
    update_session d.chat_session_id (some ChatSessionStatus.pending_approval)
    pure row

  -- `GetDealByID`.
  unfoldable pub get_deal_by_id : ℕ → Action F (Deal F)
  get_deal_by_id id = do
    found ← query λ now t. elim (find (λ d. d.id == id) t.deals) [
      | none ↦ none
      | some d ↦ some (with_names t d)
    ]
    or_throw found deal_not_found

  -- `GetDeals`, `ORDER BY updated_at DESC`.
  unfoldable pub get_deals : Option ℕ → Option ℕ → Option DealStatus → Action F (List (Deal F))
  get_deals user_id employee_id status = query λ now t.
      let test = λ (d : Deal F).
        matches user_id d.user_id
        && matches employee_id d.employee_id
        && elim status [ none ↦ true | some s ↦ same_deal_status d.status s ] in
      map (with_names t) (sort (λ d e. ltb e.updated_at d.updated_at) (select test t.deals))

  -- `GetDealsByBuildingID`: the pending deals and contracts of a building, by their numbers.
  unfoldable pub building_deals : ℕ → Tables F → List (Deal F)
  building_deals building_id t =
      let test = λ (d : Deal F).
        any (λ a. (a.id == d.apartment_id) && (a.building_id == building_id)) t.apartments
        && (same_deal_status d.status pending || same_deal_status d.status contract) in
      sort (λ d e. ltb d.id e.id) (select test t.deals)

  unfoldable pub get_deals_by_building_id : ℕ → Action F (List (Deal F))
  unfolding building_deals
  get_deals_by_building_id building_id = query (λ now t. building_deals building_id t)

  abbrev pub with_status : Columns F → ℕ → DealStatus → Option F → Option F → Deal F → Deal F
  with_status c now status discount total d = record d {
    status = status;
    percent_discount = elim discount [ none ↦ d.percent_discount | some x ↦ c.percent x ];
    total_price = elim total [ none ↦ d.total_price | some x ↦ c.money x ];
    updated_at = now;
  }

  abbrev pub set_deal :
      ℕ → DealStatus → Option F → Option F → Columns F → ℕ → Tables F → Option (Deal F) × Tables F
  set_deal id status discount total c now t =
      let new = with_status c now status discount total in
      elim (find (λ d. d.id == id) t.deals) [
        | none ↦ (none, t)
        | some d ↦ (some (new d), record t { deals = update_where (λ e. e.id == id) new t.deals })
      ]

  -- `UpdateDealStatus`.
  unfoldable pub update_deal_status : ℕ → DealStatus → Option F → Option F → Action F (Deal F)
  unfolding update_apartment update_session
  update_deal_status id status discount total = transaction do
    found ← exec_tx (set_deal id status discount total)
    d ← or_throw found deal_not_found
    update_apartment d.apartment_id (apartment_status status)
    update_session d.chat_session_id (session_status status)
    pure d
