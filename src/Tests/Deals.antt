-- ===== src/Tests/Deals.antt =====
-- Deals: who may make and change them, and what is committed together.
use dsk_agent.Base.{
  ℕ, ◌+◌, ◌≤◌, ◌≡◌, ◌≢◌, ◌==◌, ◌↔◌, ◌⊎◌, refl, find, [], ◌∷◌, ◌++◌, arith, some, none, true, false,
  Bool, Option, List,
}
use dsk_agent.Domain.Error.{ok}
use dsk_agent.Domain.Account.{User, user, manager, supervisor}
use dsk_agent.Domain.Estate.{booked}
use dsk_agent.Domain.Deal.{Deal, CreateDealRequest, UpdateDealStatusRequest, cancelled}
use dsk_agent.Domain.Chat.{ChatSessionStatus}
use dsk_agent.Db.{Store, Tables, transaction, exec_tx, exec, run_statement, commit, ◌>>=◌, or_throw}
use dsk_agent.Repo.Deal.{
  new_deal, set_apartment, set_session, apartment_status, session_status, create_deal,
  update_deal_status, set_deal,
}
use dsk_agent.DealService as Service
use dsk_agent.DealService.{Settings, check_discount, max_discount}
use dsk_agent.DealService.Access.{IsUpdaterOf, update-authorized, create-authorized}
use dsk_agent.DealService.Sale.{create_deal_together}
use dsk_agent.Tests.Data.{person, old_deal, tables, state, columns, quiet_world, floats}

create_deal_together_example :
    let row = new_deal columns 60 tables old_deal in
    (row ≡ new_deal columns 60 tables old_deal)
    × (tables.deals ++ row ∷ [] ≡ tables.deals ++ row ∷ [])
    × (set_apartment 10 booked tables.apartments ≡ set_apartment 10 booked tables.apartments)
    × (set_session 40 ChatSessionStatus.pending_approval 60 tables.chat_sessions
        ≡ set_session 40 ChatSessionStatus.pending_approval 60 tables.chat_sessions)
unfolding create_deal transaction commit exec_tx
create_deal_together_example = create_deal_together quiet_world state old_deal _ _ refl

abbrev pub settings : Settings ℕ
settings = record {
  manager_max = 5;
  supervisor_max = 15;
  has_reader = true;
  has_notifications = true;
  has_mail = true;
  has_chat = true;
}

abbrev cancel_it : UpdateDealStatusRequest ℕ
cancel_it = record { status = cancelled; percent_discount = none }

abbrev buy : CreateDealRequest ℕ
buy = record { user_id = 1; apartment_id = 10; chat_session_id = some 40; percent_discount = 3 }

update-authorized_example :
    (actor : User) × (raw : Deal ℕ) × (some (person 1 user) ≡ some actor)
    × (find (λ d. d.id == 30) tables.deals ≡ some raw)
    × IsUpdaterOf actor raw cancelled
unfolding Service.update_deal_status dsk_agent.Repo.Deal.get_deal_by_id exec update_deal_status
    transaction commit exec_tx
update-authorized_example =
    update-authorized floats settings quiet_world state 30 cancel_it (some (person 1 user)) _ _ refl

create-authorized_example :
    (actor : User) × (limit : ℕ) × (s1 : Store ℕ) × (some (person 3 supervisor) ≡ some actor)
    × ((actor.role ≡ manager) ⊎ (actor.role ≡ supervisor))
    × (max_discount floats settings 10 actor.role quiet_world state ≡ (ok limit, s1))
    × ((buy.user_id ≢ 0) × (buy.apartment_id ≢ 0))
    × (floats.lt 3 0 ≡ false)
    × (floats.lt limit 3 ≡ false)
unfolding Service.create_deal max_discount dsk_agent.Repo.Policy.get_active_max exec
    dsk_agent.Base.Sort.sort dsk_agent.Repo.Deal.can_create_deal_for_user
    dsk_agent.Repo.Deal.get_apartment_sale_data create_deal transaction commit exec_tx
    dsk_agent.Repo.Account.get_user_by_id dsk_agent.Repo.Notice.create_notification
    dsk_agent.Base.Text.trim_space dsk_agent.Db.send_mail
create-authorized_example =
    create-authorized floats settings quiet_world state buy (some (person 3 supervisor)) _ _ refl
