-- ===== src/Tests/Data.antt =====
-- A small database and a quiet world, with float64 replaced by the natural numbers.
use dsk_agent.Base.{ℕ, ◌-◌, ◌*◌, ◌/◌, refl, ltb, leb, none, some, [], ◌∷◌, true, false}
use dsk_agent.Base.Int.{pos}
use dsk_agent.Base.Text.{codes}
use dsk_agent.Base.Floats.{Floats}
use dsk_agent.Domain.Account.{User, Role, user, manager, supervisor}
use dsk_agent.Domain.Estate.{Apartment, AncillaryUnit, rough, free, parking}
use dsk_agent.Domain.Construction.{BuildingRow, construction, panel}
use dsk_agent.Domain.Offer.{Offer, pending_approval, OfferSelection}
use dsk_agent.Domain.Deal.{Deal, pending}
use dsk_agent.Domain.Chat.{ChatSession, opened}
use dsk_agent.Db.{Tables, World, Store, Columns, Slot}
use dsk_agent.Db.Laws.{IsQuiet}
use dsk_agent.OfferService.Rules.{DiscountPolicy}

abbrev pub person : ℕ → Role → User
person id role = record {
  id = id;
  name = codes "N";
  email = codes "e";
  password_hash = [];
  role = role;
  budget_max = none;
  preferences = [];
}

abbrev pub flat : Apartment
flat = record {
  id = 10;
  building_id = 5;
  number = codes "7";
  rooms = pos 2;
  floor = pos 3;
  area = codes "50.00";
  price = codes "5000000.00";
  type_finishing = rough;
  status = free;
}

abbrev pub house : BuildingRow ℕ
house = record {
  id = 5;
  residential_complex_id = 6;
  address = [];
  district = some (codes "D");
  latitude = none;
  longitude = none;
  floors_count = pos 9;
  planned_date = some 70;
  actual_date = none;
  status = construction;
  type_wall_material = panel;
  readiness_percent = none;
  forecast_date = none;
  delivery_shift_days = none;
}

abbrev pub place : AncillaryUnit
place = record {
  id = 20;
  building_id = 5;
  kind = parking;
  number = codes "P";
  area = none;
  price = pos 300000;
  status = free;
}

abbrev pub old_deal : Deal ℕ
old_deal = record {
  id = 30;
  user_id = 1;
  employee_id = 2;
  apartment_id = 10;
  chat_session_id = some 40;
  base_price = 1000;
  percent_discount = 0;
  total_price = 1000;
  status = pending;
  created_at = 0;
  updated_at = 0;
  user_name = none;
  employee_name = none;
  apartment_number = none;
}

abbrev pub waiting : Offer
waiting = record {
  id = 50;
  deal_id = 30;
  version = 1;
  created_by = 2;
  base_price = pos 5000000;
  discount_percent = codes "7";
  final_price = pos 4650000;
  parking_unit_id = none;
  parking_number = none;
  parking_price = pos 0;
  storage_unit_id = none;
  storage_number = none;
  storage_price = pos 0;
  generated_text = [];
  status = pending_approval;
  approval_required = true;
  approved_by = none;
  approved_at = none;
  rejected_by = none;
  rejected_at = none;
  rejection_reason = none;
  created_at = 0;
  updated_at = 0;
  request_id = codes "r";
}

abbrev pub talk : ChatSession
talk = record {
  id = 40;
  user_id = some 1;
  employee_id = none;
  apartment_id = some 10;
  guest_name = none;
  guest_email = none;
  guest_phone = none;
  status = opened;
  deleted_by_user = false;
  created_at = 0;
  updated_at = 0;
  user_name = none;
  employee_name = none;
}

abbrev pub tables : Tables ℕ
tables = record {
  next_id = 100;
  users = person 1 user ∷ person 2 manager ∷ person 3 supervisor ∷ [];
  apartments = flat ∷ [];
  ancillary_units = place ∷ [];
  discount_policies = [];
  deals = old_deal ∷ [];
  offers = waiting ∷ [];
  offer_documents = [];
  offer_deliveries = [];
  chat_sessions = talk ∷ [];
  chat_session_rejections = [];
  messages = [];
  notifications = [];
  construction_notification_state = [];
  staff_reminders = [];
  residential_complexes = record { id = 6; name = codes "C"; address = []; description = [] } ∷ [];
  buildings = house ∷ [];
  construction_progress = [];
  competitors = [];
  recommendations = [];
  erp_events = [];
  material_stocks = [];
  production_schedules = [];
  ai_audit_log = [];
}

abbrev pub state : Store ℕ
state = record { tables = tables; tick = 0; aborted = false; outbox = [] }

abbrev pub columns : Columns ℕ
columns = record {
  percent_text = λ s. s;
  percent = λ x. x;
  money = λ x. x;
  price = λ s. 1000;
  decimal_text = λ x. codes "1000.00";
  coordinate = λ x. x;
  quantity = λ x. x;
  lower = λ s. s;
  text_before = λ s t. false;
}

abbrev pub quiet_slot : Slot ℕ
quiet_slot = record { others = λ t. t; failure = none; now = 60 }

abbrev pub quiet_world : World ℕ
quiet_world = record { columns = columns; slot = λ n. quiet_slot; mail_error = λ n. none }

pub quiet_world-IsQuiet : IsQuiet quiet_world
quiet_world-IsQuiet = record { others = λ n t. refl; no_failure = λ n. refl }

abbrev pub floats : Floats ℕ
floats = record {
  zero = 0;
  one = 1;
  hundred = 100;
  lt = ltb;
  leq = leb;
  sub = λ a b. a - b;
  mul = λ a b. a * b;
  div = λ a b. a / b;
  round = λ a. a;
  parse = λ s. some 5;
  two_places = λ a. [];
}

abbrev pub policy : DiscountPolicy
policy = record {
  manager_max_basis_points = pos 500;
  supervisor_max_basis_points = pos 1500;
  has_reader = true;
}

abbrev pub with_place : OfferSelection
with_place = record { parking_unit_id = some 20; storage_unit_id = none }
