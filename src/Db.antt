-- ===== src/Db.antt =====
-- The database as the repositories see it: the tables that their SQL names, one statement as a step
-- on them, and a transaction. What the program does not decide is a `World`: before each statement
-- other sessions may change the tables in any way, the statement may fail with an error of the
-- driver, and it runs at some time. A statement that fails changes nothing.
pub mod Laws
pub mod Keeps
use dsk_agent.Base.{ℕ, ◌+◌, Bool, true, false, Option, none, some, List, ◌∷◌, if◌then◌else◌}
use dsk_agent.Base.Text.{Text, codes}
use dsk_agent.Domain.Error.{Fault, driver, Err, fault, Result, ok, err}
use dsk_agent.Domain.Account.{User}
use dsk_agent.Domain.Estate.{Apartment, AncillaryUnit, DiscountPolicyRecord, ConstructionProgress}
use dsk_agent.Domain.Construction.{
  ResidentialComplex, BuildingRow, Competitor, ErpEvent, MaterialStock, ProductionSchedule,
}
use dsk_agent.Domain.Rpc.{Recommendation}
use dsk_agent.Domain.Ai.{AuditEntry}
use dsk_agent.Domain.Offer.{Offer, OfferDelivery}
use dsk_agent.Domain.Deal.{Deal}
use dsk_agent.Domain.Chat.{ChatSession, ChatSessionRejection, Message}
use dsk_agent.Domain.Notice.{Notification, StaffReminder}

-- All SERIAL columns draw from one counter: their values are only compared.
pub record Tables (F : Type 0) : Type 0 where
  pub next_id : ℕ
  pub users : List User
  pub apartments : List Apartment
  pub ancillary_units : List AncillaryUnit
  pub discount_policies : List DiscountPolicyRecord
  pub deals : List (Deal F)
  pub offers : List Offer
  pub offer_documents : List (ℕ × Text × Text)
  pub offer_deliveries : List OfferDelivery
  pub chat_sessions : List ChatSession
  pub chat_session_rejections : List ChatSessionRejection
  pub messages : List Message
  pub notifications : List Notification
  pub construction_notification_state : List (ℕ × Text)
  pub staff_reminders : List StaffReminder
  pub residential_complexes : List ResidentialComplex
  pub buildings : List (BuildingRow F)
  pub construction_progress : List ConstructionProgress
  pub competitors : List (Competitor F)
  pub recommendations : List (Recommendation × Text)
  pub erp_events : List ErpEvent
  pub material_stocks : List (MaterialStock F)
  pub production_schedules : List ProductionSchedule
  pub ai_audit_log : List AuditEntry

-- What PostgreSQL and its driver make of a value that is written to a DECIMAL column and read back:
-- a percent as text, a percent and an amount of money as float64, the text of two places as float64
-- and back, a coordinate and a quantity. `lower` is LOWER, and `text_before` the order of texts.
pub record Columns (F : Type 0) : Type 0 where
  pub percent_text : Text → Text
  pub percent : F → F
  pub money : F → F
  pub price : Text → F
  pub decimal_text : F → Text
  pub coordinate : F → F
  pub quantity : F → F
  pub lower : Text → Text
  pub text_before : Text → Text → Bool

-- What surrounds one statement.
pub record Slot (F : Type 0) : Type 0 where
  pub others : Tables F → Tables F
  pub failure : Option Fault
  pub now : ℕ

-- The surroundings of the n-th statement, for every n, and what the mail sender answers before the
-- n-th statement: nothing, or the text of an error.
pub record World (F : Type 0) : Type 0 where
  pub columns : Columns F
  pub slot : ℕ → Slot F
  pub mail_error : ℕ → Option Text

-- The attachment is a file's name and its content.
pub record Mail : Type 0 where
  pub recipient : Text
  pub subject : Text
  pub body : Text
  pub attachment : Option (Text × Text)

-- `tick` counts the statements; `aborted` says that a statement of the open transaction has failed;
-- `outbox` holds the mails that the mail sender took, the last one first.
pub record Store (F : Type 0) : Type 0 where
  pub tables : Tables F
  pub tick : ℕ
  pub aborted : Bool
  pub outbox : List Mail

abbrev pub Action : Type 0 → Type 0 → Type 0
Action F A = World F → Store F → Result A × Store F

module _ {F : Type 0} {A : Type 0} where
  abbrev pub pure : A → Action F A
  pure a w s = (ok a, s)

  abbrev pub throw : Err → Action F A
  throw e w s = (err e, s)

  abbrev pub lift : Result A → Action F A
  lift r w s = (r, s)

  abbrev pub or_throw : Option A → Err → Action F A
  or_throw none e = throw e
  or_throw (some a) e = pure a

infixl 5 ◌>>=◌ ◌>>◌
abbrev pub ◌>>=◌ : {F A B : Type 0} → Action F A → (A → Action F B) → Action F B
◌>>=◌ m f w s = let (r, s') = m w s in elim r [ ok a ↦ f a w s' | err e ↦ (err e, s') ]

abbrev pub ◌>>◌ : {F A B : Type 0} → Action F A → Action F B → Action F B
m >> k = m >>= λ _. k

-- `if cond { return nil, e }`.
abbrev pub refuse_if : {F : Type 0} → Bool → Err → Action F (Unit {0})
refuse_if true e w s = (err e, s)
refuse_if false e w s = (ok tt, s)

module _ {F : Type 0} {A : Type 0} where
  -- The reply to a statement of an aborted transaction.
  abbrev pub refused : Store F → Result A × Store F
  refused s =
      (err (fault (driver (codes "transaction is aborted"))), record s { tick = s.tick + 1 })

  -- How a transaction that began with the tables `start` ends.
  unfoldable pub commit : World F → Tables F → Result A × Store F → Result A × Store F
  commit w start (err e, s) = (err e, record s { tables = start; aborted = false })
  commit w start (ok a, s) =
      let undone = record s { tables = start; tick = s.tick + 1; aborted = false } in
      if s.aborted
      then (err (fault (driver (codes "commit resulted in rollback"))), undone)
      else elim (w.slot s.tick).failure [
        | none ↦ (ok a, record s { tick = s.tick + 1 })
        | some e ↦ (err (fault e), undone)
      ]

-- NOW() of a transaction is the time at which it began.
abbrev pub stopped : {F : Type 0} → World F → ℕ → World F
stopped w now = record w { slot = λ n. record (w.slot n) { now = now } }

module _ {F : Type 0} {A : Type 0} where
  -- `x, err := m`: the result as a value, for code that goes on after an error.
  abbrev pub attempt : Action F A → Action F (Result A)
  attempt m w s = let (r, s') = m w s in (ok r, s')

  -- The error of `m` is dropped.
  abbrev pub ignore : Action F A → Action F (Unit {0})
  ignore m w s = (ok tt, (m w s).1)

  unfoldable pub run_statement :
      (Columns F → ℕ → Tables F → A × Tables F)
      → Columns F
      → Slot F
      → Tables F
      → Result A × Tables F
  run_statement f c slot t = elim slot.failure [
    | none ↦ let (a, t') = f c slot.now t in (ok a, t')
    | some e ↦ (err (fault e), t)
  ]

  -- One statement on its own, which the database runs as a transaction.
  unfoldable pub exec : (Columns F → ℕ → Tables F → A × Tables F) → Action F A
  unfolding run_statement
  exec f w s =
      let slot = w.slot s.tick in
      let (r, t) = run_statement f w.columns slot (slot.others s.tables) in
      (r, record s { tables = t; tick = s.tick + 1 })

  -- A statement inside a transaction. After one has failed PostgreSQL refuses all others.
  unfoldable pub exec_tx : (Columns F → ℕ → Tables F → A × Tables F) → Action F A
  exec_tx f w s = if s.aborted then refused s else elim (w.slot s.tick).failure [
    | none ↦
        let (a, t) = f w.columns (w.slot s.tick).now s.tables in
        (ok a, record s { tables = t; tick = s.tick + 1 })
    | some e ↦ (err (fault e), record s { tick = s.tick + 1; aborted = true })
  ]

  -- Begin, the body, and Commit, or Rollback where the body returns an error. Commit fails where a
  -- statement has failed, even if the body went on after it (pgx.ErrTxCommitRollback).
  unfoldable pub transaction : Action F A → Action F A
  transaction m w s =
      let slot = w.slot s.tick in
      let start = slot.others s.tables in
      elim slot.failure [
        | some e ↦ (err (fault e), record s { tables = start; tick = s.tick + 1 })
        | none ↦
            let opened : Store F = record s {
              tables = start;
              tick = s.tick + 1;
              aborted = false;
            } in
            commit w start (m (stopped w slot.now) opened)
      ]

-- A statement that reads.
abbrev pub query : {F A : Type 0} → (ℕ → Tables F → A) → Action F A
query f = exec (λ c now t. (f now t, t))

-- A call of the mail sender: it takes the mail, or answers the text of an error.
unfoldable pub send_mail : {F : Type 0} → Mail → Action F (Option Text)
send_mail mail w s = elim (w.mail_error s.tick) [
  | none ↦ (ok none, record s { outbox = mail ∷ s.outbox })
  | some text ↦ (ok (some text), s)
]
