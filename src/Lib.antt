-- ===== src/Lib.antt =====
-- A model of the Go backend of the DSK sales assistant (backend/internal), the part of the repository that
-- keeps the deals, offers, chats and notifications of a developer's sales department, and its theorems.
--
-- The program. HTTP handlers and a message broker call services (backend/internal/service), which work on
-- repositories (backend/internal/repository), each method of which runs SQL statements on one
-- PostgreSQL database. A manager makes a deal with a client of a chat session; an offer of the deal has a
-- price with a discount; a discount above the actor's limit waits for a supervisor's decision; an approved
-- offer is mailed to the client; changes in the construction of a building are announced to its clients.
--
-- The files.
--   Base                  Booleans, lists as tables, int64 (Int), texts as lists of code points (Text),
--                         strconv and strings.Split (Strconv), ORDER BY (Sort), float64 as a parameter (Floats)
--   Domain                backend/internal/domain: the structs and enums
--   Db                    tables, statements, transactions and mails; what surrounds them is a `World`
--   Repo                  backend/internal/repository: a function for each method (Account is user.go,
--                         Policy is discount_policy.go, Notice is notification.go and reminder.go, Document is
--                         GetDocument of offer.go, Audit is ai_audit.go)
--   Discount, Money       percents, rounding and prices of service/offer.go and repository/offer.go
--   OfferService          service/offer.go: Rules (no database), Calls (the methods), and their theorems
--   DealService           service/deal.go
--   DeliveryService       service/offer_delivery.go
--   ChatService           service/chat.go, and the access rules of handler/chat.go
--   Http                  what the handlers of backend/internal/handler share: responses, refusals, panics
--   ChatHandler           the other functions of handler/chat.go
--   DealHandler           handler/deal.go
--   OfferHandler          handler/offer.go
--   AuthHandler           handler/auth.go with its middleware
--   UserHandler           handler/user.go
--   NoticeHandler         handler/notification.go and handler/reminder.go
--   CatalogueHandler      handler/competitor.go, handler/erp.go and handler/discount_policy.go
--   ConstructionHandler   handler/construction.go
--   AncillaryHandler      handler/ancillary_unit.go
--   AiHandler             handler/ai.go, and Dialog, which is handler/dialog_ai.go
--   Server                the routes of cmd/staff_server/main.go and cmd/user_server/main.go (Routes), each
--                         with its middleware and handler (Run)
--   NotificationService   service/notification.go
--   DialogService         service/dialog_analysis.go
--   AuthService           service/auth.go: registration, login and the check of a token, with bcrypt and JWT
--                         as parameters
--   UserService           service/user.go
--   ConstructionService   service/construction.go, over Repo/Construction and Repo/Home
--   AgentService          service/ai_agent.go: the client that asks the agents through the message broker
--   Broker                broker/backend_rpc.go: Keys, Codec (payloads), Replies and Fill (data), Failures,
--                         Interfaces (what it needs of the services), the cases of Dispatch in Reads,
--                         Construction and Sales, Consumer, and Backend (the services filled in)
--   Tests                 the theorems at concrete inputs
--
-- State and operations. A method with a context is an `Action F A`: from a world and a store it computes a
-- result or an error, and the new store. The store has the tables, a count of the statements run, whether a
-- statement of the open transaction has failed, and the mails taken by the mail sender. The world gives each
-- statement, by its number, a change of the tables by other sessions before it, a failure or none, and a
-- time; theorems hold for every world unless they say that it is quiet, which is that the others change
-- nothing and no statement fails. NOW() within a transaction is the time at which it began, and after a
-- failed statement PostgreSQL refuses the rest and the commit rolls back. Inside a transaction the others do
-- not act: this is an assumption of the model, stronger than the isolation level READ COMMITTED that the code
-- runs with, under which a statement sees what others have committed since the begin. A violated constraint
-- is a failure of its statement.
--
-- Conventions. An id is a natural number, and 0 stands for every id that is not positive. A string is the
-- list of its code points and is valid UTF-8. An int64 is an integer with its wrap-around written out. A
-- float64 is a value of the parameter `F`; its operations, and what a DECIMAL column makes of a value, are
-- parameters on which no theorem relies. All SERIAL columns draw from one counter. An error is its sentinel,
-- or a fault of the driver. Loops are structural recursion on a list, so that no fuel is needed.
--
-- The message broker. A handler of the dispatcher goes from a world and a store to a response and a store; the
-- consumer turns a delivery into a trace of calls on the channel, whose answers are given, and its loop runs
-- over the list of what arrives. The client of the agents does the same. encoding/json is a parameter, a
-- decoder for each type, and so are the ids that the client generates.
--
-- HTTP. A handler gets the user of the request, what strconv.Atoi makes of an id of the URL, and what
-- encoding/json makes of the body, each of them none where there is none, and writes a value with a status,
-- refuses with a status and a text, or panics. The answers of the agents are a parameter of its handlers.
--
-- Not modelled: columns that the backend does not read (the time of a document); HTTP itself and the
-- choice of a route by its path; JSON texts; the signatures of tokens; the rendering of PDF files; the pages
-- of the API descriptions; SMTP and RabbitMQ themselves; the Python agent service and the frontend.
pub mod Base
pub mod Domain
pub mod Discount
pub mod Money
pub mod Db
pub mod Repo
pub mod OfferService
pub mod DealService
pub mod DeliveryService
pub mod ChatService
pub mod NotificationService
pub mod DialogService
pub mod AgentService
pub mod AiHandler
pub mod AncillaryHandler
pub mod AuthHandler
pub mod AuthService
pub mod Broker
pub mod CatalogueHandler
pub mod ChatHandler
pub mod ConstructionHandler
pub mod ConstructionService
pub mod DealHandler
pub mod Http
pub mod NoticeHandler
pub mod OfferHandler
pub mod Server
pub mod Tests
pub mod UserHandler
pub mod UserService
