-- ===== src/Tests.antt =====
-- Runs of the model at concrete inputs.
mod Data
mod Numbers
mod Offers
mod Deals
mod Logins
mod Calls
mod Chats
mod Agents
mod Servers
