-- ===== src/Lib.antt =====
-- The core of the hospital canteen and store system: stock that moves only on a ticket, bills and
-- accounts, purchasing, and who may do what.
--
-- The program is an API server (apps/api/src) over a Postgres database, with its rules in
-- packages/domain/src and the shapes on the wire in packages/contract/src. A write is one database
-- transaction: it reads rows under lock, checks its rules, and writes rows. Here a transaction is a
-- function from a store to a result that holds the new store, or a refusal, after which the store
-- is as it was.
--
-- Prelude     numbers, lists and rounding. A quantity or an amount is an integer count of
--             billionths, where the program has doubles: columns keep three decimals of a quantity
--             and two of an amount, and round3 and round2 round to them as the code does; a product
--             or a quotient is cut at the billionth. Keys, ids, dates and instants are naturals, of
--             which only order and equality are read. A sentence to a user is the data that it is
--             printed from.
-- Workflow    packages/domain/src/transitions.ts, support.ts and qr.ts: the statuses of every
--             document, the tables of moves as functions to lists, and what a walk along them can
--             come to; locations.ts: which documents keep an outlet open. Workflow/Requests adds the
--             changes of a stock request that are no move of its table, from redirect of
--             apps/api/src/modules/requests/service.ts and cancel of modules/tickets/service.ts.
-- Access      packages/domain/src/permissions.ts: the catalogue of features and actions, the
--             seeded roles, the role editor's check, and the door to every route.
-- Catalog     packages/domain/src/master.ts, kitchen.ts, routing.ts, purchasing.ts, items.ts: items,
--             locations and the maps of stock, holds, switches and prices.
-- Billing     packages/domain/src/pricing.ts, discount.ts, billing.ts, availability.ts.
-- Credit      packages/domain/src/credit.ts, settlement.ts, party.ts: ceilings, and a payment laid
--             over the open bills.
-- Receivables apps/api/src/lib/credit.ts, and record and voidSettlement of
--             apps/api/src/modules/receivables/service.ts.
-- Purchasing  packages/domain/src/apportion.ts, approval.ts, claims.ts, receipt.ts.
-- Ledger      apps/api/src/lib/ledger.ts: post_moves is postMoves, rebuild_balances is
--             rebuildBalances.
-- Reservations apps/api/src/lib/reservations.ts.
-- Tickets     apps/api/src/lib/tickets.ts and apps/api/src/modules/tickets/service.ts: handover,
--             receive, cancel and transfer on a store with the ledger, the holds, the tickets and
--             the documents behind them. The code of a ticket is an argument, since the server
--             draws it at random.
-- Till        apps/api/src/lib/sale.ts, with the session of lib/register.ts, the terms of
--             lib/terms.ts and the phone of packages/domain/src/party.ts; voidBill of
--             apps/api/src/modules/pos/service.ts, with moveQrOrder and queueRefund of lib. The store
--             of the tickets is a part of the till's, since a sale and a ticket share the shelves
--             and the holds; the bills are those of Receivables. The random id of a session is the
--             next of a counter, and a phone is its code units. The queue of refunds is
--             apps/api/src/lib/refunds.ts; the order of their ids is a parameter of the worker's
--             claim.
-- Orders      apps/api/src/modules/requisitions, purchaseorders and grn, with
--             apps/api/src/lib/claims.ts and contract-rates.ts: every write on a requisition and on
--             the purchase orders that it funds, and the receipt of a delivery, which posts to the
--             ledger. A date is the number of a day. The day of an instant is a parameter of the
--             void of a bill, and an argument of the writes here.
--
-- Every loop is a recursion on the list that it goes over, so nothing runs on fuel. A table is a
-- list of rows or a partial function on keys. Locks are left out: the database runs the writes of
-- the model one after another. What lockBalances writes, a row of zero for a cell that has none,
-- is part of a hold and of a batch of moves, and is left out where a write locks cells before it
-- reads them. The id of a move is its place in the ledger, and the id of a receipt its number on
-- its order. Names, notes and the sentences of an answer are left out, and so is the sort of the
-- menu by name. Not modelled are the web client, the audit service, sign in, the payment gateway,
-- the queries behind reports, and, of the modules of the server, those named in none of the lines
-- above.
pub mod Prelude
pub mod Workflow
pub mod Access
pub mod Purchasing
pub mod Catalog
pub mod Billing
pub mod Credit
pub mod Ledger
pub mod Reservations
pub mod Tickets
pub mod Till
pub mod Orders
pub mod Receivables
