-- ===== src/Lib.antt =====
-- Verification of the Match-Trader client and its order-copying services (v4/src/matchtrader).
--
-- Parts, files and code:
--   Common            shared names, tests, decimals in units of 10^-8, signed numbers.
--   Core.Reason       core/reason.py: unconfirmed_reason, local_reason.
--   Core.RateLimiter  core/rate_limiter.py: wait, for_origin.
--   Orders.StopLimit  orders/stop_limit.py: StopLimitPlan, decide.
--   Orders.Watcher    orders/stop_limit.py: StopLimitWatcher (poll, cancel, run).
--   Orders.Paper      orders/paper_stop_limit.py: size_lots, PaperBook; Intent is _intent,
--                     Rows is apply_row and _update, Quotes is on_quote, _armed, _working and _open.
--   Signals.Shapes    signals/shapes.py, signals/symbols.py: the signal of each sender,
--                     check_attribution, parse_signal's choice, SymbolMap.lookup.
--   Signals.Engine    signals/engine.py: SignalEngine.decide, with the records it reads in
--                     Signals.Plan and its checks in Signals.Admit, Market and Lots.
--   Copy.Parse        signals/shapes.py: parse_signal on a payload.
--   Copy.Dispatch     signals/dispatch.py: BrokerDispatcher.
--   Copy.Record       dashboard/signal_copy.py: the rows of signal-copy.sqlite3 and the queries.
--   Copy.State        the state of SignalCopy, _context, and the commit around a broker call.
--   Copy.Cancel       prepare_cancel, with capture/unwind.py's pending_order_request.
--   Copy.Receive      SignalCopy.receive, _receive, _open, _unwind, arm, and the restart. A
--                     delivery meets a World: the clock, the broker, the capture ledger.
--   Copy.Configs      dashboard/copy_configs.py: CopyConfig, CopyConfigStore.
--   Bridge            bridge/event.py, planner.py, journal.py: the shadow bridge, which plans
--                     requests and records them, and sends none.
--   Bridge.Tail       bridge/ledger.py: LedgerTail, on the bytes of a file that grows.
--   Capture.Store     capture/store.py: claim, finish, update and the restart.
--   Capture.Send      capture/manual_send.py: send, with Capture.Instrument for the router's
--                     _validate_instrument on the order it makes.
--   Capture.Broker    capture/router.py, capture/unwind.py: what a trade's broker reads are.
--   Capture.Router    capture/router.py: receive and _dispatch; Choose is the request an event
--                     asks for, Dispatch the claim, the call and what it leaves; route.py: match.
--   Capture.Unwind    capture/unwind.py: linked_trades, pending_order_request, _prepare, _cancel
--                     and _close; Apply is apply. Attempts and Actions follow the attempts of
--                     the router, the unwinding and the manual sends through one store.
--   Capture.Ledger    capture/mapping.py: source_event, link and guard_position in Links, fill in
--                     Fills, observe_destination in Observed, snapshot in Snapshot.
--   Capture.Verified  capture/verified.py: classify, on what snapshot gives it.
--   Capture.Reconcile capture/reconcile.py: reconcile.
--   Capture.Publish   capture/pamm_publisher.py: publish, enabled, sweep.
--   Capture.Relay     capture/relay_store.py: RelayLogStore (accept, feed, status).
--   Core.Request      core/rest_connection.py: request, _login, _adopt, _refresh, _renew, _send.
--   Core.Renewal      core/rest_connection.py and dashboard/session_renewal.py: when a session
--                     is renewed.
--   Tests             runs of the definitions, and the theorems at concrete inputs.
--
-- A Python method is a function that returns what the method returns or raises (Result: ok, err
-- for a ValueError, crash for any other exception) beside the object that it leaves.
-- A Decimal is a natural number of units of 10^-8: prices and amounts are not negative, and the
-- 28 digits of Python's decimal context are not modelled. Texts that only report numbers to a
-- reader leave the numbers out. Clocks are naturals that do not run backwards within a
-- difference. Letters, digits and spaces are those of ASCII, and no amount is NaN or infinite.
-- The SHA-256 of an identity or a payload stands for what it is taken of; in Capture.Relay it is a
-- parameter, as are UUID and base64, csv in Bridge.Tail and json in Copy.Configs. A price precision above eight decimals counts as eight. A
-- database takes every write, but where what a call meets says that it does not, and but for the
-- accepted state of a manual send. Locks serialize method calls, so that interleavings are
-- sequences of calls.
-- No fuel is used: each loop of the code runs over a list, `run` over the polls it is given, and
-- read_lines over the 1000 lines that the code takes in one poll. Times in ISO format are
-- numbers. A ledger's row leaves out its evidence. The router's lots are cut to eight decimals.
-- An action meets a World of Capture, which holds the clock, the broker's answers, whether the
-- database takes a write, and the ledger's links. The scope of an identity is a text.
-- Not modelled: the HTTP client and the websocket transport, the threads, and the views;
-- pydantic's reading of fields is taken as done. SignalCopy takes the answer of unwind.apply from
-- its World.
pub mod Common
pub mod Core
pub mod Orders
pub mod Signals
pub mod Copy
pub mod Bridge
pub mod Capture
pub mod Tests
