-- ===== src/Lib.antt =====
-- ITCH-Lab: a model of the passive-order simulator.
--
-- The simulator replays the messages of a market day and lets a strategy keep simulated passive
-- orders beside them. Its Python package, python/src/itchlab_research/simulation, has these parts,
-- each with the file that models it:
--
--   order.py          Order         the order's value and its validation
--   scheduler.py      Scheduler     the heap of delayed submissions and cancellations
--   state_machine.py  StateMachine  the orders' lifecycle: slots, transitions, due actions
--   market_events.py  MarketEvents  the market's events, their validation and their rows
--   queue_model.py    QueueModel    the visible book and its price heaps, the activation resolver,
--                                   the quantities ahead, and what each source event does to them
--   accounting.py     Accounting    positions, marks, cash, fees, profit and its reconciliation
--   risk_limits.py    Risk          the decision on a proposed quote
--   liquidation.py    Liquidation   the end of the session: expiry and settlement
--   runner.py         Runner        a day: its objects, the loop over its events, decisions, settlement
--   metrics.py        Metrics       the day's accounting metrics, drawdown, turnover, adverse selection
--   ../errors.py      Errors        the error codes and `SimulationError`
--   ../strategies/prediction_join.py
--                     Predictions   the latest prediction before each decision of a strategy
--
-- How they interact. For each market message the queue model opens the message on the state machine
-- (`before_market_event`), which takes the due actions from its scheduler and applies them, asking
-- the queue model for the quantity ahead of an order that becomes active (the resolver: here a
-- call back into a state of any type, which may change and may raise). It then records the fills
-- that the message implies (`record_fill`) and hands them to the ledger (`record_queue_fill`),
-- which marks the symbol, books the trade and checks that two ways to compute the profit agree.
-- The runner drives all of them: for each event it calls the queue model, marks the ledger from the
-- event's snapshot, books the fills, asks the strategy of the symbol for a decision when one is due,
-- refreshes the two orders of the symbol, and notes a point of the equity; after the last event of a
-- timestamp it completes the timestamp. At the end of the session the settlement prepares the closing
-- trades on the ledger, expires the live orders on the machine and commits the trades; then the
-- runner marks the fills out and computes the day's metrics (Runner.Whole).
--
-- How the model is written. A method of a Python object is an `Action`: a function from the state
-- to a result or an error, and the state afterwards, also after a raise (Base.Action). A function
-- that only computes or raises gives a `Result` (Base.Result). Guards stand in the order of the
-- source, each with its error code; the texts of the messages are left out. Dictionaries are
-- association lists in the order of insertion (Base.Dict), where an update keeps the place of the
-- key, as in Python. Identifiers, indices, timestamps, prices and quantities are naturals; sides,
-- inventories and money are the integers of Base.Int over the native naturals. Python's integers do
-- not wrap, and the checks of the source on 64 bits are written out (`checked_int64`). The tests on
-- the type of a value (`isinstance`, `bool`) hold of every value of the model, but for the rows of
-- MarketEvents.Adapt, whose values are of any type.
--
-- Loops recur on their lists, so no fuel is needed. `heapq` is modelled as the list sorted by its
-- key, and so are the heaps of prices. The source compares a prepared terminal plan by object
-- identity; the model numbers the plans. A method of the queue model or of the runner may also fail
-- with a KeyError or a TypeError (QueueModel.Method). The parts that look a key up give `none` for
-- the KeyError: the dictionaries and sets of the visible book, the search for the best price, the
-- rows of the events and the timelines of the markouts. The state machine catches no KeyError of the
-- resolver, so the call of the machine fails with it (QueueModel.Process.resolver). A remainder of
-- the visible book is a natural: taking more than the remainder off, which the handlers' checks
-- rule out, has no result in the model. The optional fields of an event that its kind requires are
-- read with a default (`cast`), as its validation comes first. The row of an event in the day's loop
-- may lack the keys that the runner reads itself; the rows of MarketEvents.Adapt may hold any value,
-- also one without a hash, for which the test of the side fails with a TypeError.
--
-- The strategies compute in floating point. To the runner they are an interface (Runner.Strategy)
-- whose calls may return or raise anything; the quotient of the coverage is a parameter of Metrics.
--
-- Not modelled: the strategies themselves, the aggregate over days, the simulation service, datasets,
-- models, classification metrics, reports, command line and C++ replay engine, which read and write
-- files or compute in floating point.
pub mod Base
pub mod Errors
pub mod Order
pub mod Scheduler
pub mod StateMachine
pub mod MarketEvents
pub mod QueueModel
pub mod Accounting
pub mod Risk
pub mod Liquidation
pub mod Predictions
pub mod Metrics
pub mod Runner
