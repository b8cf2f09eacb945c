-- ===== src/Lib.antt =====
-- fansly-scraper: a downloader and archiver for Fansly, with a monitoring daemon.
--
-- Modelled parts, and how they interact:
--
--  - The activity simulator (daemon/simulator.py, class ActivitySimulator) is Daemon/Simulator.antt:
--    a record with the durations, the poll bases, the state and the time that it was entered, and a
--    function for each method. Times are whole ticks, a microsecond each; every reading of the clock
--    and the jitter are arguments. Phases holds the table of phases, Traces the sequences of calls.
--  - The WebSocket dispatcher (daemon/handlers.py) is Daemon/Handlers.antt, with its key tables in
--    Handlers/Tables. A payload is a JSON value (Helpers/Json.antt); a handler returns a work item,
--    None or the exception that it lets through. Requests says which payloads ask for which item;
--    Sound, Complete and Routing prove the dispatcher against it. The simulator's interrupts are
--    events that this dispatcher routes.
--  - The creator filter (daemon/filters.py) is Daemon/Filters.antt. The API is a function of the
--    number of the request and of the cursor; the model keeps the requested cursors.
--  - The polls (daemon/polling.py) are Daemon/Polling.antt. The cache of posts is a test on ids;
--    the monitor states (class MonitorState of metadata/models.py) are a cache over rows, and what
--    the store does at each creator is an argument.
--  - The narrowing functions of helpers/common.py are in Helpers/Json.antt, parse_timestamp in
--    Helpers/Timestamp.antt over an interface to Python's datetime.
--  - The media filters are Filters: the limits of config/media_filters.py in Filters/Media, with the
--    resolution per creator, and the gate of download/mediafilters.py in Filters/Gate, which reads
--    and writes the JSON of a media's meta_info. Sizes are bytes, durations whole ticks.
--    The wall filters of download/wallfilters.py are Filters/Walls: the walls are a list of ids, the
--    name that the store holds of a wall and `str.casefold` are arguments.
--  - The counters of download/globalstate.py, downloadstate.py and statistics.py are
--    Download/Statistics, one creator's and the grand total. The choice of a rendition in
--    media/media.py is Download/Variants, up to the choice between a variant and the default.
--  - The entity store is Metadata. Metadata/Identity is the identity map of metadata/entity_store.py,
--    with expiry and invalidation, and Identity/Invariant its operations by several threads;
--    Metadata/Objects is the dirty tracking of metadata/models.py (class FanslyObject) with the
--    INSERT or UPDATE of an entity's own row; Metadata/Session the loads through the identity-map
--    validator, get, get_many, preload and the deletions; Metadata/Query the filters, on cached
--    entities and as SQL conditions with their parameters; Metadata/Sorting the order of results;
--    Metadata/Searches find, find_one, count and find_iter over all of these. Pydantic's
--    construction of fields and the database's answers are arguments.
--  - metadata/subscriptions.py is Metadata/Subscriptions, a payload being a JSON value, and its log
--    of follows Metadata/Follows. The daemon's WebSocket events and the polls call both.
--  - The daemon's runner (daemon/runner.py) is Daemon/Runner: the error budget and the scope of
--    creators, with is_username_in_scope of config/fanslyconfig.py; Runner/Items the handlers of the
--    work items, each as the calls that it makes, Runner/Worker the worker over the queue,
--    Runner/Soft, Runner/Runs and Runner/Drained what holds of it. The downloads are calls that may raise.
--    Daemon/Events is the handler of the WebSocket's service events, which joins the simulator, the
--    subscriptions and the dispatcher to the queue of the worker. Daemon/Rounds is a pass of each
--    poll loop, from the answer of the poll over the scope and the creator filter to the queue.
--  - The rate limiter (api/rate_limiter.py, class RateLimiter) is Api/RateLimiter.antt, with the
--    back-off in RateLimiter/Backoff and the calls in RateLimiter/Calls. It is written over
--    Helpers/Floating, an interface to the arithmetic of doubles without NaN with the laws that
--    rounding keeps; RateLimiter/Fixed fills it with whole thousandths for the tests. Steps is the
--    interleaving of the calls of several threads, one step for each time that the lock is held.
-- Common holds the shared helpers: Boolean tests, lists, integers, equality as an interface, and
-- Python's dict as an association list.
--
-- Bounds: Python's integers are unbounded and are natural numbers or the integers of Common/Int.
-- A double of a JSON payload is an integer over a power of two, an infinity or not a number.
-- `int(text)` is modelled for ASCII text. The creator filter recurs on the rounds that are left,
-- as the source's loop over a fixed range does. The loop of the rate limiter recurs on the readings
-- of the clock, and a theorem says which readings are enough. find_iter recurs on fuel; its batches
-- of cached results have the length of the results as theirs.
--
-- Not modelled: network and file input and output, the text of the SQL and what PostgreSQL does
-- with it but for the conditions of Metadata/Query (whose comparisons are taken to be Python's on the
-- same values: a collation of texts is not told apart), relationships and junction tables (the
-- lookups of nested objects in a load among them, which may evict other expired entities), logging, the
-- console, the Stash client, the schema migrations and the third-party libraries.
pub mod Common
pub mod Helpers
pub mod Daemon
pub mod Filters
pub mod Api
pub mod Download
pub mod Metadata
