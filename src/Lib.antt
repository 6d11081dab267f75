-- ===== src/Lib.antt =====
-- HoneyWatch: honeypots that record attacks, a queue and a worker that classify and store them, and an
-- API that summarises them.
--
-- The program. The SSH and the HTTP honeypot (src/honeywatch/honeypot) turn what reaches them into
-- events (src/honeywatch/collector/events.py). `emit_event` publishes an event on a Redis stream
-- (src/honeywatch/collector/handler.py), or keeps it in a bounded buffer while the stream cannot be
-- reached. A worker (src/honeywatch/tasks/workers.py) consumes the stream, classifies each event by
-- rules (src/honeywatch/detection), stores it in PostgreSQL and acknowledges it. The API
-- (src/honeywatch/api) asks a repository (src/honeywatch/db) for counts, rankings and pages, and
-- combines them with places and risk scores (src/honeywatch/analysis).
--
-- The files. A function of the source has its name here, less a leading underscore, and a class is a
-- record of its fields.
--   Prelude           shared names, lists, text, the stable sort, grouping by a key
--   Stdlib            the parts of Python's library that the source uses on text: UTF-8, `rstrip`,
--                     `lower`, `parse_qs`, the digits of a number
--   Core              src/honeywatch/core/config.py: ports, the limit of credentials, URLs (Urls)
--   Event             src/honeywatch/collector/events.py
--   Collector         src/honeywatch/collector/handler.py: Queue (connect, publish, ack), Consume
--                     (a round of the consumer), Publish, Served (proofs)
--   Detection         src/honeywatch/detection: Rules (patterns.py), Classifier (classifier.py),
--                     IpContext (ipcontext.py, with a server in memory in IpContext/Server), Backfill
--                     (backfill.py), Backfill/Table (the table after it); Attack, Verdict,
--                     Backfill/Writes and the other children of IpContext (proofs)
--   Honeypot          src/honeywatch/honeypot: Base (base.py, one call after the other, on an interface
--                     of a queue), Stream (the event queue as such a queue), Race (base.py, overlapping
--                     flushes), Request and Http (http.py), Ssh (ssh.py), Restart and Manager
--                     (__main__.py: one honeypot, and both until the shutdown),
--                     Lifecycle (start and stop in base.py, http.py and ssh.py), Lifecycle/Keys (the
--                     host keys in ssh.py); Delivery, Session, Http/Body, Http/Login, Http/Records,
--                     Ssh/Session, Lifecycle/Leak, Manager/Shutdown (proofs)
--   Db                src/honeywatch/db: Session (session.py), Models (models.py), Query (what the
--                     queries say in SQL), Repository and Repository/Create
--                     (repositories/attack.py); the other children are proofs
--   Tasks             src/honeywatch/tasks/workers.py: Worker (an event), Worker/Rounds (the loop),
--                     Classify (an event on the context store), Stored (the loop on the context store),
--                     Lifecycle (start, stop, run_worker);
--                     Worker/Settled, Worker/Outage, Worker/Entries, Worker/Delivery (proofs)
--   Pipeline          the way of an event from base.py by way of handler.py and events.py to workers.py;
--                     Contexts (proofs)
--   Analysis          src/honeywatch/analysis: Geoip and Country (geoip.py), Risk (ip.py); proofs in
--                     their children
--   Api               src/honeywatch/api: Period, Deps, Routes (a module per file of routes), App
--                     (main.py: the routes behind the check of the credentials, and the life of the
--                     application), Base (how a route ends); proofs in their children
--   Tests modules     concrete runs, and each result at a concrete input
--
-- What is outside is a parameter. `reply n` says how the n-th command of Redis ends, `fetch n` what
-- the n-th read of the stream gives, `parse` what pydantic reads in an entry; `EventJson` is pydantic's
-- JSON of an event, with its round trip; `RedisDb` is the server of the context store, with the laws of
-- its commands, and `NumberText` the text of numbers; `db n m rows` says how the n-th commit ends;
-- `OrderBy` is the database's ORDER BY, with its laws, and `date_trunc` its function; `ip_address` and
-- `city` are the address parser and the GeoIP reader, and `Outside` gathers what the routes take;
-- `generate` makes a host key; `lower_rest` is `str.lower` beyond ASCII. Exceptions are values: a
-- status, a result, or a missing answer. A lost answer is one where the server acts and the connection
-- breaks after.
--
-- Numbers. Ids, instants and clock ticks are natural numbers; an instant counts microseconds from
-- `datetime.min`, and a wait counts units of its retry delay. Text of requests is a list of code
-- points; identifiers and addresses are strings. The quotient of the frequency score is exact.
--
-- Bounds and fuel. `publish_from` and `process_from` recurse on the tries that are left, from five and
-- ten as in the source; `run_from` on the crashes that are left, which is enough since each round but
-- the last counts one. `consume` takes a number of rounds, since its loop does not end by itself, and
-- its results hold for every number. All other loops go over a list.
--
-- Not modelled: JSON and YAML, sockets and what the server libraries do with them, a key file that
-- cannot be written, logging, migrations, the dashboard, and the entry points that only start asyncio
-- or uvicorn.
pub mod Prelude
pub mod Stdlib
pub mod Core
pub mod Event
pub mod Collector
pub mod Detection
pub mod Db
pub mod Tasks
pub mod Pipeline
pub mod Honeypot
pub mod Analysis
pub mod Api
