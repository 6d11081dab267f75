-- ===== src/Pipeline/Contexts.antt =====
-- The way of an event to its classified row: the honeypot, the stream, and the worker with its context
-- store (src/honeywatch/detection/ipcontext.py).
use honeywatch.Prelude.{List}
use honeywatch.Collector.Queue.{Queue}
