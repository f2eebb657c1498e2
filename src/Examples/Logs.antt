-- ===== src/Examples/Logs.antt =====
-- The log writer and the middleware.
use sentinel_zero_trust.Common.{some, ◌≡◌, refl, true, false, List, [], ◌∷◌, ◌++◌, codes, arith}
use sentinel_zero_trust.Logger.Async.{
  AsyncWriter, Op, write, worker_receive, worker_tick, close, new_async_writer, run, step, receive,
  enqueue, worker_by, close_channel,
}
use sentinel_zero_trust.Logger.Async.Fifo.{accepted_by, accepted, run-accepted}
use sentinel_zero_trust.Logger.Async.Shutdown.{IsBounded, run-IsBounded, HasEnded}
use sentinel_zero_trust.Logger.Async.Whole.{run_to_close}
use sentinel_zero_trust.Logger.Async.Line.{Runs}
use sentinel_zero_trust.Logger.Async.Refine.{view, replies, run_refines}
use sentinel_zero_trust.Logger.Context.{
  Context, handle, attr_of, handle_by, init_logger, program_attrs, with_attrs, context_handler,
  base_handler, info,
}
use sentinel_zero_trust.Logger.Context.Lines.{init_logger_line}
use sentinel_zero_trust.Logger.Middleware.{Call, write_header, write_body, middleware}
use sentinel_zero_trust.Logger.Middleware.Correlation.{handle-middleware}
use sentinel_zero_trust.Examples.Data.{http_request, logging}

abbrev ops : List Op
ops =
    write (codes "one")
    ∷ write (codes "two")
    ∷ worker_receive
    ∷ write (codes "three")
    ∷ worker_tick
    ∷ close
    ∷ worker_receive
    ∷ []

run-accepted_example :
    accepted_by (run (new_async_writer 1) ops)
    ≡ accepted_by (new_async_writer 1) ++ accepted (new_async_writer 1) ops
run-accepted_example = run-accepted ops (new_async_writer 1)

run_refines_example :
    Runs
      (view (new_async_writer 1))
      ops
      (replies (new_async_writer 1) ops)
      (view (run (new_async_writer 1) ops))
run_refines_example = run_refines ops (new_async_writer 1)

run-IsBounded_example : IsBounded (run (new_async_writer 1) ops)
run-IsBounded_example = run-IsBounded 1 ops

abbrev closing : AsyncWriter
closing = record {
  inner = record { buf = codes "one"; out = [] };
  buffer = codes "two" ∷ codes "three" ∷ [];
  queue_size = 5;
  is_closed = true;
  is_done = false;
}

abbrev draining : List Op
draining = worker_receive ∷ worker_tick ∷ worker_receive ∷ worker_receive ∷ []

abbrev next : Context → List Call
next ctx = write_header 404 ∷ write_body (codes "gone") ∷ []

handle-middleware_example :
    handle (middleware next http_request (1 ∷ 2 ∷ []) (3 ∷ 4 ∷ [])).context []
    ≡ (codes "trace_id", (middleware next http_request (1 ∷ 2 ∷ []) (3 ∷ 4 ∷ [])).response_trace_id)
      ∷ (attr_of [] (codes "request_id")
          ++ (attr_of [] (codes "http_method")
              ++ (attr_of [] (codes "http_uri") ++ attr_of [] (codes "http_remote_addr"))))
handle-middleware_example = handle-middleware next http_request (1 ∷ 2 ∷ []) (3 ∷ 4 ∷ []) []

abbrev http_context : Context
http_context = (middleware next http_request (1 ∷ 2 ∷ []) (3 ∷ 4 ∷ [])).context

init_logger_line_example :
    (handle_by (init_logger (λ s. some info) logging 5000).handler http_context []
      ≡ program_attrs logging ++ [])
    × (handle_by
          (context_handler (with_attrs (base_handler true []) (program_attrs logging)))
          http_context
          []
        ≡ program_attrs logging ++ handle http_context [])
init_logger_line_example = init_logger_line (λ s. some info) logging 5000 http_context []

run_to_close_example :
    let aw = run (new_async_writer 1) (ops ++ draining) in
    HasEnded aw × (aw.inner.out ≡ accepted (new_async_writer 1) ops)
unfolding run step receive enqueue worker_by new_async_writer close_channel
run_to_close_example = run_to_close 1 ops draining refl (tt, (tt, (tt, (tt, tt)))) (omega arith)
