-- ===== src/Lib.antt =====
-- witchcraft-rust-server: an HTTP server for Conjure services. A request passes through the layers
-- of witchcraft-server/src/service, of which routing chooses the endpoint; blocking endpoints run on
-- the thread pool of witchcraft-server/src/blocking; the layers and the endpoints write logs, which
-- pass through a queue and a buffer to rolling files in witchcraft-server/src/logging; the health
-- checks of witchcraft-server/src/health watch the answers.
--
-- The files and the code that they model (paths below witchcraft-server/src):
--   Common           names of the library, tests on numbers, lemmas on lists
--   Poll             std::task::Poll with a Result, and the trait Sink of the crate futures-sink
--                    as a record, with the laws that a sink of bytes keeps
--   Assoc            HashMap and BTreeMap with keys of text, as lists of pairs
--   Http             text, and bodies with their frames, as the crate http-body has them
--   Sort             the sorting of a list by an order, which Routing and Archives use
--   ByteBuffer       logging/logger/byte_buffer.rs: BufBytesSink, a function for each method
--   FileBytes        logging/logger/rolling_file.rs: FileBytesSink; the file is a parameter
--   RollingFile      logging/logger/rolling_file.rs: RollingFileAppender with its states Live and
--                    Rotating; the file system and the clock are a parameter
--   Archives         logging/logger/rolling_file.rs: clear_old_archives and the index in new
--   Compression      logging/logger/rolling_file.rs: compress, restart_compression and clear_tmp_files
--                    for one archive; the process may die at each call of the system
--   AsyncAppender    logging/logger/async.rs: the queue, the worker and the wakers; a step relation
--                    interleaves the callers and the worker
--   Appenders        logging/logger/json.rs and metrics.rs: the line and the count of a record
--   Stdout           logging/logger/stdout.rs: StdoutSink; the thread that writes is a parameter
--   Console          logging/logger/mod.rs: these appenders over the buffer over the standard output
--   JobQueue         blocking/pool/job_queue.rs: the jobs and the linked list of waiters; a condition
--                    variable is the number of its thread
--   ThreadPool       blocking/pool/mod.rs: the pool, as a step relation on submitters and workers
--   BlockingEndpoint blocking/conjure.rs: the answer to a request, and a step relation for the thread that
--                    streams a body to the client
--   Routing          service/routing.rs: endpoints, their priority, groups by method and `call`; the
--                    crate regex is a parameter; Routing/Serving has `call`
--   EndpointHealth   health/endpoint_500s.rs: Unhealthy, Broken and the check of all endpoints
--   Gzip             service/gzip.rs: GzipService::call and GzipBody::poll_frame; the encoder and the inner
--                    body are parameters
--   GaugeReporter    logging/metric/gauge_reporter.rs, and in GaugeReporter/Idle the IdleFuture of
--                    logging/metric/mod.rs
--   ServiceLog       logging/service.rs: Levels and the filter of records; the crate sequence_trie is a
--                    parameter
--   Cleanup          logging/cleanup.rs: cleanup_logs_inner over the entries of the directory
--   ConnectionLimit  service/connection_limit.rs and connection_metrics.rs, in the loop of server.rs
--   ServerMetrics    service/server_metrics.rs and endpoint_metrics.rs: the meters of requests
--   IdleConnection   service/idle_connection.rs: Shared and the polls of a connection; a step relation
--                    for the requests on it
--   GracefulShutdown service/graceful_shutdown.rs: the hook, the guards and the connections
--   HealthRegistry   health/registry.rs: the checks, the rounds of their tasks and the report
--   ServiceDependency health/service_dependency.rs: the check on the calls to other services
--   Readiness        readiness.rs, status.rs: the readiness checks and the status of the endpoint
--   ConfigReload     configs.rs: ConfigFiles, parse and the rounds of runtime_reload
--   RequestBody      body.rs, and in RequestBody/Blocking blocking/body.rs: the readers of requests
--   ResponseWriter   body.rs, and in ResponseWriter/Blocking blocking/body.rs: the writers of responses
--   Mdc              service/mdc.rs: the diagnostic context of each request, on shared threads
--   BodyLayers       service/spans.rs, catch_unwind.rs, audit_log.rs and request_log.rs: the bodies
--                    that these layers wrap
--   AuditLog         service/audit_log.rs: `call`, over any sink
--   ResponseHeaders  service/no_caching.rs, server_header.rs, keep_alive_header.rs, deprecation_header.rs,
--                    trace_id_header.rs and web_security.rs, stacked as in server.rs
--   Split            str::split, which the next ones use
--   ExtendedPath     endpoint/extended_path.rs and witchcraft.rs: the endpoints of services, installed
--                    below the context path
--   Install          ../../witchcraft-server-config/src/install: the fixed configuration
--   UnverifiedJwt    service/unverified_jwt.rs: the parts of a token
--   RequestId        service/request_id.rs: the text of an id
-- The theorems stand in modules below these, the runs on concrete data in their Tests.
--
-- An instance of BufBytesSink over FileBytesSink is the sink of a RollingFile, as in the code, and one
-- over StdoutSink is that of Console: both inner sinks keep the laws of Poll.SinkLaws, which the
-- theorems on the buffer take. The endpoints that ExtendedPath installs are those that Routing matches,
-- and the prefixes it asks for are those that Install accepts. What a BlockingEndpoint streams is what
-- ResponseWriter/Blocking has written. The limit of ConnectionLimit is the one of Install.
--
-- Numbers are unbounded. Where the code relies on the width of an integer, the wrap-around is written
-- out (the index of an archive, the room left in a buffer) or the comment of the file says what is
-- assumed. The loop of FileBytesSink::poll_flush has the bytes left as fuel, since each write takes one
-- at least; the loop of RollingFileAppender::poll_ready has three rounds, which are enough where
-- midnight does not pass during the call. Instants and dates are numbers, and the clock is an argument.
--
-- A round of RequestBody and of the readiness checks is a step of fuel; the fuel is enough where it is
-- above the number of the frames to come, or of the types of checks that are ever registered.
--
-- Not modelled: the contents of the records (logging/api and health/api are generated), TLS, HTTP
-- itself (hyper), the registry of metrics, the export of traces, the debug endpoints, the minidump process, the
-- formats of configuration, the bootstrap of the server and the macros, which are calls of libraries;
-- and the layers of service that read headers with libraries or add a log line to a request.
mod Common
pub mod Poll
pub mod Http
pub mod Sort
pub mod Split
pub mod RequestBody
pub mod ResponseHeaders
pub mod ResponseWriter
pub mod ByteBuffer
pub mod ExtendedPath
pub mod FileBytes
pub mod RollingFile
pub mod AsyncAppender
pub mod Install
pub mod JobQueue
pub mod ThreadPool
pub mod Routing
pub mod ConnectionLimit
pub mod Console
pub mod EndpointHealth
pub mod Archives
pub mod Gzip
pub mod Cleanup
pub mod IdleConnection
pub mod GaugeReporter
pub mod GracefulShutdown
pub mod ConfigReload
pub mod Compression
pub mod Readiness
pub mod Mdc
pub mod Assoc
pub mod HealthRegistry
pub mod UnverifiedJwt
pub mod RequestId
pub mod BlockingEndpoint
pub mod BodyLayers
pub mod AuditLog
pub mod Appenders
pub mod ServerMetrics
pub mod ServiceDependency
pub mod ServiceLog
pub mod Stdout
