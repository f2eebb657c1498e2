-- ===== src/Lib.antt =====
-- Sentinel Zero Trust: the Go programs that give every pod of a Kubernetes cluster a workload identity.
-- The data plane (data-plane) is a sidecar proxy. Its main (data-plane/cmd/main.go) reads the
-- configuration, creates a proxy and runs it in one of three modes. The proxy asks Kubernetes for a
-- short-lived token, makes a SPIFFE id from its claims, fetches a certificate for that id from the
-- control plane by gRPC, and renews it in a goroutine while its handlers relay connections: inbound
-- ones, after mutual TLS, to the application beside it, and outbound ones by TLS to the peer. The init
-- container (sentinel-init/cmd/main.go) writes the iptables rules that lead traffic into the proxy.
-- Both log through one bounded queue.
--
-- The files, and the code that each models:
--   Grpc            data-plane/internal/grpc/cert_fetcher.go: Fetch
--   CertManager     data-plane/internal/cert_manager/cert_manager.go: the state of CertManager and of the
--                   token, and StartRotation. One pass of its loop is `iteration`; a `Round` is what the
--                   world answers in a pass (clock, parser, token provider, control plane, the winner of
--                   every select), and a pass gives a trace of actions and the next state.
--     Schedule      the computation of sleepDuration, with the saturation of time.Duration
--     Trace, Hitless, Panic, Cancel, Progress, Stuck    laws of the loop
--     Locks         CertMutex: GetCurrentCertificate in any number of goroutines and the two critical
--                   sections of the rotation, as a step relation; Loop ties it to StartRotation
--   Config          data-plane/internal/config/config.go: CreateProxyConfig, Load
--   Utils.Claims, HostAddress, OriginalDest    data-plane/internal/utils/utils.go
--   Utils.Tokens    data-plane/internal/utils/token_provider.go
--   Proxy           data-plane/internal/proxy/proxy.go
--     Defs          Proxy, the TLS configurations, proxyCopy as events; connections, handler events
--     Copy          proxyCopy, turn by turn of its two goroutines, with the bytes that they move: each
--                   read, each write and each Close is a turn, and reads and writes can fail
--     Identity      ExtractIdentity, ExtractServerName
--     Http          proxyInboundHTTPRequests, proxyOutboundHTTPRequests
--     Forward       handleRedirectedConnection, forwardLocalApp, handleOutboundConnection,
--                   forwardOutboundPlain
--     TProxy        handleTProxyConnection, getOriginalDst, forwardLocalAppTProxy,
--                   forwardOutboundTProxy
--     Outbound      forwardOutbound, which nothing calls
--     Handler       CreateProxyHandler, and CoreHandlers, which nothing calls
--     Boot          NewProxy; Life, the certificates of a proxy from its start on
--     Modes         Run; the listeners of runRedirectMode and runTProxyMode; Serve, their accept loops
--                   and error channel; Direct, runDirectMode
--     Mesh          the two HTTP relays of a request between two pods
--   Logger          data-plane/internal/logger and its copy sentinel-init/internal/logger
--     Async         async_writer.go: Write, worker and Close as steps that interleave; Line is the
--                   abstract line that it implements, Refine the refinement, Whole and Lossless its
--                   life from the first Write to the end of the worker
--     Context       logger.go: WithTraceID, ContextHandler, InitLogger
--     Middleware    middleware.go
--   Cmd             data-plane/cmd/main.go: the configuration and the retries of NewProxy; Program is
--                   the whole of main as a trace, its Logs the trace at the log writer, its Run
--                   main with the Run of the proxy
--   Init            sentinel-init/cmd/main.go
--     Flags, Rules, Setup    the flags, buildTProxyRules and buildRedirectRules, and the rest
--     Table, Traffic         the rules as data, and what the kernel does with a packet under them
--     Program                the whole of main with its log, through sentinel-init/internal/logger
--   Pod             the init container and the proxy of one pod together
--   Std             what the code uses of Go's strings, strconv and net packages
--   Common          texts as lists of bytes, results, integers, lists
--   Examples        the theorems at concrete inputs
--
-- Go strings are lists of bytes. An `int` is an integer without bound, except where a value is parsed
-- (Atoi refuses what does not fit 64 bits) and where a time.Duration saturates. A call whose answer the
-- program does not determine is an argument: the reading of ports by iptables, the file system, DNS, sockets, TLS, the JWT and X.509
-- parsers, the Kubernetes client, the control plane, random bytes. A handler is a function into the
-- trace of its events. Loops are recursions on lists; the two that are not, the retries of main and
-- `StartRotation`, are bounded by a fuel of eleven, of which the retries need ten at most, and by the
-- list of the rounds played so far, of any length. Goroutines run by a list of turns, in any order, or
-- by the steps of a relation (CertManager.Locks). Jumps between iptables chains nest at most twice under
-- the rules, and are followed three deep.
--
-- Not modelled: the control plane (Java), the example services and the deployment; the generated
-- protocol code; sentinel-init's copy of the HTTP middleware, which it does not call; time limits. A
-- writer that waits for the certificate mutex does not hold new readers back, which only adds runs. A
-- queue of size 0, which Go does not buffer, and paths that a ServeMux redirects are left out.
pub mod Common
pub mod Std
pub mod Grpc
pub mod CertManager
pub mod Config
pub mod Utils
pub mod Proxy
pub mod Logger
pub mod Cmd
pub mod Init
pub mod Pod
mod Examples
