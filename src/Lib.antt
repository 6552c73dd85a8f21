-- ===== src/Lib.antt =====
-- gowait, a virtual waiting room that stands in front of a backend: at most `capacity` visitors are let
-- in at a time, and the others wait in line, first in first.
--
-- The parts and their files. A store keeps the tickets (internal/store): `Store` has the types of its
-- answers, `Store.Interface` the Go interface as a record of operations, and `Store.Promises` what the
-- interface promises, as laws over a view of the status of each ticket, the line and the active count.
-- `Memory` is internal/store/memory/memory.go: `Memory.State` the entries and the store, `Memory.Holes` the
-- sorted seqs that evictions leave in the line, `Memory.Tickets` the methods TryAdmit, Enqueue, Lookup and
-- Touch with the snapshot, `Memory.Reconcile` the three loops of Reconcile, `Memory.Admin` Stats,
-- SetCapacity, GetCapacity and Flush. `Memory.Instance` gives these as operations of the interface, and
-- `Memory.Kept` is about the promises of them.
-- `Queue` is internal/queue/controller.go: `Queue.Controller` the state, the capacity and the reconciles,
-- `Queue.Check` Check, StatusOf and the estimate of the wait. The controller is a client of the interface
-- alone, and feeds `Metrics`, which is internal/metrics/metrics.go, with its text in `Metrics.Text`.
-- `Prober` is internal/prober/prober.go, a client of the controller, which it sees through an interface.
-- `Config` is Validate of internal/config/config.go, `Config.Flags` the environment and the flags that Load
-- declares, `Config.Arguments` the loop over the arguments, and `Config.Load` Load; `Config.Settings` lists the
-- settings with their variables and defaults as the documentation does. `Waitpage` is
-- internal/waitpage/waitpage.go, and `Proxy` internal/proxy/proxy.go.
-- `Ticket` is Sign and Verify of internal/ticket/ticket.go, `Ticket.Signer` the rest of it, and `Ticket.Encoding` hex
-- and base64.
-- `Valkey` is internal/store/valkeystore/valkeystore.go: `Valkey.Server` the commands of the Valkey server and
-- the calls of its client library, as parameters, with the laws that the code relies on; `Valkey.SortedSets`
-- the sorted sets that these laws speak of; `Valkey.Scripts` the Lua scripts and `Valkey.Methods` the Go
-- methods. `Valkey.Sound` has the invariant of a database, `Valkey.Effects`, `Valkey.Rounds` and
-- `Valkey.Outcome` are about the scripts, `Valkey.Reading` about replies, `Valkey.Kept`, `Valkey.Capacity` and
-- `Valkey.Errors` about the methods, `Valkey.History` about calls of several replicas in sequence.
-- `Valkey.Promised` makes the store one that the controller can use, as `Memory.Kept` does for the other.
-- `Valkey.Connection` is New, and the names of the keys.
-- `Server` is internal/server: `Server.Http` what handlers read and answer, `Server.Cookies` tickets and admin
-- sessions, `Server.Gatekeeper` gatekeeper.go and status.go, `Server.Admin` admin.go and the metrics endpoint,
-- `Server.Routes` the routes of both, with what net/http documents of its patterns (paths that are not clean are
-- redirected, and segments are decoded before they are compared), and `Server.New` New and the cookies as they are written.
-- `Main` is run of cmd/gowait/main.go: from the arguments to a process, whose handler, janitor and prober share one
-- controller, over `Store.Dynamic`, a store of either type. `Main.Starting` is about what starts, and `Main.Running`
-- about each event after it: the first action of the controller's Run, which may come before or after
-- other events, a request, a tick.
-- `Prelude`, `Int64`, `Results`, `Clock`, `Decimal`, `GoMap` and `SortSearch` stand for the language and its standard
-- library: numbers and lists, 64-bit arithmetic, calls that can fail, times and durations, numbers in
-- decimal, maps, and binary search with insertion and deletion in slices.
--
-- How state is modelled. A method that holds the store's mutex is a function of the store, so the calls of
-- concurrent requests are a sequence of such functions (`Memory.History`). The map and the queue share
-- entries, so these stand on a heap. The order in which Go walks a map is an argument. The controller
-- calls the store several times in one request; what others do to a shared store in between can be
-- part of the operations, which are arbitrary functions on the store's state; a script of the shared store
-- is one step of the database, as the server runs it; the promises are those of a
-- store that nobody else changes during a request. Readings of the clock, the
-- winner of a compare-and-swap, the answers of locks and of HTTP probes are arguments.
--
-- Numbers. Seqs are 64-bit and written out as such, and so are the arithmetic of positions, of UnixNano, of
-- the estimates and of the metrics' counters. The active count, the queue's length and the counts of a
-- reconcile are integers, as each is at most the number of calls. A store takes 2^63 - 1 tickets into
-- its line before seqs run into the sign bit of an int; theorems ask for fewer. Floats are a parameter
-- with no law. Scores and times of the shared store are integers, which the server holds exactly below 2^53:
-- the counter is kept below that, times are milliseconds. The promotion loop of the scripts runs on fuel, one
-- round more than the line is long, which is enough (`Valkey.Rounds.Promotion.promote_lem`), and so do the digits of a
-- number; the other loops run over the map's order, the queue or a slice.
--
-- Parameters. HMAC-SHA256, random bytes, the readers of durations and of numbers in flags and variables, url.Parse,
-- the file system, html/template with the embedded page, net/http/httputil, and the connection to Valkey are
-- arguments. Texts of the configuration that become bytes are ASCII.
--
-- Not modelled: the listener, the signals, the shutdown and the logs of the process, and the usage texts of flags;
-- the parsing of requests and the encoding of responses, which are net/http's and encoding/json's; the
-- constant lines of the metrics; contexts, the texts that errors are wrapped in, and the race for the sum of
-- the waits.
pub mod Prelude
pub mod Int64
pub mod Results
pub mod Clock
pub mod Decimal
pub mod GoMap
pub mod SortSearch
pub mod Store
pub mod Metrics
pub mod Memory
pub mod Valkey
pub mod Queue
pub mod Prober
pub mod Ticket
pub mod Waitpage
pub mod Config
pub mod Proxy
pub mod Server
pub mod Main
