-- ===== src/Lib.antt =====
-- A model of k8s-athenz-syncer, the controller that keeps an AthenzDomain custom resource in a
-- Kubernetes cluster for every Athenz domain that the cluster uses, and theorems about it.
--
-- Namespace and resource informers put domain names into a rate limited work queue; a worker takes
-- them off, asks ZMS for the domain and creates, updates or removes its resource; two cron jobs, one
-- over the domains that changed in ZMS and one over everything, put more names into the queue.
--
-- - Util: pkg/util/util.go, the names of domains and namespaces and the filter of MSD rules.
-- - RateLimiter: pkg/ratelimiter/ratelimiter.go. The queue of client-go that calls it is not part of
--   the repository: WorkQueue is an interface with its documented laws, and an instance of it over
--   this rate limiter.
-- - Cluster: pkg/apis/athenz/v1/types.go, and what the caches, the API server and ZMS answer. Zms
--   holds the types of the ZMS client that the program reads. All their other fields are one field
--   `rest`, which the program copies and compares and never looks into.
-- - World and Go: the state that operations thread (queue, calls of the API server, etag), panics,
--   pointers and slices. GoStrings and GoMap: the functions of package strings and the maps in use.
-- - CrUtil: pkg/cr/cr.go. Cron and Cron.Loops: pkg/cron/cron.go. Controller and Controller.Worker:
--   pkg/controller/controller.go.
-- - System: the interleavings of events, worker rounds and cron rounds as steps.
-- - Reloader: pkg/reloader/reloader.go. Identity: pkg/identity/identity.go. FileWatcher:
--   pkg/filewatcher/filewatcher.go. Crypto: pkg/crypto/key.go, with package strconv in Strconv.
-- - DeepCopy: pkg/apis/athenz/v1/zz_generated.deepcopy.go. Main: main.go, with the command line in
--   Main.CommandLine and package flag in Flag.
-- - ApiServer: an interface of the API server's store with its documented laws, an instance in
--   memory, one over another instance that refuses its first writes (Busy), the answers that a
--   store gives after a record of calls (Replay), and where its content comes from (Origin).
-- - Client: pkg/client, with the requests of the typed client in Client.Requests, the clients of a
--   configuration in Client.Sets, the informer factory in Client.Informers, its list and watch
--   functions in Client.Source, the lister in Client.Lister and the fake of the unit tests in
--   Client.Fake, whose tracker is a parameter. Client.Scheme: the registration of the types with the
--   scheme of Kubernetes, a parameter. Log: pkg/log/log.go. NewController, NewCron and NewCRUtil
--   stand in Controller.Wiring. Cron.Loops.Feed: ZMS in counted states, each with its etag, as the
--   update cron reads them.
-- - WorkQueue.Order: what Get adds to the interface of the queue, with the promised order as laws, and
--   WorkQueue.Fifo an instance. Controller.Wanted: what a domain should have, which write of the API
--   server is due for it, and that the store in memory refuses none of these.
-- - System.Run: the controller as a program on a list of events, whose worker takes its keys from the
--   queue; System.Paths, System.Fair and System.EndToEnd follow it from an event, a cron round or a
--   change in ZMS to the store. Stable: properties of the world that operations keep, by the modules
--   Effects of Cron, Controller and Controller.Worker.
-- - Main.Launch: main from the command line to the controller. System.Lifecycle: how main ends, beside
--   Controller.Run, with the signals, the stop channel and the shutdown of the queue.
--
-- A function of the source has its name here in snake_case; updateCR is update_found. Loops are
-- recursion on the list they visit; a run of the worker is a list of rounds. The only fuel is that of
-- Strconv.decimal, one more than the number that it prints, which is enough since each digit divides.
--
-- An operation reads the caches as one snapshot, which a step of System chooses anew: informers may
-- change them between any two operations, but not within one. The API server and ZMS are functions of
-- the request, and the server also of the calls before it. A map or slice that is nil is told from an
-- empty one where the program can see the difference. Instants are nanoseconds since the zero time of
-- Go and durations are not negative. Counters are natural numbers: no run counts to 2 ^ 63. The
-- limiter is made at an instant later than its delay interval.
--
-- Not modelled: which messages the program logs, the text inside formatted errors beyond its fixed
-- part, locks whose extent is one method, the lengths of sleeps and of the backoff (the number of
-- attempts is an input), the discovery clients, and the accessors of pkg/client
-- that only return a field.
pub mod Common
pub mod GoMap
pub mod GoStrings
pub mod Go
pub mod Zms
pub mod Util
pub mod RateLimiter
pub mod WorkQueue
pub mod Cluster
pub mod World
pub mod Named
pub mod Stable
pub mod CrUtil
pub mod Cron
pub mod Controller
pub mod System
pub mod Reloader
pub mod Identity
pub mod Strconv
pub mod Crypto
pub mod FileWatcher
pub mod DeepCopy
pub mod Main
pub mod ApiServer
pub mod Flag
pub mod Client
pub mod Log
pub mod Tests
