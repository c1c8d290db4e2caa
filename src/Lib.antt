-- ===== src/Lib.antt =====
-- A model of Cert-Broker and its correctness. Cert-Broker watches the Ingress resources of a target
-- cluster, keeps copies of them in a control cluster where Cert-Manager requests certificates, and
-- brings the certificates back as secrets of the target cluster.
--
-- The parts, and the files that model them:
-- - pkg/utils/naming.go: Naming.antt. The name of a copy holds the namespace and the name of its
--   original; every controller reads it back (Naming/Split.antt).
-- - pkg/utils/controller-helper.go: Template.antt is IngressTemplate, Template/Calls.antt the calls
--   of CreateControlIngress that overlap, Template/Class.antt the Ingress class of init, Cleanup.antt
--   CleanUpIngressAndTLSSecrets and Filter.antt FilterMethod.
-- - pkg/ingress: Ingress.antt and its children. Handlers is eventhandler.go; of sync.go, CopyTls is
--   copyTLS, Prefix is prefixWithNamespace and deepEqual, and Sync is Sync with createIngress,
--   updateIngress and cleanUpIngressAndSecrets.
-- - pkg/secret: Secret.antt. Handlers is eventhandler.go, Sync is sync.go.
-- - pkg/events: Events.antt. Handlers is eventhandler.go and the filter, Sync is sync.go.
-- - pkg/cleaner: Cleaner.antt. Handlers is eventhandler.go, Sync is syncHandler, Worker is
--   processNextWorkItem and runWorker.
-- - cmd/options.go, and validateControllerOptions of cmd/controller-manager.go: Options.antt.
-- - pkg/common/controller.go: Controller.antt, processNextWorkItem and runWorker of the controllers
--   that share it; Controller/Group.antt is Start with its goroutines, as a step relation that counts
--   the goroutines and the items of the queue. Queue.antt has what both workers use.
-- - GetInformerSyncs and NewController of the four packages: Informers.antt has the caches that each
--   controller waits for and the listers over caches, Informers/Registration.antt the handlers that
--   it registers, with their filters. Controllers.antt has the handlers with their contexts.
-- - cmd/controller-manager.go: Program.antt is RunE with the start up to the four controllers, and
--   Program/Process.antt the process from there to its end, with the signals of main.go and the crash
--   that the panic of a handler makes, as a step relation over one Controller/Group.antt for each
--   controller. Program/Wired.antt and Program/Cached.antt follow the options to what the handlers
--   then do. cmd/leader-election.go is
--   Program/Election.antt up to the run of the elector, and Program/Elected.antt from there to the end
--   of the process. Program/Main.antt is main.go, from the options to one of the two processes or to
--   an exit.
-- - Turns.antt: the four controllers on one state. A turn is one whole run of a handler for a key, or
--   a change of the world from outside; turns follow each other in any order. Turns/Certificate.antt
--   follows a certificate from the Ingress to its secret; Turns/Settled.antt has a check between two
--   runs of Sync, Turns/Order.antt two keys in either order, Turns/Mirror.antt the keys of a list.
--   Turns/Logged.antt runs the handlers on calls that note their failures (Kube/Logged.antt).
-- - Overlap.antt: runs of the handlers that overlap. Before each call of a run the world may change,
--   as other workers change it (Overlap/Busy.antt); of the calls is used that they keep an invariant
--   (Kube/Guarded.antt), whether they succeed or fail.
--
-- State. The world outside is a type that the calls take and return: Kube/Api.antt lists the calls
-- of client-go and of the clusters that the code makes, as the fields of one record. Nothing is
-- assumed of them but what a theorem names: that they keep the laws of Kube/Laws.antt (reads and
-- ranges leave the clusters alone, a write that reports no error has happened, and an update that is
-- refused as a conflict has not), that the caches agree with the clusters, that the clusters fail for
-- what is missing, there already or outdated alone (Kube/Reliable.antt), that the API server keeps the
-- versions of the events (Kube/Versioned.antt), that every copy has annotations (Kube/Annotated.antt), that the domains are well configured
-- (Ingress/CopyTls/Order.antt), or that the filter of client-go works as documented
-- (Informers/Registration.antt). The clusters are seen as the tables of Kube/Store.antt.
-- Kube/Memory.antt is an instance that meets the laws; the tests run on it. Besides the world, the
-- handlers share the one IngressTemplate that cmd/controller-manager.go creates: Broker.antt.
--
-- Code that changes this state is a function from a state to an outcome and a state; an outcome is
-- a value or a panic (Base/Exec.antt). A Go error is an Option, a value with an error a Result. Nil
-- slices and maps are told apart from empty ones (Base/Slice.antt, Base/GoMap.antt); the order in
-- which Go ranges over a map is one of the calls. Each file keeps the branches and the order of
-- calls of its source. Event handlers return the keys that they add to the queue; the workers take
-- the answers of the queue's Get as a list and leave the calls that they make of the queue in a
-- trace.
--
-- Loops are recursion on the list that is ranged over. The loop that launches the workers has fuel
-- one above their number (launch_loop of Program.antt), which is enough since every pass counts i up.
-- Base/Decimal.antt prints a number with fuel one above it, which is enough since every step divides by ten; ParseInt wraps nothing, as it
-- refuses what 32 bits do not hold.
--
-- Not modelled: log lines; the creation of clients, queues, recorders and informers by client-go,
-- which are parameters; the protocol of the leader elector, of which is used what it documents of
-- its run and its callback; the parsing of the command line; of runs that overlap, the writes to
-- the template, but for the calls of Template/Calls.antt; the versions of objects, but for those of
-- events, which Sync of pkg/events writes more than once; the vendored libraries. An object has the
-- fields that the code reads or writes, and a DeepCopy is the value itself.
pub mod Base
pub mod Kube
pub mod Naming
pub mod Template
pub mod Broker
pub mod Filter
pub mod Cleanup
pub mod Ingress
pub mod Secret
pub mod Events
pub mod Cleaner
pub mod Queue
pub mod Controller
pub mod Turns
pub mod Overlap
pub mod Informers
pub mod Controllers
pub mod Options
pub mod Program
pub mod Tests
