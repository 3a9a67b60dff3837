-- ===== src/Lib.antt =====
-- The container provisioner: a service that accepts a pod spec and the ports to expose, hardens the
-- spec, reserves node ports, runs the pod with a service on Kubernetes, and removes stacks that have
-- expired, that were deleted, or whose resources are gone.
--
-- The parts and the files that model them. Paths are from the repository's root.
--   internal/stack/models.go, errors.go      Models.antt, Errors.antt: the records, the enumerations
--       and the errors. Op.antt: an operation takes a world to a result and a world; what was
--       written before an error stays written.
--   internal/config/config.go                Config.antt: the records of the configuration.
--       Config/Load.antt: Load, validateConfig and the readers of the environment, in the order of the
--       source. Config/Reading.antt: what is read of each variable; Config/Sound.antt: what
--       validateConfig accepts.
--   internal/stack/dynamodb.go               Dynamo.antt and the files in Dynamo: DynamoRepository. Items
--       (attribute values and their readers), Codec (stackToItem, stackFromItem, jobToItem,
--       jobFromItem), Keys (keys and expressions), Failures (mapDynamoTxError, txConditionFailedAt),
--       Client (the calls of the SDK); Create, Get, Delete and the batch jobs are in Dynamo.antt itself,
--       ReserveNodePort, ReleaseNodePort and UpdateStatus in Dynamo/Ports.antt, ListAll and
--       UsedNodePortCount in Dynamo/Pages.antt. Dynamo/Table.antt states what the code relies on of
--       DynamoDB: a write is made when its condition holds, a transaction as a whole, a call that
--       fails may have been made; and the meaning of each expression that the code sends.
--       Dynamo/History.antt runs any sequence of calls; Dynamo/Refinement.antt compares each call with
--       an abstract table of the owners of the ports.
--   internal/stack/dynamodb_mock.go          Repository.antt: InMemoryRepository and its methods, one
--       function each, with the same name in snake case. Repository/History.antt runs any sequence of
--       calls: every method holds the lock, so interleaved clients are such a sequence.
--   internal/stack/validator.go              Validator.antt: ValidatePodSpec and its helpers, over the
--       pod types of Pod.antt.
--   internal/stack/kubernetes.go, kubernetes_mock.go   Kubernetes.antt: the structs of the client's
--       interface, and MockKubernetesClient with its methods.
--       The client of a real cluster is in Cluster.antt and the files in Cluster: Api (what it calls),
--       Provision (CreatePodAndService with its rollback, DeletePodAndService), Reads (the other
--       methods), Laws (what the code relies on of the cluster).
--   internal/stack/service.go                Service.antt: the interfaces RepositoryClientAPI and
--       KubernetesClientAPI as records of operations, and the Service over them. Its methods are in
--       Service/Provision.antt (Create), Service/Query.antt (RefreshStatus, Delete, ListAll, Stats and
--       the readers), Service/Batch.antt (batch deletion) and Service/Cleanup.antt
--       (CleanupExpiredAndOrphaned). They are stated over any world and any clients, so that what is
--       proved of them holds for any answers; where the clients matter, laws of the interface are a
--       record (PortLaws of Service/Ports.antt, Upholds of Service/Upholds.antt).
--   internal/stack/scheduler.go              Service/Schedule.antt: Scheduler.Run over the events that
--       its select receives.
--   internal/stack/factory.go, both mocks    Memory.antt: the service over the in-memory repository
--       and the simulated cluster. Memory/Laws.antt and Memory/History.antt relate them to those laws,
--       Memory/Deletion.antt is about a deletion.
--   internal/grpcserver/server.go, auth.go   Grpc/Wire.antt (messages and conversions),
--       Grpc/Server.antt (the handlers over StackService), Grpc/Auth.antt (the API key interceptor).
--   internal/http/handlers/handler.go, middleware/api_key.go   Http.antt: the handlers, writeError and
--       APIKeyAuth.
--   Base and its modules: tests, lists, association lists for Go's maps, texts, integers with the
--       wrap-around of int64 and int32. Tests: runs on small inputs.
--
-- How the model represents the program. Times are nanoseconds since the zero Time; a nil pointer is
-- `none`; a map is an association list in one of the orders in which Go may range over it; what the
-- clock, crypto/rand and math/rand return is a stream of the world or an argument. Log lines are left
-- out. The goroutine of a batch job is an operation that runs at any later time. Parameters are the
-- yaml and quantity libraries (KubeLibrary), status.FromContextError (GrpcLibrary), the metadata of a
-- call, the client of DynamoDB (DynamoClient), the API of a cluster (ClusterApi), the printing and
-- parsing of times (TimeLibrary), time.ParseDuration and strconv.ParseFloat (ParseLibrary), and what
-- os.Getenv returns.
--
-- Bounds. The loop of Create has two rounds, as in the source; the rounds of ReserveNodePort are the
-- size of the port range; the loops that read the pages of a query run for at most `rounds` pages, and
-- the theorems on them hold for any number of pages that is not larger. Every other loop runs over a
-- list, so no other function needs fuel but the printing of numbers, where a number n gets n + 1
-- digits at most.
--
-- Not modelled: the router, the static files and the log lines of the HTTP server, the construction of
-- the clients, the printing of the configuration for the log, the resource parsers of
-- internal/config/resources.go, which nothing calls, leader election, the scheduler's timer,
-- logging, and the start of the process. Cancellation of a context in the middle of an operation is
-- not modelled apart from the errors that a call may return.
pub mod Base
pub mod Cluster
pub mod Config
pub mod Dynamo
pub mod Errors
pub mod Grpc
pub mod Http
pub mod Kubernetes
pub mod Memory
pub mod Models
pub mod Op
pub mod Pod
pub mod Repository
pub mod Service
pub mod Tests
pub mod Validator
