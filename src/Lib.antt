-- ===== src/Lib.antt =====
-- cruiser is a control plane: it reads Terraform states and makes of them the routes of an HTTP and
-- gRPC router and the resources of an xDS server for Envoy.
--
-- State (pkg/state) is the core. Graph is dependency_graph.go: a map of nodes, its edges, and the
-- sort, whose `visit` has fuel for as many levels as there are nodes. Terraform is terraform.go.
-- Routes is routes.go: it stores the routes that a state declares, builds the graph of routes and
-- their parents, and gives them out sorted. Xds is xds.go: it stores the resources of five types and
-- sends each build to the linear caches, which are a parameter (Envoy); its Register serves them by
-- type. Manager is manager.go: the loop that fetches the states and lets a goroutine for each manager
-- read and build, as a step relation; its Rounds are what the loop does to the source and to the
-- managers, where the goroutines run one after the other. The order in which Go ranges over a map is
-- a parameter wherever it is used.
--
-- Server (pkg/server) answers requests. Lifecycle is server.go with its builder: a server that is
-- opened and closed, the goroutine that serves being the state of its channel. Router is router.go:
-- it makes routes of a mux, which is a parameter, from a configuration (Proto, the messages of
-- pkg/proto). Swap is swap_handler.go: the handler behind which the routers change. Grpc is grpc.go:
-- a flow that receives requests and one that sends responses, and the loop of `Handle` that waits for
-- both, given the list of the cases that its `select` takes; its Flows are the calls that the two
-- flows make of one backend, and its Goroutines those of the handler and the flows over their
-- channels, in every interleaving. The sending loop has fuel, since a backend may never end it. Codec
-- is grpc_codec.go.
--
-- Aws (pkg/providers/aws) is what the others are connected to. Provider is what the router is given
-- of provider.go. Checks are its health checks, with their channels and their wait group, as a step
-- relation, and Health is the check of a function, lambda/healthcheck.go. Lambda is
-- lambda/grpc_backend.go, the backend of the flows of Grpc, and HttpBackend is
-- lambda/http_backend.go. Tfstates is s3/tfstate_source.go, what the managers are built from.
-- Discovery is service_discovery/xds.go, which sets the endpoints of the state of Xds. The clients
-- of AWS are parameters, and so are JSON, base64 and metadata.
--
-- Commands is cmd, where the parts meet. Commands itself is root.go before a command runs: TLS or
-- not (Tls is pkg/tls, its Memory from_memory.go), where the states come from, the provider, and the server and the state manager
-- that a command makes of it. Flags are the flags with the keys that they are bound to, Presetting
-- is how root.go gives them the values of the environment, and Executing how it waits for a signal.
-- Routing is router.go: the loop that makes a router of each update of Routes and swaps it in. Xds is
-- xds.go, and Syncing its state manager over a bucket.
--
-- Base has what the parts share: maps as association lists, loops, errors and panics, and code that
-- changes a state and may end early. Functions that may end with an error or a panic are in `Run`.
-- A concurrent part has a relation `Step` of its own and its runs `Steps`.
--
-- Not modelled: the texts of errors, logging, time, contexts, the parsing of flags and of the
-- configuration file, which are calls of cobra and viper, and the clients of AWS with their
-- credentials.
pub mod Base
pub mod Proto
pub mod State
pub mod Server
pub mod Aws
pub mod Tls
pub mod Commands
