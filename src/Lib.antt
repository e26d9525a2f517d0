-- ===== src/Lib.antt =====
-- The verification library of kagen, which runs coding agents in a local cluster and keeps their sessions.
--
-- The parts, as the program composes them: a workflow (internal/workflow) loads the configuration
-- (internal/config), finds the repository (internal/git), asks the table of agents (internal/agent) for
-- the one to run, records its steps with internal/diagnostics, checks images and the running pod with
-- internal/preflight, runs commands in the pod with internal/kubeexec, and keeps its sessions in
-- internal/session. What an agent may reach is internal/proxy's; errors are internal/errors'.
--
-- - Prelude: Go's texts, maps, paths, sorts and integers, and lemmas on lists, options and numbers.
-- - Errors (internal/errors/errors.go): error values as a tree. Errors.Exec has the monad of Go functions
--   with effects and an error; Errors.Inversion what a run without an error says of its parts.
-- - Proxy (internal/proxy), Kubeexec (internal/kubeexec/exec.go), Git (internal/git), Config
--   (internal/config/config.go and validate.go): one definition per function.
-- - Agent (internal/agent): the specifications (Agent), the shells (Agent.Shell), the base agent
--   (Agent.Base) and the registrations (Agent.Registry).
-- - Session (internal/session): the tables and what SQL does to them (Session.Tables), the store with its
--   one connection (Session.Store), one module per write (Session.Create, Session.Update,
--   Session.Attach), the join, the order and the scan of rows (Session.Rows) and the queries
--   (Session.Queries).
-- - Diagnostics (internal/diagnostics/operation.go): the recorder (Diagnostics.Recording) and the summary.
-- - Preflight (internal/preflight/preflight.go): the report (Preflight), the configuration
--   (Preflight.Checks) and the running pod (Preflight.Runtime).
-- - Workload (internal/workload/builder.go): the pod that is generated.
-- - Cluster (internal/cluster): the objects (Cluster.Objects) and the requests for them (Cluster.Api), the
--   loops that wait (Cluster.Polling), what is added to the generated pod (Cluster.Runtime), the
--   resources of a repository (Cluster.Kube, kube.go), its proxy (Cluster.Proxy, proxy.go) and the
--   port forward (Cluster.PortForward, portforward.go): the lines of kubectl (.Lines), the events of a
--   session as a step relation (.Steps) and the start (.Start).
-- - Forgejo (internal/forgejo): the sessions of a review (Forgejo), the questions over them
--   (Forgejo.Review, service.go), the import of a repository (Forgejo.Import, repo.go) and the objects
--   of the forge (Forgejo.Reconcile, reconcile.go).
--   Forgejo.Transports counts the port forwards that are open.
-- - Workflow (internal/workflow): pull.go (Workflow.Pull), open.go
--   (Workflow.Open, over the sessions of the forge in Workflow.Open.Transports), and of session.go the shared operations
--   (Workflow.Session), the capture of failures (Workflow.Capture), the attach workflow
--   (Workflow.Session.Attach) and the start workflow (Workflow.Session.Start).
-- - Tests: the theorems at concrete data.
--
-- State is passed explicitly: a store, a recorder, or a world `W` that the model does not look into, which
-- processes, clocks and dependencies change. What is not the program's code is a parameter: git and
-- kubectl, the file system, the formats of packages fmt and time, the SQL driver. SQL statements are
-- modelled by their meaning, and the API server by its requests on each kind of object. The loops that
-- wait until a deadline take fuel, a round for each pause that fits before the deadline and two more,
-- which is enough by Cluster.Polling; the wait of the forge, which the program does not bound, takes it
-- too, and the rounds up to the time at which its deployment is ready are enough; all other recursion is
-- structural. The lines of a port forward come in any order, one at a time. Times are nanoseconds from the
-- zero time; integers are unbounded, since the program only compares and prints them, but for the 64 bits
-- of a number that is read from a text. Locks are left out, since each operation on a locked table is one
-- step.
--
-- Not modelled: the command line (internal/cmd), the terminal (internal/ui), loading a configuration,
-- opening and migrating the database, and the parts that talk to a virtual machine or read the build
-- (internal/runtime, internal/provenance). Of internal/cluster, the report of diagnostics.go, of
-- internal/workflow, the doctor workflow, and of internal/diagnostics, the stored traces and artefacts,
-- are not modelled.
pub mod Cluster
pub mod Prelude
pub mod Errors
pub mod Proxy
pub mod Kubeexec
pub mod Forgejo
pub mod Git
pub mod Agent
pub mod Config
pub mod Session
pub mod Diagnostics
pub mod Preflight
pub mod Workload
pub mod Workflow
pub mod Tests
