-- ===== src/Lib.antt =====
-- A model of nifi-operator, a Kubernetes operator for Apache NiFi, and theorems about it.
--
-- The program. The process (cmd/main.go, Command) reads its flags, prints its build
-- (internal/version/version.go, Version) or starts a manager with the controller. Reconcile
-- (internal/controller/nificluster_controller.go, Controller) reads a NifiCluster and lets the
-- cluster's reconciler (internal/controller/cluster/cluster.go, Cluster) register the
-- resources: the account of the pods, the role of the nodes, the sensitive key and, for NiFi 1.x, the
-- reporting task. The role (internal/controller/node/role.go, Node.Role) loads the authentication
-- (internal/common/security, Security) and registers for each role group a ConfigMap
-- (configmap.go, Node.ConfigMap, Node.Properties, Node.Bootstrap, Node.StateManagement), a
-- StatefulSet (statefulset.go, Node.StatefulSet) with the containers of git-sync
-- (internal/common/git_sync.go, GitSync), and a Service (service.go, Node.Service). The reporting
-- task (internal/controller/reporting_task, ReportingTask) is a Service for one pod and a Job that
-- calls NiFi through it. The secrets that the operator generates are in Security.Secrets and
-- Security.Password, sequences of their reconciliations in Security.Secrets.Runs. Api has the types of
-- api/v1alpha1.
--
-- How it is modelled. A function of the source has its name here, with underscores, and its methods
-- take the receiver as their last argument. A function that can fail or that follows a pointer which
-- may be nil gives a Result: a value, an error with its text, or a panic (Common). A loop is
-- recursion on the list that it runs over, so no fuel is needed; only the decimal digits of a number
-- (Common.Decimal) are made with fuel, the number's own value, which is enough since each step
-- divides by ten. A Go map is the list of its entries in the order in which a loop meets them.
-- Texts are native strings; the generated passwords are lists of bytes. No sum of machine integers
-- occurs in the program, so the native numbers and signed numbers without wrap-around stand for them.
--
-- A process that may exit (Command) gives its calls so far with a value or with an exit code; which
-- calls fail is a parameter.
--
-- Parameters. The library operator-go, the API server and the random bytes are arguments: the
-- records of OperatorGo have the library's constants, text helpers, secret volumes and images, its
-- properties file, the reads of the API server and the store of secrets, each with the laws that the
-- theorems rely on. Kube has the objects of Kubernetes with the fields that the program sets. Of a
-- container that the library builds, the arguments given to its builder are recorded; the library's
-- own step that turns them into a StatefulSet, which also applies the user's overrides, is a
-- parameter.
--
-- Not modelled: labels, annotations and owner references, which the program passes on unread (the
-- labels that the library gives to pods are a parameter where a Service selects by them);
-- logging; the parse of the command line; the generated copies and what the scheme's package does
-- to register a type; the charts and manifests. The encoding of a host in a URL follows Go's
-- net/url for the bytes of a host and a path (Common.Url), and path.Join is in Common.FilePath.
pub mod Common
pub mod Kube
pub mod Api
pub mod OperatorGo
pub mod GitSync
pub mod Security
pub mod Node
pub mod ReportingTask
pub mod Cluster
pub mod Controller
pub mod Version
pub mod Command
pub mod Tests
