-- ===== src/Lib.antt =====
-- The conditions, the reconciler and the release lookup of the VCluster provider for Cluster API.
--
-- The program watches VCluster objects. For each it installs a virtual cluster by helm, publishes
-- the kubeconfig of that cluster, asks it whether it is ready, and writes what it found into the
-- conditions, the phase and the status of the object. The parts and the files that model them:
--
--   api/v1alpha1                         Api/Condition, Api/VCluster
--   pkg/util/conditions/getter.go        Conditions/Getter, Conditions/Summary
--   pkg/util/conditions/merge.go         Conditions/Groups, Conditions/Merge
--   pkg/util/conditions/merge_strategies.go   Conditions/Merge
--   pkg/util/conditions/setter.go        Conditions/Setter, Conditions/Summary
--   pkg/util/conditions/patch.go         Conditions/Patch
--   pkg/util/patch                       Patching and the files below it
--   pkg/helm/secrets.go                  Helm/Secrets
--   pkg/helm/types.go, pkg/helm/time.go  Helm/Metadata, Helm/Time
--   pkg/helm/repository                  Helm/Archive, Helm/Index, Helm/Repository
--   pkg/compress                         Compress
--   pkg/helm/helm.go                     Helm/Options, Helm/Client, and the interface in Kube
--   pkg/constants                        Controllers/Redeploy
--   pkg/util/kubeconfighelper            KubeConfigHelper, over the types in Kube/Config
--   main.go                              Main, Controllers/Setup
--   controllers/vcluster_controller.go   Controllers and the files below it
--
-- A function keeps its name in snake_case, and a loop or a branch that is a function here says in
-- its comment which one it is. Conditions/Getter reads an object through its kind, its name and
-- its conditions; Conditions/Setter is an interface whose instance for a VCluster is in
-- Controllers/State. Runtime has errors and steps: a step takes a state to a result and a state,
-- and keeps what it wrote when it fails. Controllers/State pairs the world with the one object
-- that all parts of a reconciliation share by pointer, so that a write by one part is read by the
-- next.
--
-- Kube has the world as a record of calls: the API server, helm's storage, the disk, the clock
-- and the virtual cluster. It is a parameter of every step, and no law is assumed of it; a call
-- may answer differently each time. The decoders of the standard library are parameters in the
-- same way.
--
-- Choices of the model. Strings are Go's, compared byte by byte. A time is its nanoseconds since
-- Go's zero time. A sort is a stable insertion sort, which is what Go's does up to twelve
-- elements; the order on conditions is total on distinct types, so that the result does not depend
-- on the algorithm where each type occurs once. A nil slice is an empty list, except where the
-- code asks for nil. Messages are formatted by the caller. One reading of the clock serves one
-- `Apply`. A Go map is the list of its entries in the order in which it is walked. Ports are
-- natural numbers. Logging is left out.
--
-- The patch helper is an interface of the reconciler, in Patching/Options, which
-- Patching/Helper implements. A helper sees an object as the map of its top-level fields, whose
-- values, and the conversion to and from them, are the library's; so is the merge patch between
-- two objects.
--
-- Loops are recursions on lists. Two loops are those of the library around a closure of the program:
-- the backoff of the patch of the conditions is a recursion on its five steps, and the poll for the
-- service's host is one on the number of rounds, which the world names, since it is the library that
-- measures the 10 seconds; at 0 each ends with the library's timeout error.
--
-- Helm's client is an interface of the reconciler too, which Helm/Client implements over the calls of
-- the operating system. Its wait for a file is a recursion on the looks that fit into a minute.
--
-- Four parts are about a run as a whole. Controllers/Reconcile/Survives lists the writes of the
-- reconciler, so that what each write keeps, the run keeps. Controllers/Steady follows one thing of the
-- world over a run, and Controllers/Steady/Program is the reconciler with helm's client and the patch
-- helper of the program in place of the interfaces. Controllers/Lifecycle is a step relation on
-- objects: runs, whose status is stored or not, and writes of others. Controllers/Live has the calls
-- of a world that serves a run, and the steps that then succeed.
--
-- The chart repository client works over a record of the calls of the HTTP client, of gzip and of
-- YAML. A tar reader is the sequence of what it yields, which is finite, so that the loop over it is a
-- recursion. A panic at a nil pointer is `none`. Compress and Helm/Time are over records of the
-- standard library's calls; what it says of them is a record of laws, which the round trips assume.
--
-- Main has the exits of the program as errors: the first error ends it with status 1. The two clients
-- that pkg/helm/secrets.go can be made with are the constructors of a type.
--
-- Not modelled: what the helm binary does, the manager's own work, the registration of the types,
-- generated code and the tests.
pub mod Base
pub mod Api
pub mod Conditions
pub mod Runtime
pub mod Kube
pub mod KubeConfigHelper
pub mod Helm
pub mod Compress
pub mod Patching
pub mod Controllers
pub mod Main
pub mod Tests
