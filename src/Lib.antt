-- ===== src/Lib.antt =====
-- kluctl: the core of deploying to a Kubernetes cluster (pkg/deployment/utils, pkg/deployment/commands,
-- pkg/validation, pkg/diff, pkg/k8s), and the documents and helpers it works on (pkg/utils/uo, pkg/utils,
-- pkg/types).
--
-- The parts, from the bottom up:
--   Prelude      shared helpers: Boolean tests, lists, association lists as maps and sets, results of
--                calls that may fail or panic, integers.
--   Types        Types/ObjectRef is pkg/types/k8s/ref.go, the identity of an object.
--   Utils        Utils/Inclusion is pkg/utils/inclusion.go, Utils/OrderedMap is
--                pkg/utils/ordered_map.go, Utils/Parse is pkg/utils/utils.go.
--   Uo           pkg/utils/uo: Value is a decoded document, Child one step into it (unstructured.go),
--                Nested the paths (nested_fields.go), Typed the getters by type, JsonPath the printer of
--                paths, K8s the fields of Kubernetes objects (k8s_fields.go), Merge is MergeMap (utils.go).
--                The source edits maps in place; an edit here returns the document after it.
--   K8s          pkg/k8s/k8s_cluster.go: the requests. The client and the server are one function that
--                answers a request in a world. K8s/Resources is pkg/k8s/resources.go. K8s/Requests has the
--                worlds that are reached by allowed requests.
--   Deployment   pkg/deployment/utils: Errors is errors_holder.go, Delete is delete_utils.go, Apply and
--                its children are apply_utils.go: Apply has the state of an `ApplyUtil` and what
--                records into it and `DeleteObject` (Apply/Deletions is about it), Apply/Object is
--                `ApplyObject` with its retries (Sending and Requests below it are about the requests
--                that these send), Apply/Wait is `WaitReadiness`, Apply/Hooks is hooks_util.go,
--                Apply/Item is `applyDeploymentItem`,
--                and Apply/Parallel is `ApplyDeployments` with its goroutines, semaphore and barriers, in which
--                an item may stay where it is for ever.
--                Remote is remote_objects_utils.go, with what every one of its steps keeps in
--                Remote/Stable. Diff is diff_utils.go, over a comparison of two objects that is a
--                parameter.
--   Validation   pkg/validation/validation.go: Flow has the results that `ValidateObject` collects and
--                the ways in which its code goes on (it continues, it returns, it raises
--                `validationFailed`, it panics), Status the closures that read the status of an object,
--                Percent its numbers, Kinds one function for each case of its switch, Object the function
--                with its recovery. Laws/Kept says when an assertion is kept by all of these, and the
--                other laws apply it.
--   Diff         pkg/diff: Diff/Obfuscate hides the values of secrets in an object (obfuscate.go).
--   Commands     pkg/deployment/commands: prune.go and delete.go up to their results, Validate is
--                validate.go, and Collect has the objects of a result (utils.go).
--   Tests        a small server, and the theorems at concrete inputs.
--
-- How they interact: `applyDeploymentItem` finds the hooks of an item, deletes, runs the hooks and
-- applies the objects one by one; each of these sends requests through `K8sCluster` and records their
-- results, errors and warnings in the `ApplyUtil`. Objects are a parameter there: what is used of them
-- is the record `ObjectApi`, whose getters are those that Uo/K8s models. A command gathers the remote
-- objects, lets FindObjectsForDelete of Deployment/Delete choose among them, asks for a confirmation and
-- deletes. What a command reads of the cluster is read of the world at its start.
--
-- Bounds: `WaitReadiness` runs on fuel, a number of rounds that is a parameter, with what its select
-- receives in each round; it is enough if the timer fires or the context is done in one of these rounds.
-- The polls of `waitForDeletedObject` are a number that stands for those that fit in before the context
-- is done; the last one ends the loop, so no number is too small. All other loops run over lists. The
-- weights of hooks are not bounded: they are 32-bit in the source and are never added. Numbers in a
-- status are 64-bit, and wrap around.
--
-- Not modelled: `ReplaceObject`; inside of `ApplyDeployments`, the actions of an item, which
-- interleave, are a parameter, while Apply/Item has them in their order for one item; the rest of
-- the deployment project, its templates and images; the commands deploy and diff, and the
-- comparison of two objects (pkg/diff); the resolution of conflicts of field managers, which is a
-- parameter of Deployment/Apply; the arithmetic of float32, which is a parameter of Validation; git, Helm,
-- secrets, variables, the controller, the web interface and the command line, which are input,
-- output and library calls. Status lines and traces are left out.
pub mod Prelude
pub mod Types
pub mod Utils
pub mod Uo
pub mod K8s
pub mod Deployment
pub mod Validation
pub mod Diff
pub mod Commands
pub mod Tests
