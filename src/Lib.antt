-- ===== src/Lib.antt =====
-- The agent scaler for Azure Pipelines on Kubernetes: a controller that reconciles a custom resource
-- `AutoScaledAgent`. Every few seconds it deletes agent pods that have ended, releases the claims of
-- pods that are gone, registers dummy agents so that Azure DevOps accepts jobs, asks for the pending
-- jobs, and creates or deletes agent pods for each entry of the resource.
--
-- The files and the code that they model, in the order in which `Reconcile` calls them:
--   Reconciler       internal/controller/autoscaledagent_controller.go: Reconcile, getAzurePat
--   AgentPods        the same file: getPodsWithPhases, deleteTerminatedAgentPods
--   Containers       the same file: terminateFinishedAgentPods; internal/service/utils.go:
--                    GetContainerStatusIndex, GetContainerSpecIndex
--   PvcRelease       deletePromisedAnnotationFromPvcs, HasPodPermanentlyDisappeared
--   AzureDevOps      GetPoolIdFromName, CreateOrUpdateDummyAgents, GetPendingJobs, DeleteAgent
--   AgentNames       getDummyAgentName, ComputeMapHash
--   AgentCollection  DeleteDeadDummyAgents
--   PendingJobsDump  PrintPendingJobsIfChanged
--   PendingJobs      internal/service/structs.go: PendingJobsWrapper, AddJobRequest, GetInexactMatch
--   RunningPods      RunningPodsWrapper, GetFilteredRunningPods, GetPodCountAndNames
--   Groups           what those two wrappers have in common
--   Capabilities     InexactMatchStringMap, GetSortedStringificationOfCapabilitiesMap,
--                    GetCapabilitiesMapFromString
--   IdlePods         getTerminateablePod, execCommandInPod
--   AgentCreation    createAgents, createAgent
--   ExtraContainers  ParseExtraAgentContainerDefinition
--   PvcAssignment    assignOrCreatePvcs
--   CacheVolumes     GetUnpromisedPvc, IsPvcLimitExceeded and what they use
--   Kube             the objects of the Kubernetes API, with the fields that are used, and
--                    api/v1/autoscaledagent_types.go
--   FakePlatform     fake_platform_server/server.go, structs.go and test_main.go: the server that
--                    the end-to-end tests use in place of Azure DevOps, as a state machine, and
--                    the start and the stop of its HTTP server, which is a parameter
--   FakeAgent        fake_agent/main.go and fake_agent/utils/fake_agent_utils.go: the agent that the
--                    end-to-end tests run against that server
--   World            the calls of the outside world and the package variables; Costs and Safe hold
--                    the rules by which what calls cost, and terms that an action keeps to, follow
--                    from its parts
-- Prelude, Text, GoMap and Go hold what Go itself has: numbers, strings as lists of code points, maps
-- as association lists, and functions that return an error or panic. Witnesses holds concrete inputs.
--
-- A function of the controller is a function from its arguments to an action on a `Memory`: the calls
-- made so far and the package variables. An action ends in a value, an error or a panic, and leaves a
-- memory in each case. The outside world is a parameter `Env`: its answer to a call may depend on all
-- calls so far, the order in which `range` visits a map is an answer too, and nothing is assumed of
-- it but what a theorem names. An object that an update fills in is the answer of that update.
-- A map of annotations without entries is nil, as the API server leaves it out, and a write to it panics.
--
-- The fake agent is an action on the list of its events, with a parameter `Machine` in the same way:
-- HTTP, files, processes and the clock. The loop of its `main` takes one unit of fuel for a pass, and
-- `none` says that the fuel has run out.
--
-- Loops are recursions on lists, and on the number of agents to create. The one other fuel is that of the
-- decimal digits of n, which has n + 1, while each digit divides n by ten. Numbers are natural numbers: the
-- schema of the resource keeps counts and durations at 0 or more, 32-bit counts wrap where the code
-- converts, and times are nanoseconds.
--
-- Not modelled: log lines, contexts, HTTP headers, the transport, JSON, gob and SHA-256 (parameters);
-- cmd/main.go and SetupWithManager, which only register; generated deep copies; closing
-- files and answers.
pub mod Prelude
pub mod Text
pub mod GoMap
pub mod Capabilities
pub mod Go
pub mod Kube
pub mod Groups
pub mod PendingJobs
pub mod RunningPods
pub mod World
pub mod AgentPods
pub mod Containers
pub mod IdlePods
pub mod CacheVolumes
pub mod PvcAssignment
pub mod PvcRelease
pub mod ExtraContainers
pub mod AgentCreation
pub mod AgentNames
pub mod AzureDevOps
pub mod AgentCollection
pub mod PendingJobsDump
pub mod Reconciler
pub mod FakePlatform
pub mod FakeAgent
pub mod Witnesses
