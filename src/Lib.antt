-- ===== src/Lib.antt =====
-- kubiq, a desktop client for Kubernetes clusters: a model of the logic of its front end and proofs
-- about it.
--
-- The program is a Go core (core/), which talks to the clusters, and a TypeScript front end
-- (frontend/src/), which asks the core for streams and requests, keeps what the views show, and
-- draws it. The modelled parts are the front end's own:
--   Yaml     the manifest editor. frontend/src/application/services/resourceYaml/models/YamlDiff.ts
--            is Yaml/Diff (compare, longestCommon, walk) and Yaml/Diff/Report (summary, hasChanges,
--            touchedLines, condense). YamlValue.ts beside it is Yaml/Value and YamlApplyPlanner.ts is
--            Yaml/Apply, with the body that ResourceYamlService.ts sends for a plan.
--   Logs     pod logs. frontend/src/application/services/podLogs/models/PodLogBuffer.ts is
--            Logs/Buffer, PodLogSession.ts beside it is Logs/Session, and
--            frontend/src/components/logs/PodLogLayout.ts is Logs/Layout. PodLogAnsi.ts beside that is
--            Logs/Ansi: the escape sequences of a line and its coloured runs.
--   Streams  the subscriptions to the core's events. Streams/Inbox is what the subscription classes
--            repeat: an id that comes late, held messages, an end. Streams/KubeStream is
--            infrastructure/entityRepo/kube/transport/KubeStreamSubscriptionBase.ts of frontend/src,
--            Streams/Channel and Streams/Forward are KubeChannelSubscription.ts and
--            KubeForwardSubscription.ts of its infrastructure/channel, Streams/Pty and
--            Streams/Process PtySubscription.ts and ProcessRun.ts of infrastructure/process, and
--            Streams/Download is infrastructure/download/DownloadRun.ts.
--   Watch    live lists. Watch/Scope and Watch/Session are ResourceWatchScope.ts and
--            ResourceWatchSession.ts of frontend/src/application/services/resourceWatch/models. A
--            session starts the scopes, a scope reads a stream and reports to the session.
--   Ui       Ui/Flash is frontend/src/components/common/table/UiFlashController.ts, which tints the
--            rows that a session's changes touched. Ui/Toast is
--            frontend/src/application/services/toast/ToastService.ts with
--            frontend/src/store/modules/toast/ToastStore.ts, the notifications, and Ui/Age is
--            frontend/src/components/common/time/UiAgeFormatter.ts.
--            Ui/RouteQuery is frontend/src/lib/router/query/RouteQueryState.ts, the fields of a view
--            that the address mirrors.
--   Resource Resource/Filter is frontend/src/components/resource/ResourceFilter.ts, the text and the
--            label selector above a list. Resource/Listing is ResourceListService.ts of
--            frontend/src/application/services/resourceList, the pages of a list put together, and
--            Resource/Store is ClusterResourceStore.ts of frontend/src/store/modules/clusterResource:
--            Store has applyChanges, Store/Lists its other operations, and Store/Live joins the store
--            with the sessions of Watch.
--   Kubeconfig
--            frontend/src/application/services/kubeconfig/KubeconfigService.ts: Kubeconfig/Locate finds
--            the files, Kubeconfig/Read merges them, Kubeconfig/Connect makes a connection of a
--            context. Kubeconfig/Document is KubeconfigEntityQuery.ts of
--            frontend/src/infrastructure/entityRepo/kubeconfig, which reads one file, and Kubeconfig has
--            the entities of frontend/src/domain/entities/kubeconfig. Calls that fail are an Outcome: a
--            value, an ApiError, or something else that was thrown.
--   Pod      Pod/Environment is frontend/src/domain/entities/workloads/PodEnvironmentPlan.ts, what the
--            environment of a pod's containers refers to, and Pod/Environment/Report is
--            PodEnvironmentReport.ts and PodEnvironmentSources.ts of
--            frontend/src/application/services/podEnvironment, which show it, secrets masked.
--            Service is PodEnvironmentService.ts there, and Copy PodEnvironmentText.ts.
--   PortForward
--            frontend/src/application/services/portForward: PortForward/Session is
--            models/PortForwardSession.ts with what PortForwardService.ts does with a session, and
--            PortForward/Target is models/PortForwardTarget.ts with the service's resolvePod and
--            resolveService. A check of a session waits for the cluster at up to four places, each a
--            phase of the model.
--   Cluster  Cluster/Failure is KubeFailureCatalog.ts and KubeNetworkFailure.ts of
--            frontend/src/domain/models/kube/failure, Cluster/Health is
--            frontend/src/infrastructure/kube/KubeHealthMonitor.ts with ClusterHealthCatalog.ts and
--            frontend/src/store/modules/clusterHealth/ClusterHealthStore.ts. A release of a connection
--            (frontend/src/infrastructure/entityRepo/kube/KubeContextProvider.ts) and the event that a
--            cluster is disconnected, which the store hears, are two reports of Cluster/Health/Reports.
--   Terminal frontend/src/application/services/terminal/models: TerminalBuffer.ts is
--            Terminal/Scrollback; TerminalSession.ts, ChannelTerminalSession.ts and
--            ChannelExitReason.ts are Terminal/Session.
-- Base holds what the parts share: Boolean tests, lists and their lengths over the native numbers,
-- strings as code units, counted loops, and JavaScript's Map as an association list.
--
-- A class is a record of its fields and a method a function from that record to the new one. What a
-- method calls outside of itself (a handler, a sink, the core, a timer, the event bus) is a value of
-- a list, in the order of the calls. A method that waits is split at the wait. Time is an argument.
-- A text is a list of code units where the code walks or measures it, and a String elsewhere.
-- Numbers are natural numbers: the code's counts, indexes and times are; where it subtracts below 0
-- the file says how that is written.
--
-- Loops that count are recursion on the rounds left, which the code's own bound gives: the shorter
-- document for the common prefix and suffix, both lengths for the walk through the table of the
-- diff, high - low for the binary search of the layout, the characters of a line for the scan of
-- its escape sequences, the digits of a number, and the toasts on screen for the trimming of them.
-- The theorems need no other bound.
--
-- Parameters stand for what is not in the repository: `decode` and `atob` for the browser's base64
-- decoder, `decode` and `finish` of Streams/Process for its TextDecoder, `lower` for its
-- toLowerCase, `trim` and `parse_json` for its trim and JSON.parse, `number` of Logs/Ansi for its
-- Number, `same` of Yaml/Value for `===` on numbers and booleans. Yaml/Apply/Merge has the
-- cluster's merge patch as an interface with the laws of RFC 7386. `equality`, `set`, `exists` and
-- `lower` of Resource/Filter are its regular expressions and toLowerCase, `date_parse` of Ui/Age
-- is Date.parse, `normal` of PortForward/Target is trim, the digit test and Number on a port's
-- text. `key_of` of Resource/Store is KubeObjectKey.of, `of_cluster` the test of a key's prefix,
-- and `kept` of Ui/RouteQuery what a field reads after a write. `disk`, `stat` and `list` of
-- Kubeconfig are the file system, `parse` the YAML parser, `served` and `ask` of Pod the cluster,
-- `from_base64` and `b64_to_string` the base64 decoder, and `follows` localeCompare. Ids that are
-- drawn at random are arguments. The file system, the environment and the cluster answer the same
-- question alike during one call; vue-router makes the address what it is given. Not modelled: the Go core, the Vue components and the other
-- stores, the bindings that the build generates, and the front end's services that only compose
-- calls.
pub mod Base
pub mod Yaml
pub mod Logs
pub mod Streams
pub mod Watch
pub mod Ui
pub mod Cluster
pub mod Terminal
pub mod PortForward
pub mod Resource
pub mod Kubeconfig
pub mod Pod
