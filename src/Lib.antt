-- ===== src/Lib.antt =====
-- The operator of a cloud platform on Kubernetes: the parts of it that decide, with what makes
-- them correct.
--
-- The control loop (pkg/controller/cluster/onecloud_cluster_control.go) syncs the parts of a
-- cluster in a fixed order: configuration, certificates, etcd, then the components one by one,
-- then a group of components at once. A component (pkg/manager/component/component.go and
-- sync.go) is brought to its wanted state by comparing each of its Kubernetes objects with the
-- specification that the last write left in an annotation (utils.go). The etcd component
-- (pkg/manager/component/etcd.go) is an operator of its own: a loop that polls the pods of the
-- etcd cluster, keeps the set of its members (pkg/util/etcdutil/member.go), and adds, removes or
-- upgrades one member at a time.
--
-- Files. Exec: methods that mutate their receiver and return an error, as functions from a state
-- to an outcome (a value, an error, a panic) and a state; `annotate` is the wrapping of an
-- error, `ignore` a logged one. Etcd/Member, Etcd/PeerUrl, Etcd/MemberSet: member.go, one
-- function per method. Etcd/Types: the fields of types.go that the etcd manager uses.
-- Etcd/Manager: etcd.go, a module for the specification (getEtcdBackendQuotaSize, fixEtcdSize,
-- the defaults of Sync), the pods (pollPods, createPod, removePod, the status), the changes of
-- the membership (addOneMember, removeMember, cleanAllMembers, updateMembers, upgradeOneMember),
-- the reconciliation (reconcile, reconcileMembers), the setup (setup, create, startSeedMember,
-- sync), the services (createService) and the loop (run, Sync). Etcd/Membership states which
-- changes of the membership are allowed and shows that reconcile keeps to them and, round by
-- round, reaches the size that is asked for; Etcd/Behaviour holds what the other methods do.
-- Sync: the objects, the annotations, and the sync of each kind of object, of deployments, and
-- of a whole component (syncComponent, multiZoneSync); Held is the law of what the API server
-- keeps, and Maps, Converge, Redeploy, Services and Outside hold the theorems. Volumes:
-- VolumeHelper of utils.go. Control: the control loop, its check of the database's replication,
-- and the work queue. Writes: what the controls of pkg/controller hand to RetryOnConflict.
-- Defaults: defaults.go of pkg/apis/onecloud/v1alpha1, a module for the types, the images, the
-- parts, the tables that Go loops over, the specification, the cluster and the configuration;
-- Loops, Effects and Passes are the lemmas on writes to the fields of a struct, and Settled,
-- Twice, Again, Registry, Configured and Keys hold the theorems. Build: the builders that the
-- components share, a module for the labels, the names, the services, the resources, the
-- deployments, the cloud services and the other workloads; Rollout is the test of utils.go for a
-- finished rollout, and Selects, Limits, Files and Config hold the theorems. Tests: runs at
-- concrete inputs.
--
-- What is outside is a parameter. `Etcd.Api` and `Sync.Kube` list the calls of the API server,
-- of etcd and of encoding/json; nothing is assumed of their answers but where a theorem names
-- it. A Go map is the list of its entries, and the order of the list is the one in which Go
-- visits the map; the struct fields of one type that the defaults reach by a component's name
-- are a function from the name. A Go `int` that is a size is a natural number, an `int64` is its
-- bit pattern. The loop of `run` has no end: `run_for` makes a given number of rounds, and its
-- theorem holds for each number. The decimal numerals run on one more than the number, which has
-- fewer digits. Every other loop is over a list.
--
-- Not modelled: what the single components name (ports, files, configurations), certificates,
-- the sessions with the platform's own API, the SQL of the database helpers, the pod templates
-- and the defragmentation of etcd; and what decides nothing: generated code, vendored libraries,
-- commands.
pub mod Prelude
pub mod Exec
pub mod Etcd
pub mod Sync
pub mod Volumes
pub mod Build
pub mod Control
pub mod Writes
pub mod Defaults
pub mod Tests
