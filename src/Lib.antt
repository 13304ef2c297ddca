-- ===== src/Lib.antt =====
-- The NexentaStor block CSI driver: a container storage plug-in that makes volumes and snapshots on
-- NexentaStor appliances and answers the calls of Kubernetes.
--
-- The program. One process reads a YAML configuration of named NexentaStors (pkg/config/config.go)
-- and runs, by its role (pkg/driver/role.go), an identity server (pkg/driver/identityServer.go), a
-- controller server (pkg/driver/controllerServer.go) and a node server
-- (pkg/driver/nodeServer.go). They share one `*config.Config`; the controller and the node each keep
-- a map of resolvers beside it, one for each NexentaStor. A handler of the controller refreshes the
-- configuration, takes the volume ID apart (`configName:pool/group/volume`), resolves the appliance
-- that has the volume group (`resolveNS`), and calls the REST API of the appliance through the
-- library go-nexentastor. A handler of the node attaches the device of the volume and mounts it.
--
-- The files.
--   Base: tests, texts (a Go string is its list of bytes), association lists, `int64` and `int32`.
--   Exec: calls that return a value, return an error or panic, over a state; gRPC statuses.
--     Exec/Steps: calls in sequence.
--   FilePath: `filepath.Join` and `filepath.Dir`; FilePath/Plain: paths of ordinary names.
--   Role: pkg/driver/role.go (`Role`, `ParseRole`).
--   Arrays: pkg/arrays/arrays.go.
--   Config: pkg/config/config.go. Config/Defs has `Config` and `NsData`, Config/Pattern
--     `regexpAddress`, Config/Check `Validate`, Config/Reload `Refresh`; Config/Find
--     `findConfigFile`, `New` and `GetFilePath`, over a tree of files in the order of the walk.
--   Ns: the interface of go-nexentastor, which is not part of the repository: a record of calls on a
--     state of the world. Ns/Appliance states what the driver relies on of them: the documented
--     effects of the calls on the size and the mappings of a volume.
--   Csi: the requests and responses that the handlers read and write.
--   Process: the state of a process: the configuration, the resolvers, the world outside.
--     Process/Stays: calls that leave all but the world.
--   Identity: pkg/driver/identityServer.go.
--   Controller: pkg/driver/controllerServer.go. Controller/Connect has `refreshConfig`, `resolveNS`
--     and `NewControllerServer`; Controller/Request the parts of requests that handlers share;
--     Controller/Create `CreateVolume`; Controller/Volumes `DeleteVolume`, `ControllerExpandVolume`,
--     `ControllerPublishVolume`, `ControllerUnpublishVolume`, `ValidateVolumeCapabilities` and
--     `GetCapacity`; Controller/Snapshots `CreateSnapshot` and `DeleteSnapshot`; Controller/Listing
--     `ListSnapshots` and `ListVolumes`; Controller/Capabilities `ControllerGetCapabilities` and
--     `ControllerGetVolume`. Controller/Session runs the handlers over a sequence of requests, and
--     Controller/Store states a store of sizes that the operations on volumes refine.
--   Strconv: printing and parsing of numbers.
--   Node: pkg/driver/nodeServer.go. Node/Connect has `refreshConfig`, `resolveNS` and
--     `NewNodeServer`; Node/Context `ParseVolumeContext` with the node's name and host group;
--     Node/Target the choice of a target (`ResolveTargetGroup`, `CreateNewTargetTg`, `SetChapAuth`);
--     Node/Device `ConstructDevByPath` and `GetMountPointPermissions`; Node/System what the node uses
--     of its operating system; Node/Mount `mountVolume`, `NodePublishVolume` and
--     `NodeUnpublishVolume`, with Node/Mount/Placed for the
--     device that is mounted and Node/Mount/Sequence for sequences of the two handlers; Node/Stage `NodeStageVolume`; Node/Unstage `NodeUnstageVolume`;
--     Node/Growth `NodeExpandVolume` and `RescanDevice`; Node/Info `NodeGetInfo`,
--     `NodeGetCapabilities`, `NodeGetVolumeStats` and what is left of the helpers.
--     Ns/Iscsi has the calls of go-nexentastor that only the node makes.
--   Driver: pkg/driver/driver.go (`NewDriver`, `Validate`, `Run`).
--   Main: cmd/main.go, from the parsed options to the end of the program.
--   Lifecycle: what one handler makes and another one reads.
--   Tests: an appliance in memory, and the theorems at work on it.
--
-- How Go is read. A handler is a function from the state of the process to an outcome and the state
-- that it leaves; what was written before an error or a panic stays written. A nil pointer and a nil
-- interface are an `Option`. A Go map is an association list, and a range over it goes in the order
-- of the list, where Go's order is arbitrary; the theorems hold for every list. An error keeps its
-- code and its format string, without the arguments that are printed into it. `time.Time` is a
-- number. Log calls are left out, and so is the context of a call. `filepath` is that of Unix.
--
-- Fuel. Two waiting loops need it. That of `ControllerUnpublishVolume` ends within 60 rounds, since
-- the variable that Go compares with 60 starts at 2 and grows by one in each round. That of
-- `NodeStageVolume` doubles its sleep in each round, in `int64` nanoseconds; its number of rounds
-- is a parameter, and 34 are enough for a timeout of 0 to 2^33 - 1 seconds. Beyond it the sleep may wrap
-- around before it is over the timeout. Controller/Volumes/Waiting and Node/Stage/Await show it.
-- `collect`, a client that asks for page after page, is not part of the program.
--
-- What a call outside the repository does is a field of a record: `Ns` and `Iscsi` for
-- go-nexentastor, `Host` for the file and the YAML of the configuration, `System` and `NodeHost` for
-- the node's programs, mounts and files, `Net` for URLs, sockets and the gRPC server, `Licences` for
-- licences and clusters. A theorem names what it relies on of them as a record of laws.
--
-- Not modelled: the parsers of flags, URLs and YAML, gRPC and the NexentaStor API themselves, which are
-- such calls; the text of the log; the end-to-end tests of tests/; concurrent calls of handlers, which
-- the program does not synchronise.
pub mod Base
pub mod Exec
pub mod FilePath
pub mod Strconv
pub mod Role
pub mod Arrays
pub mod Config
pub mod Ns
pub mod Csi
pub mod Process
pub mod Identity
pub mod Controller
pub mod Node
pub mod Driver
pub mod Main
pub mod Lifecycle
mod Tests
