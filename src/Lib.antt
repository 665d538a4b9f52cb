-- ===== src/Lib.antt =====
-- A model of the 802.1X authenticator: the operator makes a DaemonSet of an `Authenticator`, whose
-- pods run hostapd and, beside it, a monitor. The monitor listens to hostapd's messages and to link
-- events and opens or shuts the port of each interface, by `tc` filters for the addresses of its
-- clients and by the VLAN and the link state of the VFs of an SR-IOV physical function (PF).
--
-- Files and code (paths from the repository's root):
-- - Base and its children: bytes of Go strings, `strings.Split`, `Join`, `TrimSpace`, `strconv.Atoi`
--   and `Itoa` on 64-bit numbers, maps as association lists, errors.
-- - Api: api/v1/authenticator_types.go.
-- - Host: the world outside. Netlink, `tc`, the file system, the socket of hostapd and the API server
--   are functions of the calls made so far; every call is written to a trace. Host/Views reads the
--   VLAN and the link state of a VF off the trace and states what is relied on: a link that is found
--   by name has this name, a range over a map visits its keys in some order, `RetryOnConflict` runs
--   its closure at least once and returns its last result (IsFaithful), and, where a theorem needs
--   it, a kernel that finds each link by its name
--   and takes every VLAN and link state (IsObliging). Host/Quiet: calls that set no VF.
-- - TrafficControl/Sriov and Sysfs: internal/trafficcontrol/sriov.go; TrafficControl/Tc and Init:
--   internal/trafficcontrol/tc.go.
-- - Hostap: pkg/hostap. Monitor (state, commands, events), Status (`updateInterfaceStatus`), Clients
--   (the handlers of authentication, link events and timeouts), Dispatch (`handleHostapdEvent` and
--   the parsing), Start (`StartMonitor`), Goroutines (the loops that it starts, woken in any order),
--   Stats (stats.go). The handlers hold `addrMutex`, so a run of the goroutines is a sequence of
--   steps (Dispatch/Safety, `Reach`). `StopMonitor` does not hold it: Clients has its two halves,
--   Clients/LateLeave a handler in between, and MonitorMain/Program what happens in general. Closing: the end of its subscription to link events.
-- - Netlink: pkg/netlink/eventhandle.go, as signals in the order in which its mutex lets them.
-- - Configgen: `Daemonset` of pkg/configgen/configgen.go. Configgen/Template: `ConfigMap`, with the text
--   that html/template makes of pkg/configgen/data/hostapd.conf.tmpl, written out line by line with its
--   comments. How html/template escapes what it inserts is a parameter, of which Escape says what is
--   relied on; Reader is how hostapd reads the text (empty lines and lines that start with `#` are ignored).
-- - MonitorMain: the arguments and the interfaces of monitor/main.go, and its `main`: as functions
--   (Startup, Shutdown, Program/Main) and, in Program, as a step relation (`Move`) over the interfaces
--   of the program, in which the goroutines of all monitors take their steps while `main` starts
--   further ones, waits for the signal and stops them. Program/Resource goes from the resource of the
--   operator to this program.
-- - K8s: internal/k8s/k8s.go, of whose clients only the failures count.
-- - Controllers: controllers. A step of the reconciler is a function of its memory and the requests
--   made so far; the API server, `SetControllerReference`, the comparison of specs, what html/template
--   answers and the reading of manifests are parameters (Kube, Manifests), of which Documented says
--   what is relied on. Reconcile is authenticator_controller.go, Setup its `SetupWithManager`, Assets
--   authenticator_resources.go, Operator main.go; Adds and Leaves are rules on which requests a step
--   makes.
-- - Examples: a machine, a resource, a monitor and an API server, on which the theorems are applied.
--
-- Loops are by recursion on the list that they visit; the infinite loops of the goroutines are the
-- relation `Reach`, and lists of wake-ups. Fuel is in two places: `Itoa`, where the number itself
-- is more than its digits, and `attachHostapd`, whose loop goes on while its writes time out: any
-- fuel above the number of those writes is enough, and where all of them time out the source's loop
-- is endless too.
--
-- In `Move` a handler and the set-up of a monitor are one step each, and so is each write of `ATTACH`.
-- `StopMonitor` holds no lock. As long as no handler of its own monitor meets it, it is three steps:
-- what it does before the end of the goroutines is asked for, the close of the connection, and the end
-- of the wait. Once one does, the slot is `disturbed` and the two make single calls in any order;
-- Clients/LateLeave is one such run.
--
-- Not modelled: logging (a copy of another project's package), registration with Prometheus and
-- client-go, generated code, the blocking of channels but for the end of a subscription, the deadlines
-- of sockets, calls of one handler in the middle of another monitor's, the HTTP server in the monitor's
-- `main`, the flags of the operator's. A signal is taken to come when all monitors have been started,
-- since `main` does not look for it earlier.
pub mod Base
pub mod Api
pub mod Host
pub mod TrafficControl
pub mod Hostap
pub mod Netlink
pub mod Configgen
pub mod MonitorMain
pub mod K8s
pub mod Controllers
pub mod Examples
