-- ===== src/TrafficControl.antt =====
-- internal/trafficcontrol: the VFs of a physical function (sriov.go) and the `tc` filters (tc.go).
pub mod Sriov
pub mod Sysfs
pub mod Tc
pub mod Init
