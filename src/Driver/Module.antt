-- ===== src/Driver/Module.antt =====
-- plx_driver.c: the life of the module and of its PCI device, from plx_drv_init_module and probe
-- to remove and plx_drv_exit_module.
pub mod Calls
pub mod Resources
pub mod Bars
pub mod Probe
pub mod Hotplug
pub mod Load
pub mod Leaks
mod Tests
