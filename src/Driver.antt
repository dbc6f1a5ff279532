-- ===== src/Driver.antt =====
-- kernel/device_driver/chardrv/plx: the Linux driver of the PEX 8311 frame grabber, as its Makefile
-- builds it (FASTER_CL, STEP_IN_INT and STEP_IN_INT_DPC defined; DMA1, DMA_DEBUG, ZERO not).
pub mod Defs
pub mod Held
pub mod Lease
pub mod Ring
pub mod Timer
pub mod Chip
pub mod Reset
pub mod Interrupt
pub mod Dma
pub mod CommandLink
pub mod Fops
pub mod Request
pub mod Ioctl
pub mod Module
pub mod Proc
pub mod Life
mod Tests
mod OpenTests
mod IoctlTests
mod ProcTests
mod LifeTests
