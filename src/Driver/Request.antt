-- ===== src/Driver/Request.antt =====
-- plx_drv.h and plx_ioctl.c: the requests of plx_drv_ioctl, and the state of a call. The static buffer
-- localbuf, which Register, Container and an unsigned long lie over, is a list of 32 bit words that
-- outlives the call; a long has 32 bits.
use cjunk.Prelude.{
  ℕ, ◌==◌, ℤ, negsuc, Bool, true, false, not, ◌&&◌, List, if◌then◌else◌, get_or, set,
}
use cjunk.Driver.Defs.{Driver}

-- The number `cmd`, in the fields that the _IOC macros take out of it.
pub record Cmd : Type 0 where
  pub magic : ℕ
  pub nr : ℕ
  pub size : ℕ
  pub reads : Bool  -- _IOC_READ
  pub writes : Bool  -- _IOC_WRITE

-- What the kernel's access to the caller's memory does: `from_user` gives whether the copy failed,
-- and the buffer after it.
pub record User : Type 0 where
  pub access_ok : Bool
  pub from_user : List ℕ → Bool × List ℕ
  pub to_user_fails : Bool

pub record State : Type 0 where
  pub driver : Driver
  pub localbuf : List ℕ

-- The end of a case: `leave` is a return, and `finish` a break with this retval.
pub data Flow : Type 0 where
  leave finish : ℤ → Flow

-- The commands that the switch knows.
pub data Command : Type 0 where
  read_plx_reg write_plx_reg fill_pci_mem read_fpga_reg write_fpga_reg write_sram : Command
  read_command_link_reg write_command_link_reg immediate_command order_hw : Command
  driver_version read_config_reg unknown : Command

abbrev pub mag_num : ℕ
mag_num = 107

abbrev pub ioc_maxnr : ℕ
ioc_maxnr = 52

abbrev pub ioc_bufsize : ℕ
ioc_bufsize = 128

abbrev pub device_driver_version : ℕ
device_driver_version = 0x081216

abbrev pub enotty : ℤ
enotty = negsuc 24

abbrev pub efault : ℤ
efault = negsuc 13

abbrev pub eio : ℤ
eio = negsuc 4

abbrev pub enoioctlcmd : ℤ
enoioctlcmd = negsuc 514

-- cmd == _IO..('k', nr, type)
abbrev is_cmd : Cmd → ℕ → ℕ → Bool → Bool → Bool
is_cmd c n size reads writes =
    c.nr == n
    && c.size == size
    && (if reads then c.reads else not c.reads)
    && (if writes then c.writes else not c.writes)

-- The labels of the switch. A Register has 8 bytes, a Container 72.
unfoldable pub command : Cmd → Command
command c =
    if is_cmd c 50 8 true true
    then read_plx_reg
    else if is_cmd c 51 8 false true
    then write_plx_reg
    else if is_cmd c 52 0 false false
    then fill_pci_mem
    else if is_cmd c 30 8 true true
    then read_fpga_reg
    else if is_cmd c 29 8 false true
    then write_fpga_reg
    else if is_cmd c 37 8 false true
    then write_sram
    else if is_cmd c 31 8 true true
    then read_command_link_reg
    else if is_cmd c 32 8 false true
    then write_command_link_reg
    else if is_cmd c 33 4 false true
    then immediate_command
    else if is_cmd c 36 72 true true
    then order_hw
    else if is_cmd c 28 8 true false
    then driver_version
    else if is_cmd c 27 8 true true
    then read_config_reg
    else unknown

-- reg->addr, container->order and *klong are word 0; reg->data and container->start_addr word 1.
abbrev pub word : State → ℕ → ℕ
word s i = get_or s.localbuf i 0

abbrev pub put : ℕ → ℕ → State → State
put i v s = record s { localbuf = set s.localbuf i v }
