-- ===== src/Driver/Ioctl.antt =====
-- plx_ioctl.c: plx_drv_ioctl. The tests of the functions that always return 0 are left out, and so
-- are prints. `none` is the command link's: its fuel ran out.
pub mod Buffer
pub mod Counts
pub mod Ordered
pub mod Ends
use cjunk.Prelude.{
  ℕ, zero, suc, ◌+◌, ◌*◌, ◌==◌, leb, ltb, ℤ, pos, negsuc, Bool, true, false, not, ◌&&◌, ◌||◌,
  Option, none, some, List, [], ◌∷◌, if◌then◌else◌, get_or, set,
}
use cjunk.Prelude.Word.{u16, u32, set_bit}
use cjunk.Driver.Defs.{
  Env, Driver, Counters, M, emit, reg_read, command_link_read, command_link_write, mem_set, board,
  pci_config, pci_mc_card_status,
}
use cjunk.Driver.Timer.{
  plx_read_fpga_reg, plx_write_fpga_reg, plx_write_sram, plx_read_plx_reg, plx_write_plx_reg,
  plx_diff_since_read,
}
use cjunk.Driver.Reset.{plx_board_reset}
use cjunk.Driver.CommandLink.{
  W, plx_read_reg, plx_write_reg, plx_immediate_cmd, xl_exec, xl_nop, xl_init, xl_stop,
}
use cjunk.Driver.Request.{
  Cmd, Command, Flow, State, User, command, device_driver_version, driver_version, efault, eio,
  enoioctlcmd, enotty, fill_pci_mem, finish, immediate_command, ioc_bufsize, ioc_maxnr, leave,
  mag_num, order_hw, put, read_command_link_reg, read_config_reg, read_fpga_reg, read_plx_reg,
  unknown, word, write_command_link_reg, write_fpga_reg, write_plx_reg, write_sram,
}

-- A case that reads a register into reg->data.
abbrev read_into_data : M ℕ → State → Option (Flow × State)
read_into_data m s =
    let (v, d) = m s.driver in some (finish (pos 0), put 1 v (record s { driver = d }))

-- A case that calls a function for its effect on the driver.
abbrev perform : {A : Type 0} → M A → State → Option (Flow × State)
perform m s = some (finish (pos 0), record s { driver = (m s.driver).1 })

-- memset_io(dev->PciBar[2].pVa + 0x2000 * k, ..., DMA_SIZE/4): pVa is a U32 *, so that 0x2000 are
-- 0x8000 bytes.
fill : M (Unit {0})
fill d =
    let d1 = (emit (mem_set 0 0x11 524288) d).1 in
    let d2 = (emit (mem_set 0x8000 0x22 524288) d1).1 in
    let d3 = (emit (mem_set 0x10000 0x33 524288) d2).1 in emit (mem_set 0x18000 0x44 524288) d3

link_read : Env → ℕ → State → Option (Flow × State)
link_read e fuel s = elim (plx_read_reg e fuel (word s 0) s.driver) [
  | none ↦ none
  | some ((r, some v), d) ↦ some (finish (pos 0), put 1 v (record s { driver = d }))
  | some ((r, none), d) ↦ some (leave eio, record s { driver = d })
]

link_write : Env → ℕ → State → Option (Flow × State)
link_write e fuel s = elim (plx_write_reg e fuel (word s 0) (word s 1) s.driver) [
  | none ↦ none
  | some (pos zero, d) ↦ some (finish (pos 0), record s { driver = d })
  | some (r, d) ↦ some (leave eio, record s { driver = d })
]

-- if((plx_immediate_cmd(dev, *klong) == 0)) {} else retval = -EIO;
send_immediate : Env → ℕ → State → Option (Flow × State)
send_immediate e fuel s = elim (plx_immediate_cmd e fuel (word s 0) s.driver) [
  | none ↦ none
  | some (pos zero, d) ↦ some (finish (pos 0), record s { driver = d })
  | some (r, d) ↦ some (finish eio, record s { driver = d })
]

-- The switch on *klong. XL_EXEC reads the microsecond counter first.
immediate : Env → ℕ → State → Option (Flow × State)
immediate e fuel s =
    if word s 0 == xl_exec
    then send_immediate e fuel (record s { driver = (plx_diff_since_read e s.driver).1 })
    else if word s 0 == xl_nop || word s 0 == xl_init || word s 0 == xl_stop
    then send_immediate e fuel s
    else some (finish efault, s)

-- tmp = SRAM_READ(dev, start_addr + i*4); array[i] = tmp;
abbrev pub dump_one : Env → ℕ → State → State
dump_one e i s =
    let (v, d) = reg_read e board (u32 (word s 1 + i * 4)) s.driver in
    put (2 + i) v (record s { driver = d })

-- for (i = 0; i < 16; i++), with `n` rounds left.
dump_from : Env → ℕ → ℕ → State → State
dump_from e zero i s = s
dump_from e (suc n) i s = dump_from e n (i + 1) (dump_one e i s)

-- container->array[0] to container->array[15], of the counters.
abbrev pub counter_words : Counters → List ℕ
counter_words c =
    c.circ_empty_rp ∷ c.irq_count ∷ c.irq_processed ∷ c.irq_none ∷ c.low_power_state
    ∷ c.pci_master_disabled ∷ c.lost_ints ∷ c.read ∷ c.poll ∷ c.failed_dma ∷ c.circ_full_wp
    ∷ c.circ_full_ip ∷ c.to_user_space ∷ c.tmo_rdr ∷ c.tmo_tbe ∷ c.lost_hw_ints ∷ []

-- container->array[i] = v, from `i` on.
pub put_all : ℕ → List ℕ → State → State
put_all i [] s = s
put_all i (v ∷ vs) s = put_all (suc i) vs (put i v s)

abbrev pub no_counts : Counters
no_counts = record {
  irq_count = 0;
  irq_processed = 0;
  irq_none = 0;
  low_power_state = 0;
  pci_master_disabled = 0;
  failed_dma = 0;
  read = 0;
  poll = 0;
  to_user_space = 0;
  tmo_rdr = 0;
  tmo_tbe = 0;
  lost_ints = 0;
  circ_full_wp = 0;
  lost_hw_ints = 0;
  circ_full_ip = 0;
  circ_empty_rp = 0;
}

read_counters : State → State
read_counters s =
    let s1 = put_all 2 (counter_words s.driver.cntr) s in
    record s1 { driver = let d = s1.driver in record d { cntr = no_counts } }

-- Order 0xc: the result of plx_immediate_cmd is not looked at.
reset_sequence : Env → ℕ → W (Unit {0})
reset_sequence e fuel d = elim (plx_immediate_cmd e fuel xl_init (record d { seq_cntr = 0 })) [
  | none ↦ none
  | some (r, d') ↦ some (tt, d')
]

-- Order 0xd.
generate_interrupt : Env → M (Unit {0})
generate_interrupt e d =
    let (v, d1) = command_link_read e pci_mc_card_status d in
    command_link_write pci_mc_card_status (set_bit v 29) d1

reset_pointers : M (Unit {0})
reset_pointers d = (tt, record d { ring = record { rp = 0; wp = 0; ip = 0 } })

abbrev set_debug : Bool → M (Unit {0})
set_debug b d = (tt, record d { debug = b })

-- The switch on container->order, without DMA_DEBUG: the retval it leaves.
order : Env → ℕ → ℕ → State → Option (ℤ × State)
order e fuel n s =
    let by : M (Unit {0}) → Option (ℤ × State) =
      λ m. some (pos 0, record s { driver = (m s.driver).1 }) in
    if n == 0x1
    then some (pos 0, dump_from e 16 0 s)
    else if n == 0x2
    then some (pos 0, record s { driver = (plx_board_reset e s.driver).1 })
    else if n == 0x3
    then some (pos 0, read_counters s)
    else if n == 0x4 || n == 0x5
    then some (pos 0, s)
    else if n == 0x9
    then by reset_pointers
    else if n == 0xa
    then by (set_debug false)
    else if n == 0xb
    then by (set_debug true)
    else if n == 0xc
    then elim (reset_sequence e fuel s.driver) [
      | none ↦ none
      | some (u, d) ↦ some (pos 0, record s { driver = d })
    ]
    else if n == 0xd
    then by (generate_interrupt e)
    else some (efault, s)

-- ORDER_HW has no break: it goes on into DRIVER_VERSION.
order_case : Env → ℕ → State → Option (Flow × State)
order_case e fuel s = elim (order e fuel (word s 0) s) [
  | none ↦ none
  | some (r, s') ↦ some (finish r, put 1 device_driver_version s')
]

-- The switch on cmd.
dispatch : Env → ℕ → Command → State → Option (Flow × State)
dispatch e fuel read_plx_reg s = read_into_data (plx_read_plx_reg e (word s 0)) s
dispatch e fuel write_plx_reg s = perform (plx_write_plx_reg (word s 0) (word s 1)) s
dispatch e fuel fill_pci_mem s = perform fill s
dispatch e fuel read_fpga_reg s = read_into_data (plx_read_fpga_reg e (word s 0)) s
dispatch e fuel write_fpga_reg s = perform (plx_write_fpga_reg (word s 0) (word s 1)) s
dispatch e fuel write_sram s = perform (plx_write_sram (word s 0) (word s 1)) s
dispatch e fuel read_command_link_reg s = link_read e fuel s
dispatch e fuel write_command_link_reg s = link_write e fuel s
dispatch e fuel immediate_command s = immediate e fuel s
dispatch e fuel order_hw s = order_case e fuel s
dispatch e fuel driver_version s = some (finish (pos 0), put 1 device_driver_version s)
dispatch e fuel read_config_reg s = read_into_data (reg_read e pci_config (u16 (word s 0))) s
dispatch e fuel unknown s = some (leave enoioctlcmd, s)

-- What the caller gets: the result, and the buffer if it was copied to user memory.
pub record Reply : Type 0 where
  pub result : ℤ
  pub copied : Option (List ℕ)
  pub state : State

abbrev pub fail : ℤ → State → Reply
fail r s = record { result = r; copied = none; state = s }

-- The copy to user space, and the return.
abbrev reply : User → Cmd → Flow × State → Reply
reply u c (leave r, s) = fail r s
reply u c (finish (negsuc n), s) = fail (negsuc n) s
reply u c (finish (pos n), s) =
    if c.reads && leb c.size ioc_bufsize
    then (if u.to_user_fails
        then fail efault s
        else record { result = pos n; copied = some s.localbuf; state = s })
    else fail (pos n) s

-- From the copy into localbuf on.
serve : Env → ℕ → User → Cmd → State → Option Reply
serve e fuel u c s = elim (dispatch e fuel (command c) s) [
  | none ↦ none
  | some out ↦ some (reply u c out)
]

take_argument : Env → ℕ → User → Cmd → State → Option Reply
take_argument e fuel u c s =
    if c.writes && leb c.size ioc_bufsize
    then (let (failed, b) = u.from_user s.localbuf in
        if failed
        then some (fail efault (record s { localbuf = b }))
        else serve e fuel u c (record s { localbuf = b }))
    else serve e fuel u c s

pub plx_drv_ioctl : Env → ℕ → User → Cmd → State → Option Reply
plx_drv_ioctl e fuel u c s =
    if not (c.magic == mag_num)
    then some (fail enotty s)
    else if ltb ioc_maxnr c.nr
    then some (fail enotty s)
    else if (c.reads || c.writes) && not u.access_ok
    then some (fail efault s)
    else take_argument e fuel u c s
