-- ===== src/Driver/Ioctl/Ends.antt =====
-- plx_ioctl.c: an ioctl returns.
use cjunk.Prelude.{ℕ, ◌≤◌, ◌≢◌, none, arith}
use cjunk.Driver.Defs.{Env}
use cjunk.Driver.Timer.{plx_diff_since_read}
use cjunk.Driver.CommandLink.{xl_init}
use cjunk.Driver.CommandLink.Waiting.{Clock, enough_fuel}
use cjunk.Driver.CommandLink.Ends.{immediate_cmd-Ends, write_reg-Ends, read_reg-Ends}
use cjunk.Driver.Request.{
  Cmd, User, State, Command, command, order_hw, read_plx_reg, write_plx_reg, fill_pci_mem,
  read_fpga_reg, write_fpga_reg, write_sram, read_command_link_reg, write_command_link_reg,
  immediate_command, driver_version, read_config_reg, unknown, word,
}
use cjunk.Driver.Ioctl.{
  order, order_case, dispatch, serve, take_argument, plx_drv_ioctl, link_read, link_write,
  immediate, send_immediate, reset_sequence,
}

module _ (e : Env) (fuel : ℕ) (h : enough_fuel ≤ fuel) (clock : Clock e) where
  send_immediate-ne-none : (s : State) → send_immediate e fuel s ≢ none
  unfolding send_immediate
  send_immediate-ne-none s = ground (arith, immediate_cmd-Ends e fuel h clock (word s 0) s.driver)

  order-ne-none : (n : ℕ) (s : State) → order e fuel n s ≢ none
  unfolding order reset_sequence
  order-ne-none n s =
      ground (arith, immediate_cmd-Ends e fuel h clock xl_init (record s.driver { seq_cntr = 0 }))

  dispatch-ne-none : (k : Command) (s : State) → dispatch e fuel k s ≢ none
  unfolding dispatch order_case link_read link_write immediate
  dispatch-ne-none read_command_link_reg s =
      ground (arith, read_reg-Ends e fuel h clock (word s 0) s.driver)
  dispatch-ne-none write_command_link_reg s =
      ground (arith, write_reg-Ends e fuel h clock (word s 0) (word s 1) s.driver)
  dispatch-ne-none immediate_command s = ground (
    arith,
    send_immediate-ne-none s,
    send_immediate-ne-none (record s { driver = (plx_diff_since_read e s.driver).1 }),
  )
  dispatch-ne-none order_hw s = ground (arith, order-ne-none (word s 0) s)
  dispatch-ne-none read_plx_reg s = ground arith
  dispatch-ne-none write_plx_reg s = ground arith
  dispatch-ne-none fill_pci_mem s = ground arith
  dispatch-ne-none read_fpga_reg s = ground arith
  dispatch-ne-none write_fpga_reg s = ground arith
  dispatch-ne-none write_sram s = ground arith
  dispatch-ne-none driver_version s = ground arith
  dispatch-ne-none read_config_reg s = ground arith
  dispatch-ne-none unknown s = ground arith

  -- Every ioctl returns, whatever the command and the state of the link: fuel for each cycle of the
  -- link's timeout is enough for each of its waits, on a cycle counter that goes on.
  pub plx_drv_ioctl-ne-none : (u : User) (c : Cmd) (s : State) → plx_drv_ioctl e fuel u c s ≢ none
  unfolding plx_drv_ioctl take_argument serve
  plx_drv_ioctl-ne-none u c s = ground (
    arith,
    dispatch-ne-none (command c) s,
    dispatch-ne-none (command c) (record s { localbuf = (u.from_user s.localbuf).1 }),
  )
