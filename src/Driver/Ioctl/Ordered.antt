-- ===== src/Driver/Ioctl/Ordered.antt =====
-- plx_ioctl.c: what an ioctl does to the pointers of the frame ring.
use cjunk.Prelude.{
  ℕ, zero, suc, ◌+◌, ◌≡◌, refl, ap, Option-cases, some, arith, ℤ, pos, negsuc, inl, inr, ◌⊎◌,
}
use cjunk.Driver.Defs.{Env, Driver, Ring}
use cjunk.Driver.Held.{held, zeroed}
use cjunk.Driver.Timer.{
  plx_diff_since_read, plx_read_plx_reg, plx_write_plx_reg, plx_read_fpga_reg, plx_write_fpga_reg,
  plx_write_sram,
}
use cjunk.Driver.Reset.Frame.{board_reset-held}
use cjunk.Driver.CommandLink.{plx_immediate_cmd, plx_write_reg, plx_read_reg, xl_init}
use cjunk.Driver.CommandLink.Frame.{
  immediate_cmd-KeepsHeld, write_reg-KeepsHeld, read_reg-KeepsHeld,
}
use cjunk.Driver.Request.{
  Cmd, User, State, Flow, leave, finish, Command, command, order_hw, read_plx_reg, write_plx_reg,
  fill_pci_mem, read_fpga_reg, write_fpga_reg, write_sram, read_command_link_reg,
  write_command_link_reg, immediate_command, driver_version, read_config_reg, unknown, word,
}
use cjunk.Driver.Ioctl.{
  Reply, reply, dump_from, dump_one, read_counters, order, order_case, dispatch, serve,
  take_argument, plx_drv_ioctl, link_read, link_write, immediate, send_immediate, fill,
  reset_sequence, generate_interrupt, reset_pointers, counter_words,
}
use cjunk.Driver.Ioctl.Counts.{put_all-driver}

dump_from-held : (e : Env) (n i : ℕ) (s : State) → held (dump_from e n i s).driver ≡ held s.driver
unfolding dump_from
dump_from-held e zero i s = refl
dump_from-held e (suc n) i s = dump_from-held e n (i + 1) (dump_one e i s)

reset_sequence-held :
    (e : Env) (fuel : ℕ) (d : Driver) {r : Unit {0} × Driver}
    → reset_sequence e fuel d ≡ some r
    → held r.1 ≡ held d
unfolding reset_sequence
reset_sequence-held e fuel d h =
    let d0 = record d { seq_cntr = 0 } in
    elim (Option-cases (plx_immediate_cmd e fuel xl_init d0)) [
      | inl stuck ↦ ground arith
      | inr (r, done) ↦ ground (arith, immediate_cmd-KeepsHeld e fuel xl_init d0 r done)
    ]

order-held :
    (e : Env) (fuel n : ℕ) (s : State) {r : ℤ × State}
    → order e fuel n s ≡ some r
    → (held r.1.driver ≡ held s.driver) ⊎ (held r.1.driver ≡ (zeroed, s.driver.read_semph))
unfolding order read_counters reset_pointers generate_interrupt
order-held e fuel n s h = elim (Option-cases (reset_sequence e fuel s.driver)) [
  | inl stuck ↦ ground (
    arith,
    dump_from-held e 16 0 s,
    board_reset-held e s.driver,
    put_all-driver 2 (counter_words s.driver.cntr) s,
  )
  | inr (r, done) ↦ ground (
    arith,
    dump_from-held e 16 0 s,
    board_reset-held e s.driver,
    put_all-driver 2 (counter_words s.driver.cntr) s,
    reset_sequence-held e fuel s.driver done,
  )
]

link_read-held :
    (e : Env) (fuel : ℕ) (s : State) {out : Flow × State}
    → link_read e fuel s ≡ some out
    → held out.1.driver ≡ held s.driver
unfolding link_read
link_read-held e fuel s h = elim (Option-cases (plx_read_reg e fuel (word s 0) s.driver)) [
  | inl stuck ↦ ground arith
  | inr (r, done) ↦ ground (arith, read_reg-KeepsHeld e fuel (word s 0) s.driver r done)
]

link_write-held :
    (e : Env) (fuel : ℕ) (s : State) {out : Flow × State}
    → link_write e fuel s ≡ some out
    → held out.1.driver ≡ held s.driver
unfolding link_write
link_write-held e fuel s h =
    elim (Option-cases (plx_write_reg e fuel (word s 0) (word s 1) s.driver)) [
      | inl stuck ↦ ground arith
      | inr (r, done) ↦
          ground (arith, write_reg-KeepsHeld e fuel (word s 0) (word s 1) s.driver r done)
    ]

send_immediate-held :
    (e : Env) (fuel : ℕ) (s : State) {out : Flow × State}
    → send_immediate e fuel s ≡ some out
    → held out.1.driver ≡ held s.driver
unfolding send_immediate
send_immediate-held e fuel s h =
    elim (Option-cases (plx_immediate_cmd e fuel (word s 0) s.driver)) [
      | inl stuck ↦ ground arith
      | inr (r, done) ↦ ground (arith, immediate_cmd-KeepsHeld e fuel (word s 0) s.driver r done)
    ]

immediate-held :
    (e : Env) (fuel : ℕ) (s : State) {out : Flow × State}
    → immediate e fuel s ≡ some out
    → held out.1.driver ≡ held s.driver
unfolding immediate plx_diff_since_read
immediate-held e fuel s {out} h = ground (
  arith,
  send_immediate-held e fuel s {out = out},
  send_immediate-held e fuel (record s { driver = (plx_diff_since_read e s.driver).1 }) {out = out},
)

abbrev pub LeftOrZeroed : Command → Driver → Driver → Type 0
LeftOrZeroed k before after =
    (held after ≡ held before) ⊎ ((k ≡ order_hw) × (held after ≡ (zeroed, before.read_semph)))

dispatch-held :
    (e : Env) (fuel : ℕ) (k : Command) (s : State) {out : Flow × State}
    → dispatch e fuel k s ≡ some out
    → LeftOrZeroed k s.driver out.1.driver
unfolding dispatch order_case fill plx_read_plx_reg plx_write_plx_reg plx_read_fpga_reg
    plx_write_fpga_reg plx_write_sram
dispatch-held e fuel read_command_link_reg s h = inl (link_read-held e fuel s h)
dispatch-held e fuel write_command_link_reg s h = inl (link_write-held e fuel s h)
dispatch-held e fuel immediate_command s h = inl (immediate-held e fuel s h)
dispatch-held e fuel order_hw s h = elim (Option-cases (order e fuel (word s 0) s)) [
  | inl stuck ↦ ground arith
  | inr (r, done) ↦ ground (arith, order-held e fuel (word s 0) s done)
]
dispatch-held e fuel read_plx_reg s h = ground arith
dispatch-held e fuel write_plx_reg s h = ground arith
dispatch-held e fuel fill_pci_mem s h = ground arith
dispatch-held e fuel read_fpga_reg s h = ground arith
dispatch-held e fuel write_fpga_reg s h = ground arith
dispatch-held e fuel write_sram s h = ground arith
dispatch-held e fuel driver_version s h = ground arith
dispatch-held e fuel read_config_reg s h = ground arith
dispatch-held e fuel unknown s h = ground arith

reply-state : (u : User) (c : Cmd) (out : Flow × State) → (reply u c out).state ≡ out.1
reply-state u c (leave r, s) = refl
reply-state u c (finish (negsuc n), s) = refl
reply-state u c (finish (pos n), s) = ground arith

serve-held :
    (e : Env) (fuel : ℕ) (u : User) (c : Cmd) (s : State) {r : Reply}
    → serve e fuel u c s ≡ some r
    → LeftOrZeroed (command c) s.driver r.state.driver
unfolding serve
serve-held e fuel u c s h = elim (Option-cases (dispatch e fuel (command c) s)) [
  | inl stuck ↦ ground arith
  | inr (out, done) ↦ ground (arith, reply-state u c out, dispatch-held e fuel (command c) s done)
]

pub plx_drv_ioctl-held :
    (e : Env) (fuel : ℕ) (u : User) (c : Cmd) (s : State) {r : Reply}
    → plx_drv_ioctl e fuel u c s ≡ some r
    → LeftOrZeroed (command c) s.driver r.state.driver
unfolding plx_drv_ioctl take_argument
plx_drv_ioctl-held e fuel u c s {r} h = ground (
  arith,
  serve-held e fuel u c s {r = r},
  serve-held e fuel u c (record s { localbuf = (u.from_user s.localbuf).1 }) {r = r},
)

abbrev LeftOrReset : Command → Ring → Ring → Type 0
LeftOrReset k before after =
    (after ≡ before) ⊎ ((k ≡ order_hw) × (after ≡ record { rp = 0; wp = 0; ip = 0 }))

-- If the fuel is enough for the waits of the call, an ioctl leaves the three pointers of the ring as
-- they were, or is an ORDER_HW that sets them to 0.
plx_drv_ioctl-ring :
    (e : Env) (fuel : ℕ) (u : User) (c : Cmd) (s : State) {r : Reply}
    → plx_drv_ioctl e fuel u c s ≡ some r
    → LeftOrReset (command c) s.driver.ring r.state.driver.ring
plx_drv_ioctl-ring e fuel u c s {r} h = elim (plx_drv_ioctl-held e fuel u c s {r = r} h) [
  | inl same ↦ inl (ap (λ (p : Ring × ℕ). p.0) same)
  | inr (k, z) ↦ inr (k, ap (λ (p : Ring × ℕ). p.0) z)
]
