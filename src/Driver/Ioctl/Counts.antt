-- ===== src/Driver/Ioctl/Counts.antt =====
-- plx_ioctl.c: order 3, which reads the driver's counters and clears them.
use cjunk.Prelude.{
  ℕ, suc, ◌+◌, ◌≤◌, ◌<◌, ◌≡◌, refl, true, false, Option, some, List, [], ◌∷◌, arith, length, get_or,
  pos, ◌∙◌,
}
use cjunk.Driver.Defs.{Env, Counters}
use cjunk.Driver.Request.{Cmd, User, State, finish, command, device_driver_version, put, word}
use cjunk.Driver.Ioctl.{
  Reply, put_all, counter_words, no_counts, read_counters, order, order_case, dispatch, serve,
  take_argument, plx_drv_ioctl,
}
use cjunk.Driver.Ioctl.Buffer.{get_or-put_all, get_or-set_other}

-- _IOWR('k', 36, Container)
abbrev pub order_cmd : Cmd
order_cmd = record { magic = 107; nr = 36; size = 72; reads = true; writes = true }

pub put_all-driver : (i : ℕ) (vs : List ℕ) (s : State) → (put_all i vs s).driver ≡ s.driver
unfolding put_all
put_all-driver i [] s = refl
put_all-driver i (v ∷ vs) s = put_all-driver (suc i) vs (put i v s)

-- The state after order 3, and after the driver's version was written.
abbrev counted : State → State
counted s = put 1 device_driver_version (record (put_all 2 (counter_words s.driver.cntr) s) {
  driver = record s.driver { cntr = no_counts };
})

read_counters_lem :
    (e : Env) (fuel : ℕ) (s : State)
    → word s 0 ≡ 3
    → order_case e fuel s ≡ some (finish (pos 0), counted s)
unfolding order_case order read_counters
read_counters_lem e fuel s three = ground (arith, put_all-driver 2 (counter_words s.driver.cntr) s)

-- Every counter at 0.
abbrev pub cleared_counters : Counters
cleared_counters = record {
  irq_count = 0;
  irq_processed = 0;
  irq_none = 0;
  low_power_state = 0;
  pci_master_disabled = 0;
  failed_dma = 0;
  read = 0;
  poll = 0;
  to_user_space = 0;
  tmo_rdr = 0;
  tmo_tbe = 0;
  lost_ints = 0;
  circ_full_wp = 0;
  lost_hw_ints = 0;
  circ_full_ip = 0;
  circ_empty_rp = 0;
}

-- The answer to order 3: container->array begins at the third word of the buffer.
pub record Counted (s : State) (out : Option Reply) : Type 0 where
  pub answer : Reply
  pub words : List ℕ
  pub ends : out ≡ some answer
  pub success : answer.result ≡ pos 0
  pub copied : answer.copied ≡ some words
  pub array_0 : get_or words 2 0 ≡ s.driver.cntr.circ_empty_rp
  pub array_1 : get_or words 3 0 ≡ s.driver.cntr.irq_count
  pub array_2 : get_or words 4 0 ≡ s.driver.cntr.irq_processed
  pub array_3 : get_or words 5 0 ≡ s.driver.cntr.irq_none
  pub array_4 : get_or words 6 0 ≡ s.driver.cntr.low_power_state
  pub array_5 : get_or words 7 0 ≡ s.driver.cntr.pci_master_disabled
  pub array_6 : get_or words 8 0 ≡ s.driver.cntr.lost_ints
  pub array_7 : get_or words 9 0 ≡ s.driver.cntr.read
  pub array_8 : get_or words 10 0 ≡ s.driver.cntr.poll
  pub array_9 : get_or words 11 0 ≡ s.driver.cntr.failed_dma
  pub array_10 : get_or words 12 0 ≡ s.driver.cntr.circ_full_wp
  pub array_11 : get_or words 13 0 ≡ s.driver.cntr.circ_full_ip
  pub array_12 : get_or words 14 0 ≡ s.driver.cntr.to_user_space
  pub array_13 : get_or words 15 0 ≡ s.driver.cntr.tmo_rdr
  pub array_14 : get_or words 16 0 ≡ s.driver.cntr.tmo_tbe
  pub array_15 : get_or words 17 0 ≡ s.driver.cntr.lost_hw_ints
  pub cleared : answer.state.driver ≡ record s.driver { cntr = cleared_counters }

-- With a buffer that holds a Container with order 3, and user memory that can be accessed, ORDER_HW
-- returns 0 and copies back the sixteen counters, each at its place in container->array, and it sets
-- all of them to 0 and changes nothing else of the driver's state.
pub counters_read :
    (e : Env) (fuel : ℕ) (u : User) (s : State) {b : List ℕ}
    → u.access_ok ≡ true
    → u.to_user_fails ≡ false
    → u.from_user s.localbuf ≡ (false, b)
    → get_or b 0 0 ≡ 3
    → 18 ≤ length b
    → Counted s (plx_drv_ioctl e fuel u order_cmd s)
unfolding plx_drv_ioctl take_argument serve dispatch command
counters_read e fuel u s {b} access copies fed three long =
    let s1 = record s { localbuf = b } in
    let at : (j : ℕ)
        → j < 16
        → get_or (counted s1).localbuf (2 + j) 0 ≡ get_or (counter_words s.driver.cntr) j 0 =
      λ j h.
        get_or-set_other (put_all 2 (counter_words s.driver.cntr) s1).localbuf 1 (2 + j)
          device_driver_version (λ k. omega arith)
        ∙ get_or-put_all 2 j (counter_words s.driver.cntr) s1 (omega arith) (omega arith) in
    record {
      answer = record { result = pos 0; copied = some (counted s1).localbuf; state = counted s1 };
      words = (counted s1).localbuf;
      ends = ground (arith, fed, read_counters_lem e fuel s1 three);
      success = refl;
      copied = refl;
      array_0 = at 0 (omega arith);
      array_1 = at 1 (omega arith);
      array_2 = at 2 (omega arith);
      array_3 = at 3 (omega arith);
      array_4 = at 4 (omega arith);
      array_5 = at 5 (omega arith);
      array_6 = at 6 (omega arith);
      array_7 = at 7 (omega arith);
      array_8 = at 8 (omega arith);
      array_9 = at 9 (omega arith);
      array_10 = at 10 (omega arith);
      array_11 = at 11 (omega arith);
      array_12 = at 12 (omega arith);
      array_13 = at 13 (omega arith);
      array_14 = at 14 (omega arith);
      array_15 = at 15 (omega arith);
      cleared = refl;
    }
