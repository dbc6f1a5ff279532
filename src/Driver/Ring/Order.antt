-- ===== src/Driver/Ring/Order.antt =====
-- The order of the three ring pointers (plx_interrupt.c, plx_fops.c): going round from rp, first wp
-- and then ip. The frames from rp up to wp can be read, those from wp up to ip are being
-- transferred, and one buffer is always free.
use cjunk.Prelude.{ℕ, ◌+◌, ◌-◌, ◌%◌, ◌≤◌, ◌<◌, ◌≡◌, ◌≢◌, ◌↔◌, arith, none, some, true}
use cjunk.Driver.Defs.{Ring, no_of_buffers}
use cjunk.Driver.Ring.{advance, step_ip, step_wp, step_rp, is_readable}

-- How far `b` lies after `a` in the ring.
abbrev pub distance : ℕ → ℕ → ℕ
distance a b = (b + 8 - a) % 8

pub record IsOrdered (r : Ring) : Type 0 where
  pub rp_in : r.rp < no_of_buffers
  pub wp_in : r.wp < no_of_buffers
  pub ip_in : r.ip < no_of_buffers
  pub wp_between : distance r.rp r.wp ≤ distance r.rp r.ip

pub advance_lem : (p : ℕ) → p < 8 → advance p ≡ (p + 1) % 8
unfolding advance
advance_lem p h = ground arith

-- A full ring, in the words of the code: seven frames are held, so the next one has no buffer.
pub step_ip-full : (r : Ring) → IsOrdered r → (step_ip r ≡ none) ↔ (distance r.rp r.ip ≡ 7)
unfolding step_ip
step_ip-full r v = (λ h. ground arith, λ h. ground arith)

-- The interrupt handler's step keeps the order.
pub step_ip-IsOrdered : (r : Ring) {s : Ring} → IsOrdered r → step_ip r ≡ some s → IsOrdered s
unfolding step_ip
step_ip-IsOrdered r v h = ground arith

-- The step of `wp` keeps the order if a transfer was under way.
pub step_wp-IsOrdered :
    (r : Ring) {s : Ring} → IsOrdered r → r.wp ≢ r.ip → step_wp r ≡ some s → IsOrdered s
unfolding step_wp
step_wp-IsOrdered r v busy h = ground arith

-- With a transfer under way, the step of `wp` is always made.
pub step_wp_made : (r : Ring) → IsOrdered r → r.wp ≢ r.ip → step_wp r ≢ none
unfolding step_wp
step_wp_made r v busy h = ground arith

-- The reader's step keeps the order.
pub step_rp-IsOrdered :
    (r : Ring) {s : Ring} → IsOrdered r → is_readable r ≡ true → step_rp r ≡ some s → IsOrdered s
unfolding step_rp is_readable
step_rp-IsOrdered r v ready h = ground arith

-- What the comment "This should never occur!" of plx_drv_read says: in an ordered ring that has a
-- frame to read, the read pointer has not reached `ip`.
pub step_rp_made : (r : Ring) → IsOrdered r → is_readable r ≡ true → step_rp r ≢ none
unfolding step_rp is_readable
step_rp_made r v ready h = ground arith
