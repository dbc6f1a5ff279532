-- ===== src/Driver/Life/Overflow.antt =====
-- How an overflow of the frame ring takes the driver's semaphore (plx_interrupt.c, plx_fops.c).
use cjunk.Prelude.{
  ℕ, zero, suc, ◌+◌, ◌%◌, ◌≤◌, ◌<◌, ◌≡◌, ap, ◌∙◌, Bool, true, false, List, [], Option, none, some,
  ℤ, arith, if◌then◌else◌,
}
use cjunk.Prelude.Word.{has_bit}
use cjunk.Driver.Defs.{Env, Driver, Ring, Access}
use cjunk.Driver.Held.{held, kept}
use cjunk.Driver.Ring.{step_ip, step_wp, step_rp, is_readable}
use cjunk.Driver.Ring.Order.{distance, IsOrdered}
use cjunk.Driver.Interrupt.{plx_on_interrupt, plx_dpc_for_isr}
use cjunk.Driver.Interrupt.Kept.{
  or_same, finds_local, if_stepped, stepped, plx_on_interrupt-held, plx_dpc_for_isr-held,
}
use cjunk.Driver.Life.{Run}
use cjunk.Driver.Life.Safe.{lost_for_good}
use cjunk.Driver.Fops.{Wake, plx_drv_poll, plx_drv_read, efault}
use cjunk.Driver.Fops.Reading.{read_at_ip_locks, IsQuiet, read_ready}

-- The driver's state after a read that returns.
abbrev pub left_by : Driver → Option (ℤ × Driver) → Driver
left_by d none = d
left_by d (some (r, d')) = d'

abbrev pub after_read : Env → ℕ → Driver → Driver
after_read e len d = left_by d (plx_drv_read e true len [] d)

abbrev pub after_reads : Env → ℕ → ℕ → Driver → Driver
after_reads e len zero d = d
after_reads e len (suc n) d = after_reads e len n (after_read e len d)

-- The pointers with `rp` gone on by `n`.
abbrev gone_on : ℕ → Ring → Ring
gone_on n r = record r { rp = (r.rp + n) % 8 }

full_interrupt :
    (e : Env) (d : Driver) → step_ip d.ring ≡ none → kept (plx_on_interrupt e d).1 ≡ kept d
unfolding kept
full_interrupt e d full = by_test (finds_local e d) (plx_on_interrupt-held e d)
  where
    by_test :
        (b : Bool)
        → kept (plx_on_interrupt e d).1 ≡ (if b then stepped step_ip (kept d) else kept d)
        → kept (plx_on_interrupt e d).1 ≡ kept d
    by_test true h = h ∙ ap (λ (o : Option Ring). (or_same d.ring o, d.read_semph)) full
    by_test false h = h

-- `rp` can go on by `n` without passing `wp` or `ip`.
abbrev HasRoom : ℕ → Ring → Type 0
HasRoom n r =
    (r.rp < 8) × (r.wp < 8) × (r.ip < 8) × (n ≤ distance r.rp r.wp) × (n ≤ distance r.rp r.ip)

room-readable : (n : ℕ) (r : Ring) → HasRoom (suc n) r → is_readable r ≡ true
unfolding is_readable
room-readable n r room = ground arith

room-step_rp : (n : ℕ) (r : Ring) → HasRoom (suc n) r → step_rp r ≡ some (gone_on 1 r)
unfolding step_rp
room-step_rp n r room = ground arith

room-gone_on : (n : ℕ) (r : Ring) → HasRoom (suc n) r → HasRoom n (gone_on 1 r)
room-gone_on n r room = ground arith

gone_on-suc : (n : ℕ) (r : Ring) → HasRoom (suc n) r → gone_on n (gone_on 1 r) ≡ gone_on (suc n) r
gone_on-suc n r room = ground arith

module _ (e : Env) (quiet : IsQuiet e) (copies : (t : List Access) → e.copy_fails t ≡ false) where
  read_moves :
      (len : ℕ) (d : Driver) (s : Ring)
      → d.read_semph ≡ 1
      → is_readable d.ring ≡ true
      → step_rp d.ring ≡ some s
      → held (after_read e len d) ≡ (s, 1)
  read_moves len d s free ready go =
      let g = read_ready e true len [] d s quiet copies (omega arith) ready go in
      ap (λ (o : Option (ℤ × Driver)). held (left_by d o)) g.ends
      ∙ ground (arith, g.moved, g.released)

  reads_move :
      (len n : ℕ) (d : Driver)
      → d.read_semph ≡ 1
      → HasRoom n d.ring
      → held (after_reads e len n d) ≡ (gone_on n d.ring, 1)
  reads_move len zero d free room = ground arith
  reads_move len (suc n) d free room =
      let d' = after_read e len d in
      let moved =
        read_moves len d (gone_on 1 d.ring) free (room-readable n d.ring room)
          (room-step_rp n d.ring room) in
      let same_ring : d'.ring ≡ gone_on 1 d.ring = ap (λ (p : Ring × ℕ). p.0) moved in
      let still_free : d'.read_semph ≡ 1 = ap (λ (p : Ring × ℕ). p.1) moved in
      reads_move len n d' still_free (rw same_ring (room-gone_on n d.ring room))
      ∙ ap (λ (r : Ring). (r, 1)) (ap (gone_on n) same_ring ∙ gone_on-suc n d.ring room)

  reads_from :
      (len n : ℕ) (d : Driver) (r : Ring)
      → held d ≡ (r, 1)
      → HasRoom n r
      → held (after_reads e len n d) ≡ (gone_on n r, 1)
  reads_from len n d r h room =
      let at_r : d.ring ≡ r = ap (λ (p : Ring × ℕ). p.0) h in
      reads_move len n d (ap (λ (p : Ring × ℕ). p.1) h) (rw at_r room)
      ∙ ap (λ (s : Ring). (gone_on n s, 1)) at_r

  dpc_completes :
      (d : Driver)
      → has_bit d.source_ints 5 ≡ true
      → has_bit d.source_ints 6 ≡ false
      → kept (plx_dpc_for_isr e d).1 ≡ stepped step_wp (kept d)
  dpc_completes d five six =
      plx_dpc_for_isr-held e d
      ∙ ap (λ (c : Bool). if_stepped c (if_stepped (has_bit d.source_ints 5) (kept d))) six
      ∙ ap (λ (a : Bool). if_stepped a (kept d)) five

-- A ring that is full, with no transfer under way.
abbrev pub IsFull : Ring → Type 0
IsFull r = IsOrdered r × (distance r.rp r.ip ≡ 7) × (r.wp ≡ r.ip)

-- The pointers after a reader took a frame and `wp` was stepped.
abbrev passed : Ring → Ring
passed r = record { rp = (r.rp + 1) % 8; wp = (r.wp + 1) % 8; ip = r.ip }

full-room : (r : Ring) → IsFull r → HasRoom 1 r
full-room r (v, full, idle) = ground arith

full-step_ip : (r : Ring) → IsFull r → step_ip r ≡ none
unfolding step_ip
full-step_ip r (v, full, idle) = ground arith

full-step_wp : (r : Ring) → IsFull r → step_wp (gone_on 1 r) ≡ some (passed r)
unfolding step_wp
full-step_wp r (v, full, idle) = ground arith

passed-room : (r : Ring) → IsFull r → HasRoom 6 (passed r)
passed-room r (v, full, idle) = ground arith

passed-readable : (r : Ring) → IsFull r → is_readable (gone_on 6 (passed r)) ≡ true
unfolding is_readable
passed-readable r (v, full, idle) = ground arith

passed-step_rp : (r : Ring) → IsFull r → step_rp (gone_on 6 (passed r)) ≡ none
unfolding step_rp
passed-step_rp r (v, full, idle) = ground arith

-- An interrupt finds the ring full, a frame is read, the board's next interrupt tells the end of the
-- transfer, and the deferred procedure runs.
abbrev pub told : Env → ℕ → Driver → Driver
told e len d = (plx_on_interrupt e (after_read e len (plx_on_interrupt e d).1)).1

abbrev pub overflowed : Env → ℕ → Driver → Driver
overflowed e len d = (plx_dpc_for_isr e (told e len d)).1

module _ (e : Env) (quiet : IsQuiet e) (copies : (t : List Access) → e.copy_fails t ≡ false) where
  after_overflow :
      (len : ℕ) (d : Driver)
      → IsFull d.ring
      → d.read_semph ≡ 1
      → finds_local e (after_read e len (plx_on_interrupt e d).1) ≡ false
      → has_bit (told e len d).source_ints 5 ≡ true
      → has_bit (told e len d).source_ints 6 ≡ false
      → held (after_reads e len 6 (overflowed e len d)) ≡ (gone_on 6 (passed d.ring), 1)
  unfolding kept
  after_overflow len d full free end five six =
      let d1 = (plx_on_interrupt e d).1 in
      let d2 = after_read e len d1 in
      let d3 = (plx_on_interrupt e d2).1 in
      let d4 = (plx_dpc_for_isr e d3).1 in
      let h1 : held d1 ≡ (d.ring, 1) =
        full_interrupt e d (full-step_ip d.ring full) ∙ ap (λ (n : ℕ). (d.ring, n)) free in
      let h2 : held d2 ≡ (gone_on 1 d.ring, 1) =
        reads_from e quiet copies len 1 d1 d.ring h1 (full-room d.ring full) in
      let h3 : held d3 ≡ held d2 =
        plx_on_interrupt-held e d2
        ∙ ap (λ (b : Bool). if b then stepped step_ip (kept d2) else kept d2) end in
      let h4 : held d4 ≡ (passed d.ring, 1) =
        dpc_completes e quiet copies d3 five six
        ∙ ap (stepped step_wp) (h3 ∙ h2)
        ∙ ap (λ (o : Option Ring). (or_same (gone_on 1 d.ring) o, 1)) (full-step_wp d.ring full) in
      reads_from e quiet copies len 6 d4 (passed d.ring) h4 (passed-room d.ring full)

-- The overflow of the ring takes the semaphore for good. With no signal and user memory that can be
-- written, the semaphore's count at 1, and a ring that is full with no transfer under way: an interrupt
-- comes, a frame is read, an interrupt that brings no frame tells the end of a transfer on channel 0,
-- the deferred procedure runs, and six frames are read. Then the next read returns -EFAULT, and
-- after it, whatever calls are made of the driver, every read and every poll sleeps for good.
pub overflow_locks :
    (e : Env) (fuel len : ℕ) (d : Driver)
    → IsQuiet e
    → ((t : List Access) → e.copy_fails t ≡ false)
    → IsFull d.ring
    → d.read_semph ≡ 1
    → finds_local e (after_read e len (plx_on_interrupt e d).1) ≡ false
    → has_bit (told e len d).source_ints 5 ≡ true
    → has_bit (told e len d).source_ints 6 ≡ false
    → (d' : Driver) × (plx_drv_read e true len [] (after_reads e len 6 (overflowed e len d))
        ≡ some (efault, d'))
      × ((d'' : Driver)
          → Run e fuel d' d''
          → ((nonblock : Bool) (n : ℕ) (ws : List Wake) → plx_drv_read e nonblock n ws d'' ≡ none)
            × (plx_drv_poll e d'' ≡ none))
overflow_locks e fuel len d quiet copies full free end five six =
    let d5 = after_reads e len 6 (overflowed e len d) in
    let h = after_overflow e quiet copies len d full free end five six in
    let at_ip : d5.ring ≡ gone_on 6 (passed d.ring) = ap (λ (p : Ring × ℕ). p.0) h in
    let (d', returns, taken, _, _) =
      read_at_ip_locks e true len [] d5 quiet copies (ap (λ (p : Ring × ℕ). p.1) h)
        (rw at_ip (passed-readable d.ring full)) (rw at_ip (passed-step_rp d.ring full)) in
    (d', returns, λ d'' r. lost_for_good e fuel d' d'' quiet taken r)
