-- ===== src/Driver/Proc/Kept.antt =====
-- plx_proc.c: a read of the proc file has no effect on the frame ring and the semaphore.
use Prim.Native.String.{String}
use cjunk.Prelude.{ℕ, List, [], ◌∷◌, some, refl, ◌≡◌, arith}
use cjunk.Driver.Defs.{Env, Driver}
use cjunk.Driver.Held.{held}
use cjunk.Driver.Timer.{plx_read_fpga_reg}
use cjunk.Driver.CommandLink.{lift, plx_read_reg}
use cjunk.Driver.CommandLink.Frame.{
  KeepsHeld, lift-KeepsHeld, then-KeepsHeld, value-KeepsHeld, read_reg-KeepsHeld,
}
use cjunk.Driver.Proc.{
  Stack, fpga_rows, read_temp, link_rows, cs_section, mb_section, registers, joined, finish,
  plx_read_procmem,
}
use cjunk.Driver.Proc.Tables.{cs_rows, dc_rows, mb_rows}

module _ (e : Env) (fuel : ℕ) where
  fpga_rows-held :
      (rows : List (ℕ × String)) (temp : ℕ) (d : Driver) → held (fpga_rows e rows temp d).1 ≡ held d
  unfolding fpga_rows plx_read_fpga_reg
  fpga_rows-held [] temp d = refl
  fpga_rows-held ((a, s) ∷ rows) temp d =
      let (v, d1) = plx_read_fpga_reg e a d in fpga_rows-held rows v d1

  cs_section-held : (d : Driver) → held (cs_section e d).1 ≡ held d
  unfolding cs_section plx_read_fpga_reg
  cs_section-held d =
      let (v0, d1) = plx_read_fpga_reg e 0x0 d in
      let (v, d2) = plx_read_fpga_reg e 0x4 d1 in fpga_rows-held cs_rows v d2

  read_temp-KeepsHeld : (a temp : ℕ) → KeepsHeld (read_temp e fuel a temp)
  unfolding read_temp
  read_temp-KeepsHeld a temp =
      then-KeepsHeld (plx_read_reg e fuel a) _ (read_reg-KeepsHeld e fuel a)
        (λ r. value-KeepsHeld _)

  link_rows-KeepsHeld :
      (rows : List (ℕ × String)) (temp : ℕ) → KeepsHeld (link_rows e fuel rows temp)
  unfolding link_rows
  link_rows-KeepsHeld [] temp = value-KeepsHeld _
  link_rows-KeepsHeld ((a, s) ∷ rows) temp =
      then-KeepsHeld (read_temp e fuel a temp) _ (read_temp-KeepsHeld a temp) (λ v.
        then-KeepsHeld (link_rows e fuel rows v) _ (link_rows-KeepsHeld rows v)
          (λ r. value-KeepsHeld _))

  mb_section-KeepsHeld : (temp : ℕ) → KeepsHeld (mb_section e fuel temp)
  unfolding mb_section
  mb_section-KeepsHeld temp =
      then-KeepsHeld (read_temp e fuel 0x20 temp) _ (read_temp-KeepsHeld 0x20 temp) (λ cmd.
        then-KeepsHeld (read_temp e fuel 0x21 cmd) _ (read_temp-KeepsHeld 0x21 cmd) (λ setup.
          then-KeepsHeld (link_rows e fuel mb_rows setup) _ (link_rows-KeepsHeld mb_rows setup)
            (λ r. value-KeepsHeld _)))

  registers-KeepsHeld : (g : Stack) → KeepsHeld (registers e fuel g)
  unfolding registers
  registers-KeepsHeld g =
      then-KeepsHeld (lift (cs_section e)) _ (lift-KeepsHeld (cs_section e) cs_section-held) (λ cs.
        then-KeepsHeld (link_rows e fuel dc_rows cs.1) _ (link_rows-KeepsHeld dc_rows cs.1) (λ dc.
          then-KeepsHeld (mb_section e fuel dc.1) _ (mb_section-KeepsHeld dc.1) (λ mb.
            then-KeepsHeld (read_temp e fuel 0x3d g.garbage1) _
              (read_temp-KeepsHeld 0x3d g.garbage1)
              (λ t1.
                then-KeepsHeld (read_temp e fuel 0x3e g.garbage2) _
                  (read_temp-KeepsHeld 0x3e g.garbage2)
                  (λ t2.
                    then-KeepsHeld (read_temp e fuel 0x3f g.garbage3) _
                      (read_temp-KeepsHeld 0x3f g.garbage3)
                      (λ t3. value-KeepsHeld (joined cs dc mb t1 t2 t3)))))))

  pub read_procmem-KeepsHeld : (g : Stack) → KeepsHeld (plx_read_procmem e fuel g)
  unfolding plx_read_procmem
  read_procmem-KeepsHeld g =
      then-KeepsHeld (registers e fuel g) (λ r d. some (finish r.0 r.1 d, d))
        (registers-KeepsHeld g) (λ r d s h. ground arith)
