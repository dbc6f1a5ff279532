-- ===== src/Driver/Proc/Ends.antt =====
-- plx_proc.c: a read of the proc file ends, if the fuel is enough for each wait of the command link.
use Prim.Native.String.{String}
use cjunk.Prelude.{ℕ, ◌≤◌, List, [], ◌∷◌, some}
use cjunk.Driver.Defs.{Env}
use cjunk.Driver.CommandLink.{lift, plx_read_reg}
use cjunk.Driver.CommandLink.Waiting.{Clock, enough_fuel}
use cjunk.Driver.CommandLink.Ends.{Ends, read_reg-Ends, lift-Ends, then-Ends, value-Ends}
use cjunk.Driver.Proc.{
  Stack, read_temp, link_rows, cs_section, mb_section, registers, joined, finish, plx_read_procmem,
}
use cjunk.Driver.Proc.Tables.{dc_rows, mb_rows}

module _ (e : Env) (fuel : ℕ) (h : enough_fuel ≤ fuel) (clock : Clock e) where
  read_temp-Ends : (a temp : ℕ) → Ends (read_temp e fuel a temp)
  unfolding read_temp
  read_temp-Ends a temp =
      then-Ends (plx_read_reg e fuel a) _ (read_reg-Ends e fuel h clock a) (λ r. value-Ends _)

  link_rows-Ends : (rows : List (ℕ × String)) (temp : ℕ) → Ends (link_rows e fuel rows temp)
  unfolding link_rows
  link_rows-Ends [] temp = λ d k. cc
  link_rows-Ends ((a, s) ∷ rows) temp =
      then-Ends (read_temp e fuel a temp) _ (read_temp-Ends a temp)
        (λ v. then-Ends (link_rows e fuel rows v) _ (link_rows-Ends rows v) (λ r. value-Ends _))

  mb_section-Ends : (temp : ℕ) → Ends (mb_section e fuel temp)
  unfolding mb_section
  mb_section-Ends temp = then-Ends (read_temp e fuel 0x20 temp) _ (read_temp-Ends 0x20 temp) (λ cmd.
      then-Ends (read_temp e fuel 0x21 cmd) _ (read_temp-Ends 0x21 cmd) (λ setup.
        then-Ends (link_rows e fuel mb_rows setup) _ (link_rows-Ends mb_rows setup)
          (λ r. value-Ends _)))

  registers-Ends : (g : Stack) → Ends (registers e fuel g)
  unfolding registers
  registers-Ends g = then-Ends (lift (cs_section e)) _ (lift-Ends _) (λ cs.
      then-Ends (link_rows e fuel dc_rows cs.1) _ (link_rows-Ends dc_rows cs.1) (λ dc.
        then-Ends (mb_section e fuel dc.1) _ (mb_section-Ends dc.1) (λ mb.
          then-Ends (read_temp e fuel 0x3d g.garbage1) _ (read_temp-Ends 0x3d g.garbage1) (λ t1.
            then-Ends (read_temp e fuel 0x3e g.garbage2) _ (read_temp-Ends 0x3e g.garbage2) (λ t2.
              then-Ends (read_temp e fuel 0x3f g.garbage3) _ (read_temp-Ends 0x3f g.garbage3)
                (λ t3. value-Ends (joined cs dc mb t1 t2 t3)))))))

  -- A read of the proc file ends, on a cycle counter that goes on and with fuel for every wait of
  -- the command link, in a text or in a division by zero.
  read_procmem-Ends : (g : Stack) → Ends (plx_read_procmem e fuel g)
  unfolding plx_read_procmem
  read_procmem-Ends g =
      then-Ends (registers e fuel g) (λ r d. some (finish r.0 r.1 d, d)) (registers-Ends g)
        (λ r d k. cc)
