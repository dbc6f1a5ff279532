-- ===== src/Config/Written.antt =====
-- configuration.c: what the file holds after update_configuration.
use cjunk.Prelude.{ℕ, ◌<◌, ◌≡◌, refl, ap, sym, Bool, true, false, ◌||◌, ◌&&◌, not, [], ◌∷◌, arith}
use cjunk.Config.Defs.{
  Setting, same_setting, config_path, max_no_of_channels, Configuration, Libconfig, Store, success,
  hvps, channels, regs, misc, cmd, setup, frame_count, integration_time, reset_time, trigger_delay,
  asic_initial_value, intercolumn_delay, frame_rate, binning, field_x0, field_y0, field_width,
  field_height,
}
use cjunk.Config.Laws.{Frame, Lawful, Frame-weaken}
use cjunk.Config.Elements.{AreWords, fresh}
use cjunk.Config.Update.{register_elements, misc_elements, update_tree, update_configuration}
use cjunk.Config.Tree.{touched, update_tree-IsUpdated}
use cjunk.Config.Runs.{Parsed, edit_file-done}

-- The values of the registers fit 32 bits, those of misc and of the channels their members.
pub record IsRepresentable (c : Configuration) : Type 0 where
  pub registers : AreWords (register_elements c.registers)
  pub bytes :
      (c.misc.frame_rate < 256)
      × (c.misc.binning < 256)
      × (c.misc.field_x0 < 256)
      × (c.misc.field_y0 < 256)
  pub shorts : (c.misc.field_width < 65536) × (c.misc.field_height < 65536)
  pub channel : (i : ℕ) → i < max_no_of_channels → c.channel i < 65536

misc_AreWords : (c : Configuration) → IsRepresentable c → AreWords (misc_elements c.misc)
misc_AreWords c r =
    let (a, b, x, y) = r.bytes in
    let (w, h) = r.shorts in
    (omega arith, (omega arith, (omega arith, (omega arith, (omega arith, (omega arith, tt))))))

-- The list of the channels, and the elements of regs and of misc.
abbrev pub is_inside : Setting → Setting → Bool
is_inside p [] = false
is_inside p (x ∷ q) =
    same_setting (x ∷ q) (channels ∷ hvps ∷ p)
    || (same_setting q (regs ∷ p) || same_setting q (misc ∷ p))

group_out : (b x : Bool) → b ≡ false → b && x ≡ false
group_out false x h = refl
group_out true x h = absurd (ground arith)

untouched :
    (a b r : Bool) (x y : Bool) → a || (b || r) ≡ false → a || ((b && x) || (r && y)) ≡ false
untouched true b r x y h = h
untouched false true r x y h = absurd (ground arith)
untouched false false r x y h = group_out r y h

touched-is_inside :
    (p : Setting) (c : Configuration) (q : Setting) → is_inside p q ≡ false → touched p c q ≡ false
touched-is_inside p c [] h = refl
touched-is_inside p c (x ∷ q) h =
    untouched (same_setting (x ∷ q) (channels ∷ hvps ∷ p)) (same_setting q (regs ∷ p))
      (same_setting q (misc ∷ p)) (not (fresh x (register_elements c.registers)))
      (not (fresh x (misc_elements c.misc))) h

-- The tree `new` holds the values of `c` at the configuration `p`, and elsewhere what `old` holds.
pub record IsWritten (lib : Libconfig) (p : Setting) (c : Configuration) (old new : lib.Tree)
    : Type 0 where
  pub channel :
      (j : ℕ) → j < max_no_of_channels → lib.get_elem new (channels ∷ hvps ∷ p) j ≡ c.channel j
  pub register_cmd : lib.get_int new (cmd ∷ regs ∷ p) ≡ c.registers.cmd
  pub register_setup : lib.get_int new (setup ∷ regs ∷ p) ≡ c.registers.setup
  pub register_frame_count : lib.get_int new (frame_count ∷ regs ∷ p) ≡ c.registers.frame_count
  pub register_integration_time :
      lib.get_int new (integration_time ∷ regs ∷ p) ≡ c.registers.integration_time
  pub register_reset_time : lib.get_int new (reset_time ∷ regs ∷ p) ≡ c.registers.reset_time
  pub register_trigger_delay :
      lib.get_int new (trigger_delay ∷ regs ∷ p) ≡ c.registers.trigger_delay
  pub register_asic_initial_value :
      lib.get_int new (asic_initial_value ∷ regs ∷ p) ≡ c.registers.asic_initial_value
  pub register_intercolumn_delay :
      lib.get_int new (intercolumn_delay ∷ regs ∷ p) ≡ c.registers.intercolumn_delay
  pub misc_frame_rate : lib.get_int new (frame_rate ∷ misc ∷ p) ≡ c.misc.frame_rate
  pub misc_binning : lib.get_int new (binning ∷ misc ∷ p) ≡ c.misc.binning
  pub misc_field_x0 : lib.get_int new (field_x0 ∷ misc ∷ p) ≡ c.misc.field_x0
  pub misc_field_y0 : lib.get_int new (field_y0 ∷ misc ∷ p) ≡ c.misc.field_y0
  pub misc_field_width : lib.get_int new (field_width ∷ misc ∷ p) ≡ c.misc.field_width
  pub misc_field_height : lib.get_int new (field_height ∷ misc ∷ p) ≡ c.misc.field_height
  pub others : Frame lib (is_inside p) old new

-- After a successful update_configuration the file parses again. In its tree, configuration `n` has the
-- 27 channels, the eight registers and the six misc values of `c`; which settings there are, their
-- texts, their truth values and their lengths are as before, and so is each number outside the list
-- of channels and the groups regs and misc of that configuration. The values of `c` must fit 32 bits, those of
-- misc and of the channels their members.
pub update_configuration-IsWritten :
    (lib : Libconfig) (law : Lawful lib) (s s' : Store lib) (c : Configuration) (n : ℕ)
    → IsRepresentable c
    → update_configuration lib s c n ≡ (success, s')
    → (t : lib.Tree) × (t' : lib.Tree) × Parsed lib s t
      × Parsed lib s' t'
      × IsWritten lib (config_path n) c t t'
unfolding update_configuration
update_configuration-IsWritten lib law s s' c n r h =
    let (t, t', content, p, made, written, same) =
      edit_file-done lib s s' (update_tree lib c n) h in
    let u = update_tree-IsUpdated lib law c n t t' r.registers (misc_AreWords c r) made in
    let (r0, (r1, (r2, (r3, (r4, (r5, (r6, (r7, r8)))))))) = u.regs_set in
    let (m0, (m1, (m2, (m3, (m4, (m5, m6)))))) = u.misc_set in
    (
      t,
      t',
      p,
      record {
        content = content;
        held = ap (λ q. q.file) (sym same);
        parsed = law.read_write t' content written;
      },
      record {
        channel = u.channels_set;
        register_cmd = r0;
        register_setup = r1;
        register_frame_count = r2;
        register_integration_time = r3;
        register_reset_time = r4;
        register_trigger_delay = r5;
        register_asic_initial_value = r6;
        register_intercolumn_delay = r7;
        misc_frame_rate = m0;
        misc_binning = m1;
        misc_field_x0 = m2;
        misc_field_y0 = m3;
        misc_field_width = m4;
        misc_field_height = m5;
        others = Frame-weaken lib (touched-is_inside (config_path n) c) u.frame;
      },
    )
