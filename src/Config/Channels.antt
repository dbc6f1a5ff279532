-- ===== src/Config/Channels.antt =====
-- configuration.c: what the loop of update_configuration over the channels does to the tree, and what
-- the loop of read_configuration_file finds there.
use mathlib.Core.Path.{subst}
use cjunk.Prelude.{
  ℕ, zero, suc, ◌+◌, ◌<◌, ◌≤◌, ◌≡◌, refl, ◌∙◌, some, inl, inr, first_or_later, arith,
}
use cjunk.Config.Defs.{Setting, Libconfig, wrong_config_type}
use cjunk.Config.Laws.{Frame, is, Lawful, Frame-refl, Frame-trans}
use cjunk.Config.Edit.{done, attempt}
use cjunk.Config.Update.{set_channels}
use cjunk.Config.Elements.{done_inj, both-done, attempt-done}

module _ (lib : Libconfig) (law : Lawful lib) (p : Setting) (channel : ℕ → ℕ) where
  -- From round `i` on, `n` elements are set.
  pub record AreSet (n i : ℕ) (t t' : lib.Tree) : Type 0 where
    pub frame : Frame lib (is lib p) t t'
    pub below : (j : ℕ) → j < i → lib.get_elem t' p j ≡ lib.get_elem t p j
    pub set : (j : ℕ) → i ≤ j → j < i + n → lib.get_elem t' p j ≡ channel j
    pub inside : (j : ℕ) → i ≤ j → j < i + n → j < lib.length t p

  set_one :
      (n i : ℕ) (t t1 t' : lib.Tree)
      → lib.set_elem t p i (channel i) ≡ some t1
      → AreSet n (i + 1) t1 t'
      → AreSet (suc n) i t t'
  set_one n i t t1 t' e r =
      let (fits, new, others, frame) = law.elem_set t t1 p i (channel i) e in
      record {
        frame = Frame-trans lib frame r.frame;
        below = λ j l. r.below j (omega arith) ∙ others j (ground arith);
        set = λ j l u. elim (first_or_later i j l) [
          | inl same ↦
              subst (λ k. lib.get_elem t' p k ≡ channel k) same (r.below i (omega arith) ∙ new)
          | inr later ↦ r.set j later (omega arith)
        ];
        inside = λ j l u. elim (first_or_later i j l) [
          | inl same ↦ subst (λ k. k < lib.length t p) same fits
          | inr later ↦ subst (λ k. j < k) (frame.lengths p) (r.inside j later (omega arith))
        ];
      }

  pub set_channels-AreSet :
      (n i : ℕ) (t t' : lib.Tree) → set_channels lib p channel n i t ≡ done t' → AreSet n i t t'
  unfolding set_channels
  set_channels-AreSet zero i t t' h =
      subst (λ u. AreSet zero i t u) (done_inj lib law t t' h)
        record {
          frame = Frame-refl lib (is lib p) t;
          below = λ j l. refl;
          set = λ j l u. absurd (omega arith);
          inside = λ j l u. absurd (omega arith);
        }
  set_channels-AreSet (suc n) i t t' h =
      let (t1, first, rest) =
        both-done lib law (attempt lib (λ t. lib.set_elem t p i (channel i)) wrong_config_type)
          (set_channels lib p channel n (i + 1)) t t' h in
      set_one n i t t1 t'
        (attempt-done lib law (λ t. lib.set_elem t p i (channel i)) wrong_config_type t t1 first)
        (set_channels-AreSet n (i + 1) t1 t' rest)
