-- ===== src/Config/Laws.antt =====
-- What configuration.c relies on of libconfig: what was written is read back, and a change of one
-- setting is seen in that setting and nowhere else.
use cjunk.Prelude.{ℕ, ◌<◌, ◌^◌, ◌≡◌, ◌≢◌, refl, ◌∙◌, Bool, false, some}
use cjunk.Config.Defs.{Setting, same_setting, Libconfig}

module _ (lib : Libconfig) where
  -- From the tree `t` to `t'`, only numbers and elements of settings `inside` have changed.
  pub record Frame (inside : Setting → Bool) (t t' : lib.Tree) : Type 0 where
    pub exists : (q : Setting) → lib.exists t' q ≡ lib.exists t q
    pub bools : (q : Setting) → lib.get_bool t' q ≡ lib.get_bool t q
    pub strings : (q : Setting) → lib.get_string t' q ≡ lib.get_string t q
    pub lengths : (q : Setting) → lib.length t' q ≡ lib.length t q
    pub ints : (q : Setting) → inside q ≡ false → lib.get_int t' q ≡ lib.get_int t q
    pub elems : (q : Setting) (i : ℕ) → inside q ≡ false → lib.get_elem t' q i ≡ lib.get_elem t q i

  abbrev pub is : Setting → Setting → Bool
  is p q = same_setting q p

  -- The laws of a libconfig.
  pub record Lawful : Type 0 where
    pub read_write : (t : lib.Tree) (c : lib.Content) → lib.write t ≡ some c → lib.read c ≡ some t
    pub int_set :
        (t t' : lib.Tree) (p : Setting) (v : ℕ)
        → v < 2 ^ 32
        → lib.set_int t p v ≡ some t'
        → (lib.get_int t' p ≡ v) × Frame (is p) t t'
    pub format_set :
        (t t' : lib.Tree) (p : Setting)
        → lib.set_format t p ≡ some t'
        → (lib.get_int t' p ≡ lib.get_int t p) × Frame (is p) t t'
    pub elem_set :
        (t t' : lib.Tree) (p : Setting) (i v : ℕ)
        → lib.set_elem t p i v ≡ some t'
        → (i < lib.length t p)
          × (lib.get_elem t' p i ≡ v)
          × ((j : ℕ) → j ≢ i → lib.get_elem t' p j ≡ lib.get_elem t p j)
          × Frame (is p) t t'

  pub Frame-refl : (inside : Setting → Bool) (t : lib.Tree) → Frame inside t t
  Frame-refl inside t = record {
    exists = λ q. refl;
    bools = λ q. refl;
    strings = λ q. refl;
    lengths = λ q. refl;
    ints = λ q h. refl;
    elems = λ q i h. refl;
  }

  pub Frame-trans :
      {inside : Setting → Bool} {t t' t'' : lib.Tree}
      → Frame inside t t'
      → Frame inside t' t''
      → Frame inside t t''
  Frame-trans f g = record {
    exists = λ q. g.exists q ∙ f.exists q;
    bools = λ q. g.bools q ∙ f.bools q;
    strings = λ q. g.strings q ∙ f.strings q;
    lengths = λ q. g.lengths q ∙ f.lengths q;
    ints = λ q h. g.ints q h ∙ f.ints q h;
    elems = λ q i h. g.elems q i h ∙ f.elems q i h;
  }

  -- A frame may be enlarged.
  pub Frame-weaken :
      {small large : Setting → Bool} {t t' : lib.Tree}
      → ((q : Setting) → large q ≡ false → small q ≡ false)
      → Frame small t t'
      → Frame large t t'
  Frame-weaken out f = record {
    exists = f.exists;
    bools = f.bools;
    strings = f.strings;
    lengths = f.lengths;
    ints = λ q h. f.ints q (out q h);
    elems = λ q i h. f.elems q i (out q h);
  }
