-- ===== src/Py/Str/Laws.antt =====
-- Stripping: its result has no white space at either end, and stripping again changes nothing.
use Prim.Native.Char.{Char, code}
use mac_llm_ops_lab.Prelude.{ℕ, String, ◌≡◌, refl, ap, ◌∙◌, Bool, true, false, not, arith, eqb}
use mac_llm_ops_lab.Py.Str.{is_space, lstrip, rstrip, strip, starts_with_char, cons_unless}

-- The first character of `s`, if any, is no white space.
abbrev starts_clean : String → Bool
starts_clean String.[] = true
starts_clean (String.◌∷◌ c s) = not (is_space (code c))

lstrip-starts_clean : (s : String) → starts_clean (lstrip s) ≡ true
unfolding lstrip
lstrip-starts_clean String.[] = refl
lstrip-starts_clean (String.◌∷◌ c s) = ground (arith, lstrip-starts_clean s)

lstrip_clean : (s : String) → starts_clean s ≡ true → lstrip s ≡ s
unfolding lstrip
lstrip_clean String.[] h = refl
lstrip_clean (String.◌∷◌ c s) h = ground arith

cons_unless-starts_clean :
    (c : Char) (s : String)
    → is_space (code c) ≡ false
    → starts_clean (cons_unless (is_space (code c)) c s) ≡ true
cons_unless-starts_clean c String.[] h = rw h (rw h)
cons_unless-starts_clean c (String.◌∷◌ d s) h = rw h

rstrip-starts_clean : (s : String) → starts_clean s ≡ true → starts_clean (rstrip s) ≡ true
unfolding rstrip
rstrip-starts_clean String.[] h = refl
rstrip-starts_clean (String.◌∷◌ c s) h = ground (arith, cons_unless-starts_clean c (rstrip s))

rstrip-cons_unless :
    (b : Bool) (c : Char) (s : String)
    → is_space (code c) ≡ b
    → rstrip s ≡ s
    → rstrip (cons_unless b c s) ≡ cons_unless b c s
unfolding rstrip
rstrip-cons_unless true c String.[] e h = refl
rstrip-cons_unless false c String.[] e h = rw e
rstrip-cons_unless true c (String.◌∷◌ d s) e h = ap (cons_unless (is_space (code c)) c) h
rstrip-cons_unless false c (String.◌∷◌ d s) e h = ap (cons_unless (is_space (code c)) c) h

rstrip-rstrip : (s : String) → rstrip (rstrip s) ≡ rstrip s
unfolding rstrip
rstrip-rstrip String.[] = refl
rstrip-rstrip (String.◌∷◌ c s) =
    rstrip-cons_unless (is_space (code c)) c (rstrip s) refl (rstrip-rstrip s)

-- `s.strip().strip() == s.strip()`
pub strip-strip : (s : String) → strip (strip s) ≡ strip s
unfolding strip
strip-strip s =
    ap rstrip
      (lstrip_clean (rstrip (lstrip s)) (rstrip-starts_clean (lstrip s) (lstrip-starts_clean s)))
    ∙ rstrip-rstrip (lstrip s)

starts_with_char-cons_unless :
    (n : ℕ) (b : Bool) (c : Char) (s : String)
    → is_space (code c) ≡ b
    → is_space n ≡ false
    → starts_with_char n (cons_unless b c s) ≡ eqb (code c) n
starts_with_char-cons_unless n true c String.[] e h = ground arith
starts_with_char-cons_unless n false c String.[] e h = refl
starts_with_char-cons_unless n true c (String.◌∷◌ d s) e h = refl
starts_with_char-cons_unless n false c (String.◌∷◌ d s) e h = refl

-- A first character that is no white space stays the first.
pub starts_with_char-rstrip :
    (n : ℕ) (s : String) → is_space n ≡ false → starts_with_char n (rstrip s) ≡ starts_with_char n s
unfolding rstrip
starts_with_char-rstrip n String.[] h = refl
starts_with_char-rstrip n (String.◌∷◌ c s) h =
    starts_with_char-cons_unless n (is_space (code c)) c (rstrip s) refl h
