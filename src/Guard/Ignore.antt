-- ===== src/Guard/Ignore.antt =====
-- The ignore patterns that are found missing.
use mac_llm_ops_lab.Prelude.{
  String, ◌≡◌, refl, sym, Bool, true, not, ◌&&◌, List, [], ◌∷◌, map, arith, ◌==◌, string_eq, keep,
  any, all, elem,
}
use mac_llm_ops_lab.Py.Str.{is_space, strip, lstrip, splitlines, is_empty, starts_with_char}
use mac_llm_ops_lab.Py.Str.Laws.{starts_with_char-rstrip}
use mac_llm_ops_lab.Guard.{
  is_rule, missing_patterns, missing_runtime_ignore_patterns, required_runtime_ignore_patterns,
}

-- A pattern that could be a rule: neither empty nor a comment.
abbrev pub is_pattern : String → Bool
is_pattern p = not (is_empty p) && not (starts_with_char b'#' p)

-- Some line of the text, stripped, is the pattern.
abbrev pub stands_alone : String → String → Bool
stands_alone text p = any (λ line. p == strip line) (splitlines text)

comment-strip :
    (line : String) → starts_with_char b'#' (lstrip line) ≡ starts_with_char b'#' (strip line)
unfolding strip
comment-strip line = sym (starts_with_char-rstrip b'#' (lstrip line) (unfold is_space in refl))

rule-pattern :
    (p line : String) → is_pattern p ≡ true → (p == strip line) ≡ true → is_rule line ≡ true
unfolding is_rule
rule-pattern p line h e =
    let same = (string_eq.beq_iff p (strip line)).0 e in rw comment-strip (rw (← same) h)

elem-rules :
    (p : String) (lines : List String)
    → is_pattern p ≡ true
    → elem p (map strip (keep is_rule lines)) ≡ any (λ line. p == strip line) lines
elem-rules p [] h = refl
elem-rules p (line ∷ lines) h = ground (arith, elem-rules p lines h, rule-pattern p line h)

-- The patterns that are reported missing are those, in order, for which no line of the file is the
-- pattern up to white space around it; so for any required patterns that are neither empty nor
-- begin with `#`.
pub missing_patterns_lem :
    (required : List String) (text : String)
    → all is_pattern required ≡ true
    → missing_patterns required text ≡ keep (λ p. not (stands_alone text p)) required
unfolding missing_patterns
missing_patterns_lem [] text h = refl
missing_patterns_lem (p ∷ ps) text h =
    ground (arith, elem-rules p (splitlines text), missing_patterns_lem ps text)

-- The runtime rules that are reported missing are those, in order, that stand on no line of the
-- file of their own, white space around them aside: skipping the comments loses none of them.
pub missing_runtime_ignore_patterns_lem :
    (text : String)
    → missing_runtime_ignore_patterns text
      ≡ keep (λ p. not (stands_alone text p)) required_runtime_ignore_patterns
unfolding missing_runtime_ignore_patterns
missing_runtime_ignore_patterns_lem text =
    missing_patterns_lem required_runtime_ignore_patterns text refl
