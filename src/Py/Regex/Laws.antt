-- ===== src/Py/Regex/Laws.antt =====
-- Where no match is found, none begins anywhere.
use Prim.Native.Char.{code}
use mac_llm_ops_lab.Prelude.{
  ℕ, Bool, String, ◌≡◌, ◌↔◌, refl, Option, none, some, List, [], Option-cases, inl, inr,
}
use mac_llm_ops_lab.Py.Regex.{Piece, match_at, next_line, lines_from, match_lines}

module _ (is_word : ℕ → Bool) (ps : List Piece) where
  -- At no place of the text a match begins.
  abbrev pub NoMatchFrom : Option ℕ → String → Type 0
  NoMatchFrom prev String.[] = Unit
  NoMatchFrom prev (String.◌∷◌ c s) =
      (match_at is_word ps prev (String.◌∷◌ c s) ≡ none) × NoMatchFrom (some (code c)) s

  abbrev pub NoMatch : String → Type 0
  NoMatch text = NoMatchFrom none text

  lines_from-nil :
      (prev : Option ℕ) (line : ℕ) (s : String)
      → (lines_from is_word ps 0 prev line s ≡ []) ↔ NoMatchFrom prev s
  unfolding lines_from
  lines_from-nil prev line String.[] = (λ h. tt, λ m. refl)
  lines_from-nil prev line (String.◌∷◌ c s) =
      elim (Option-cases (match_at is_word ps prev (String.◌∷◌ c s))) [
        | inl nothing ↦
            let ih = lines_from-nil (some (code c)) (next_line c line) s in
            rw (nothing, lines_from) (λ h. (refl, ih.0 h), λ m. ih.1 m.1)
        | inr (rest, found) ↦ rw (found, lines_from) (λ h. cc, λ m. cc (m.0))
      ]

  pub match_lines-nil : (text : String) → (match_lines is_word ps text ≡ []) ↔ NoMatch text
  unfolding match_lines
  match_lines-nil text = lines_from-nil none 1 text
