-- ===== src/Py/Number.antt =====
-- `str(n)` of an integer.
use mac_llm_ops_lab.Prelude.{
  ℤ, pos, negsuc, ℕ, zero, suc, ◌/◌, ◌%◌, String, ◌≡◌, refl, eqb, ltb, if◌then◌else◌,
}
use mac_llm_ops_lab.Py.Str.{◌<>◌}

abbrev digit : ℕ → String
digit n =
    if eqb n 0
    then "0"
    else if eqb n 1
    then "1"
    else if eqb n 2
    then "2"
    else if eqb n 3
    then "3"
    else if eqb n 4
    then "4"
    else if eqb n 5
    then "5"
    else if eqb n 6
    then "6"
    else if eqb n 7
    then "7"
    else if eqb n 8
    then "8"
    else "9"

-- One digit for each unit of fuel; a number below 10 ^ fuel is printed whole.
digits : ℕ → ℕ → String
digits zero n = ""
digits (suc fuel) n =
    let rest = digits fuel (n / 10) in if ltb n 10 then digit n else rest <> digit (n % 10)

unfoldable pub str_of_nat : ℕ → String
unfolding digits
str_of_nat n = digits (suc n) n

unfoldable pub str_of_int : ℤ → String
unfolding str_of_nat
str_of_int (pos n) = str_of_nat n
str_of_int (negsuc n) = "-" <> str_of_nat (suc n)

str_of_404 : str_of_nat 404 ≡ "404"
unfolding str_of_nat
str_of_404 = refl
