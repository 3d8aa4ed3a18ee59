-- ===== src/Py/Url.antt =====
-- `urllib.parse.urlparse`, as far as the program uses it: the port of an `http` or `https` URL.
-- What it demands of a host in brackets (the grammar of IP addresses) and of a host outside ASCII
-- (Unicode normalisation) is the parameter `host_ok`.
use Prim.Native.Char.{code}
use mac_llm_ops_lab.Prelude.{
  ℕ, ◌+◌, ◌-◌, ◌*◌, String, Bool, true, not, ◌&&◌, ◌||◌, Option, none, some, leb, ltb, eqb,
  if◌then◌else◌,
}
use mac_llm_ops_lab.Py.Str.{is_empty, partition, lacks_char}
use mac_llm_ops_lab.Py.Result.{Result, ok, err, value_error}

-- Leading control characters and spaces go, and tabs and line breaks go everywhere.
abbrev lstrip_control : String → String
lstrip_control String.[] = String.[]
lstrip_control (String.◌∷◌ c s) = if leb (code c) 32 then lstrip_control s else String.◌∷◌ c s

abbrev drop_breaks : String → String
drop_breaks String.[] = String.[]
drop_breaks (String.◌∷◌ c s) =
    let rest = drop_breaks s in
    if eqb (code c) 9 || eqb (code c) 10 || eqb (code c) 13 then rest else String.◌∷◌ c rest

-- The network location ends at the first of `/`, `?` and `#`.
abbrev until_path : String → String
until_path String.[] = String.[]
until_path (String.◌∷◌ c s) =
    let rest = until_path s in
    if eqb (code c) b'/' || eqb (code c) b'?' || eqb (code c) b'#'
    then String.[]
    else String.◌∷◌ c rest

-- `url[url.index(":") + 1:]`, then behind the two slashes, which the caller has seen.
abbrev after_scheme : String → String
after_scheme s = elim (partition b':' s).2 [
  | String.[] ↦ String.[]
  | String.◌∷◌ _ s' ↦ elim s' [ String.[] ↦ String.[] | String.◌∷◌ _ s'' ↦ s'' ]
]

unfoldable pub netloc : String → String
netloc url = until_path (after_scheme (drop_breaks (lstrip_control url)))

-- `netloc.rpartition("@")[2]`
abbrev after_last_at : String → String
after_last_at String.[] = String.[]
after_last_at (String.◌∷◌ c s) =
    let rest = after_last_at s in
    if lacks_char b'@' s then (if eqb (code c) b'@' then s else String.◌∷◌ c s) else rest

-- `_hostinfo[1]`, where an empty port counts as none.
unfoldable pub port_text : String → Option String
port_text location =
    let hostinfo = after_last_at location in
    let bracket = partition b'[' hostinfo in
    let port =
      if bracket.1
      then (partition b':' (partition b']' bracket.2).2).2
      else (partition b':' hostinfo).2 in
    if is_empty port then none else some port

-- `int(s)` of a text of ASCII digits, which is `none` for any other text.
abbrev digits_value : ℕ → String → Option ℕ
digits_value n String.[] = some n
digits_value n (String.◌∷◌ c s) =
    let rest = digits_value (n * 10 + (code c - 48)) s in
    if leb 48 (code c) && leb (code c) 57 then rest else none

module _ (host_ok : String → Bool) where
  -- `urlparse(url).port`
  unfoldable pub url_port : String → Result (Option ℕ)
  url_port url =
      let location = netloc url in
      let opens = not (lacks_char b'[' location) in
      let closes = not (lacks_char b']' location) in
      if opens && not closes || closes && not opens || not (host_ok location)
      then err (value_error "Invalid URL")
      else elim (port_text location) [
        | none ↦ ok none
        | some port ↦ elim (digits_value 0 port) [
          | none ↦ err (value_error "Port could not be cast to integer value")
          | some n ↦
              if ltb 65535 n then err (value_error "Port out of range 0-65535") else ok (some n)
        ]
      ]

abbrev pub accept_all : String → Bool
accept_all _ = true
