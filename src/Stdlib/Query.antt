-- ===== src/Stdlib/Query.antt =====
-- `urllib.parse.parse_qs(text, keep_blank_values=True)`: the pairs of a form, with `+` and `%XX`
-- decoded, grouped by name in the order of first appearance.
use honeywatch.Prelude.{
  ℕ, ◌+◌, ◌-◌, ◌*◌, Text, ◌&&◌, List, [], ◌∷◌, ◌++◌, map, Option, none, some, is_empty, ltb, leb,
  ◌==◌, text_eq, if◌then◌else◌,
}
use honeywatch.Stdlib.Utf8.{Bytes, decode_replace}

-- `text.split(c)`
split_on : ℕ → Text → Text → List Text
split_on c cur [] = cur ∷ []
split_on c cur (x ∷ s) =
    let closed = cur ∷ split_on c [] s in
    let longer = split_on c (cur ++ x ∷ []) s in if x == c then closed else longer

-- `nv = text.split('=', 1)`, with a missing second part as ''
before_eq : Text → Text
before_eq [] = []
before_eq (x ∷ s) = let rest = before_eq s in if x == b'=' then [] else x ∷ rest

after_eq : Text → Text
after_eq [] = []
after_eq (x ∷ s) = let rest = after_eq s in if x == b'=' then s else rest

-- the value of a hexadecimal digit
hex : ℕ → Option ℕ
hex c =
    if leb b'0' c && leb c b'9'
    then some (c - b'0')
    else (if leb b'a' c && leb c b'f'
        then some (c - b'a' + 10)
        else (if leb b'A' c && leb c b'F' then some (c - b'A' + 10) else none))

-- the byte that two digits name
abbrev hex_pair : ℕ → ℕ → Option ℕ
hex_pair x y = elim (hex x) [
  | none ↦ none
  | some h ↦ elim (hex y) [ none ↦ none | some l ↦ some (h * 16 + l) ]
]

-- `unquote_to_bytes` on ASCII text: `%XX` is a byte, any other character stands for itself
unquote_to_bytes : Text → Bytes
unfolding hex
unquote_to_bytes (c ∷ x ∷ y ∷ s) =
    let plain = c ∷ unquote_to_bytes (x ∷ y ∷ s) in
    let decoded = unquote_to_bytes s in
    if c == b'%' then elim (hex_pair x y) [ none ↦ plain | some b ↦ b ∷ decoded ] else plain
unquote_to_bytes s = s

-- `unquote`: each run of ASCII characters is unquoted and decoded, the others stay
unquote_from : Text → Text → Text
unfolding unquote_to_bytes
unquote_from run [] = decode_replace (unquote_to_bytes run)
unquote_from run (c ∷ s) =
    let within = unquote_from (run ++ c ∷ []) s in
    let beyond = decode_replace (unquote_to_bytes run) ++ c ∷ unquote_from [] s in
    if ltb c 0x80 then within else beyond

-- `unquote(text.replace('+', ' '))`
unquote_plus : Text → Text
unfolding unquote_from
unquote_plus t = unquote_from [] (map (λ c. if c == b'+' then 32 else c) t)

-- `parse_qsl`
pairs_of : List Text → List (Text × Text)
pairs_of [] = []
pairs_of (nv ∷ rest) =
    let more = pairs_of rest in
    if is_empty nv then more else (unquote_plus (before_eq nv), unquote_plus (after_eq nv)) ∷ more

abbrev pub Form : Type 0
Form = List (Text × List Text)

-- `parsed_result[name].append(value)`, or a new entry
add : Text → Text → Form → Form
add name value [] = (name, value ∷ []) ∷ []
add name value ((n, vs) ∷ form) =
    if text_eq n name then (n, vs ++ value ∷ []) ∷ form else (n, vs) ∷ add name value form

group : List (Text × Text) → Form → Form
group [] form = form
group ((n, v) ∷ rest) form = group rest (add n v form)

unfoldable pub parse_qs : Text → Form
unfolding split_on before_eq after_eq unquote_plus pairs_of add group
parse_qs t = if is_empty t then [] else group (pairs_of (split_on b'&' [] t)) []

-- `form.get(name, [])`
unfoldable pub values : Text → Form → List Text
values name [] = []
values name ((n, vs) ∷ form) = if text_eq n name then vs else values name form
