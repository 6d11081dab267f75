-- ===== src/Stdlib/Utf8.antt =====
-- `bytes.decode("utf-8")`, strict and with `errors="replace"`: one pass over the bytes, which yields
-- a code point, or an error for each maximal ill-formed part.
use honeywatch.Prelude.{
  ℕ, zero, suc, ◌+◌, ◌-◌, ◌*◌, ◌≤◌, ◌≡◌, refl, ap, Text, ◌&&◌, List, [], ◌∷◌, ◌++◌, Option, none,
  some, arith, length, length-append, Bool-cases, inl, inr, leb, ltb, if◌then◌else◌,
}

abbrev pub Bytes : Type 0
Bytes = List ℕ

abbrev pub replacement : ℕ
replacement = 0xfffd

-- Inside a sequence: how many bytes are to come, the range of the next, and the bits so far.
pub data Decoder : Type 0 where
  start : Decoder
  want : (more low high bits : ℕ) → Decoder

-- what a lead byte begins; `none` if it begins nothing
abbrev lead : ℕ → Option Decoder
lead b =
    if ltb b 0xc2
    then none
    else (if ltb b 0xe0
        then some (want 0 0x80 0xbf (b - 0xc0))
        else (if ltb b 0xe1
            then some (want 1 0xa0 0xbf 0)
            else (if ltb b 0xed
                then some (want 1 0x80 0xbf (b - 0xe0))
                else (if ltb b 0xee
                    then some (want 1 0x80 0x9f (b - 0xe0))
                    else (if ltb b 0xf0
                        then some (want 1 0x80 0xbf (b - 0xe0))
                        else (if ltb b 0xf1
                            then some (want 2 0x90 0xbf 0)
                            else (if ltb b 0xf4
                                then some (want 2 0x80 0xbf (b - 0xf0))
                                else (if ltb b 0xf5 then some (want 2 0x80 0x8f 4) else none))))))))

abbrev begin : Option Decoder → List (Option ℕ) × Decoder
begin none = (none ∷ [], start)
begin (some d) = ([], d)

-- one more byte of a sequence, with the bits so far
abbrev extend : ℕ → ℕ → List (Option ℕ) × Decoder
extend zero bits = (some bits ∷ [], start)
extend (suc more) bits = ([], want more 0x80 0xbf bits)

-- a byte outside a sequence: what it yields and where the decoder is then
first_byte : ℕ → List (Option ℕ) × Decoder
first_byte b = if ltb b 0x80 then (some b ∷ [], start) else begin (lead b)

step : Decoder → ℕ → List (Option ℕ) × Decoder
unfolding first_byte
step start b = first_byte b
step (want more low high bits) b =
    if leb low b && leb b high
    then extend more (bits * 64 + (b - 0x80))
    else (let (out, d) = first_byte b in (none ∷ out, d))

-- Each item is a code point, or `none` for an ill-formed part.
items : Decoder → Bytes → List (Option ℕ)
items start [] = []
items (want _ _ _ _) [] = none ∷ []
items d (b ∷ bs) = let (out, d') = step d b in out ++ items d' bs

-- `body.decode("utf-8", errors="replace")`
abbrev replace : List (Option ℕ) → Text
replace [] = []
replace (none ∷ l) = replacement ∷ replace l
replace (some c ∷ l) = c ∷ replace l

unfoldable pub decode_replace : Bytes → Text
unfolding items step
decode_replace bs = replace (items start bs)

-- `body.decode("utf-8")`; `none` is UnicodeDecodeError
abbrev strict : List (Option ℕ) → Option Text
strict [] = some []
strict (none ∷ l) = none
strict (some c ∷ l) = elim (strict l) [ none ↦ none | some t ↦ some (c ∷ t) ]

unfoldable pub decode_strict : Bytes → Option Text
unfolding items step
decode_strict bs = strict (items start bs)

-- the errors that a decoder still owes
abbrev owed : Decoder → ℕ
owed start = 0
owed (want _ _ _ _) = 1

length-begin : (o : Option Decoder) → length (begin o).0 + owed (begin o).1 ≤ 1
length-begin none = omega arith
length-begin (some start) = omega arith
length-begin (some (want _ _ _ _)) = omega arith

length-extend : (more bits : ℕ) → length (extend more bits).0 + owed (extend more bits).1 ≤ 1
length-extend zero bits = omega arith
length-extend (suc m) bits = omega arith

length-first_byte : (b : ℕ) → length (first_byte b).0 + owed (first_byte b).1 ≤ 1
unfolding first_byte
length-first_byte b = elim (Bool-cases (ltb b 0x80)) [
  | inl e ↦ rw e (omega arith)
  | inr e ↦ rw e (length-begin (lead b))
]

length-step : (d : Decoder) (b : ℕ) → length (step d b).0 + owed (step d b).1 ≤ 1 + owed d
unfolding step
length-step start b = length-first_byte b
length-step (want more low high bits) b = elim (Bool-cases (leb low b && leb b high)) [
  | inl e ↦ rw e (omega (arith, length-extend more (bits * 64 + (b - 0x80))))
  | inr e ↦ rw e (omega (arith, length-first_byte b))
]

length-items : (d : Decoder) (bs : Bytes) → length (items d bs) ≤ length bs + owed d
unfolding items
length-items start [] = omega arith
length-items (want _ _ _ _) [] = omega arith
length-items start (b ∷ bs) = omega (
  arith,
  length-step start b,
  length-items (step start b).1 bs,
  length-append (step start b).0 (items (step start b).1 bs),
)
length-items d (b ∷ bs) = omega (
  arith,
  length-step d b,
  length-items (step d b).1 bs,
  length-append (step d b).0 (items (step d b).1 bs),
)

length-replace : (l : List (Option ℕ)) → length (replace l) ≡ length l
length-replace [] = refl
length-replace (none ∷ l) = ap suc (length-replace l)
length-replace (some c ∷ l) = ap suc (length-replace l)

-- A text has no more characters than the bytes that it was decoded from.
pub length-decode_replace : (bs : Bytes) → length (decode_replace bs) ≤ length bs
unfolding decode_replace
length-decode_replace bs = omega (arith, length-replace (items start bs), length-items start bs)
