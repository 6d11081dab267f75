-- ===== src/Stdlib/Tests.antt =====
use honeywatch.Prelude.{◌≡◌, refl, codes, [], ◌∷◌, none, text_eq}
use honeywatch.Stdlib.Utf8.{decode_replace, decode_strict}
use honeywatch.Stdlib.Query.{parse_qs, values}
use honeywatch.Stdlib.Case.{rstrip, lower, lower_char}

-- a euro sign, an ill-formed byte, a sequence cut short
decode_mixed :
    decode_replace (0xe2 ∷ 0x82 ∷ 0xac ∷ 0xff ∷ 0xe2 ∷ 0x82 ∷ []) ≡ 0x20ac ∷ 0xfffd ∷ 0xfffd ∷ []
unfolding decode_replace
decode_mixed = refl

decode_surrogate : decode_strict (0xed ∷ 0xa0 ∷ 0x80 ∷ []) ≡ none
unfolding decode_strict
decode_surrogate = refl

form_email :
    values (codes "email") (parse_qs (codes "a=1&email=x%40y.z&&email=2&c"))
    ≡ codes "x@y.z" ∷ codes "2" ∷ []
unfolding parse_qs values text_eq decode_replace
form_email = refl

form_blank : values (codes "c") (parse_qs (codes "c&p=%4%2x+y")) ≡ [] ∷ []
unfolding parse_qs values text_eq decode_replace
form_blank = refl

login_path : lower (λ c. c ∷ []) (rstrip 47 (codes "/LogIn//")) ≡ codes "/login"
unfolding lower lower_char rstrip
login_path = refl
