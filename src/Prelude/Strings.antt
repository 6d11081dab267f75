-- ===== src/Prelude/Strings.antt =====
-- Text two ways: the native `String` where the program only compares whole texts, and `Text`, the
-- list of code points of a Python `str`, where it walks one.
use Prim.Native.Nat.{ℕ}
use Prim.Native.Char.{code}
use Prim.Native.String.{String}
use mathlib.Core.Path.{◌≡◌, refl, sym, ap, ◌∙◌}
use mathlib.Core.Logic.{◌↔◌, inl, inr}
use mathlib.Core.Bool.{Bool, true, false, ◌&&◌, ◌||◌}
use mathlib.Core.List.{List, [], ◌∷◌, ◌++◌}
use native.Mathlib.Omega.{arith}
use honeywatch.Prelude.Tests.{◌==◌, ltb, Bool-cases}

abbrev pub Text : Type 0
Text = List ℕ

abbrev pub codes : String → Text
codes String.[] = []
codes (String.◌∷◌ c s) = code c ∷ codes s

-- `s == t`
unfoldable pub text_eq : Text → Text → Bool
text_eq [] [] = true
text_eq [] (_ ∷ _) = false
text_eq (_ ∷ _) [] = false
text_eq (a ∷ s) (b ∷ t) = a == b && text_eq s t

text_eq_sound : (s t : Text) → text_eq s t ≡ true → s ≡ t
unfolding text_eq
text_eq_sound [] [] h = refl
text_eq_sound [] (_ ∷ _) h = ground arith
text_eq_sound (_ ∷ _) [] h = ground arith
text_eq_sound (a ∷ s) (b ∷ t) h = ground (arith, text_eq_sound s t)

pub text_eq_refl : (s : Text) → text_eq s s ≡ true
unfolding text_eq
text_eq_refl [] = refl
text_eq_refl (a ∷ s) = ground (arith, text_eq_refl s)

text_eq_complete : (s t : Text) → s ≡ t → text_eq s t ≡ true
text_eq_complete s t e = ap (text_eq s) (sym e) ∙ text_eq_refl s

pub text_eq_iff : (s t : Text) → (text_eq s t ≡ true) ↔ (s ≡ t)
text_eq_iff s t = (text_eq_sound s t, text_eq_complete s t)

-- `s.startswith(p)`, with the prefix first
unfoldable pub has_prefix : Text → Text → Bool
has_prefix [] s = true
has_prefix (_ ∷ _) [] = false
has_prefix (a ∷ p) (b ∷ s) = a == b && has_prefix p s

-- `p in s`
unfoldable pub is_infix : Text → Text → Bool
unfolding has_prefix
is_infix p [] = has_prefix p []
is_infix p (a ∷ s) = has_prefix p (a ∷ s) || is_infix p s

has_prefix_sound : (p s : Text) → has_prefix p s ≡ true → (r : Text) × (p ++ r ≡ s)
unfolding has_prefix
has_prefix_sound [] s h = (s, refl)
has_prefix_sound (_ ∷ _) [] h = ground arith
has_prefix_sound (a ∷ p) (b ∷ s) h =
    let (r, e) = has_prefix_sound p s (ground arith) in (r, ground arith)

has_prefix_complete : (p r : Text) → has_prefix p (p ++ r) ≡ true
unfolding has_prefix
has_prefix_complete [] r = refl
has_prefix_complete (a ∷ p) r = ground (arith, has_prefix_complete p r)

pub has_prefix_iff : (p s : Text) → (has_prefix p s ≡ true) ↔ ((r : Text) × (p ++ r ≡ s))
has_prefix_iff p s =
    (has_prefix_sound p s, λ h. ap (has_prefix p) (sym h.1) ∙ has_prefix_complete p h.0)

-- `p` stands in `s` with some text before it and some after it.
abbrev pub Occurs : Text → Text → Type 0
Occurs p s = (before : Text) × (after : Text) × (before ++ (p ++ after) ≡ s)

pub is_infix_sound : (p s : Text) → is_infix p s ≡ true → Occurs p s
unfolding is_infix
is_infix_sound p [] h = let (r, e) = has_prefix_sound p [] h in ([], r, e)
is_infix_sound p (a ∷ s) h = elim (Bool-cases (has_prefix p (a ∷ s))) [
  | inl e ↦ let (r, q) = has_prefix_sound p (a ∷ s) e in ([], r, q)
  | inr e ↦ let (b, r, q) = is_infix_sound p s (rw (e, ◌||◌) at h) in (a ∷ b, r, ap (λ l. a ∷ l) q)
]

is_infix-at : (before p after : Text) → is_infix p (before ++ (p ++ after)) ≡ true
unfolding is_infix
is_infix-at (a ∷ before) p after = ground (arith, is_infix-at before p after)
is_infix-at [] [] [] = refl
is_infix-at [] [] (_ ∷ _) = refl
is_infix-at [] (a ∷ p) after = ground (arith, has_prefix_complete (a ∷ p) after)

pub is_infix_iff : (p s : Text) → (is_infix p s ≡ true) ↔ Occurs p s
is_infix_iff p s = (is_infix_sound p s, λ h. ap (is_infix p) (sym h.2) ∙ is_infix-at h.0 p h.1)

-- `s <= t`: by code points, from the left
unfoldable pub text_leb : Text → Text → Bool
text_leb [] t = true
text_leb (_ ∷ _) [] = false
text_leb (a ∷ s) (b ∷ t) = ltb a b || (a == b && text_leb s t)

pub text_leb_total : (s t : Text) → text_leb s t ≡ false → text_leb t s ≡ true
unfolding text_leb
text_leb_total [] t h = cc
text_leb_total (_ ∷ _) [] h = refl
text_leb_total (a ∷ s) (b ∷ t) h = ground (arith, text_leb_total s t)

pub text_leb_trans :
    (s t u : Text) → text_leb s t ≡ true → text_leb t u ≡ true → text_leb s u ≡ true
unfolding text_leb
text_leb_trans [] t u h k = refl
text_leb_trans (_ ∷ _) [] u h k = cc
text_leb_trans (_ ∷ _) (_ ∷ _) [] h k = cc
text_leb_trans (a ∷ s) (b ∷ t) (c ∷ u) h k = ground (arith, text_leb_trans s t u)
