-- ===== src/Detection/IpContext/Keys.antt =====
-- The keys of the context store are different, and so are the members of its sorted sets.
use Prim.Native.String.{◌++◌ as ◌⧺◌}
use text.Mathlib.TextLemmas.{append_cancel_left, append_assoc, cons-append, head-eq_of_cons-eq}
use Prim.Native.Char.{Char, code}
use honeywatch.Prelude.{◌≡◌, ◌≢◌, sym, ap, ◌∙◌, String, arith, split_first}
use honeywatch.Detection.IpContext.{
  attempts_key, ports_key, attempts_key_prefix, ports_key_prefix, NumberText, Call, member_of,
}

pub attempts_key-injective : (a b : String) → attempts_key a ≡ attempts_key b → a ≡ b
attempts_key-injective a b e = append_cancel_left attempts_key_prefix a b e

pub ports_key-injective : (a b : String) → ports_key a ≡ ports_key b → a ≡ b
ports_key-injective a b e = append_cancel_left ports_key_prefix a b e

pub attempts_key-ne-ports_key : (a b : String) → attempts_key a ≢ ports_key b
attempts_key-ne-ports_key a b e =
    let rest : "attempts:" ⧺ a ≡ "ports:" ⧺ b = append_cancel_left "honeywatch:ipctx:" _ _ (
      sym (append_assoc "honeywatch:ipctx:" "attempts:" a)
      ∙ e
      ∙ append_assoc "honeywatch:ipctx:" "ports:" b) in
    let first : ◌≡◌ {A = Char} "a" "p" =
      head-eq_of_cons-eq (sym (cons-append "a" "ttempts:" a) ∙ rest ∙ cons-append "p" "orts:" b) in
    absurd (omega (arith, ap code first))

module _ (text : NumberText) where
  -- Calls at different instants have different members.
  pub member_of-ne : (c e : Call) → c.now ≢ e.now → member_of text c ≢ member_of text e
  member_of-ne c e h same = h (
      text.float_injective c.now e.now (
        (split_first b':' (text.float_text c.now) _ (text.float_text e.now) _
          (text.float_plain c.now) (text.float_plain e.now) same).0))
