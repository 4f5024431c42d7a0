-- ===== src/Base/Append.antt =====
-- Appending texts.
use Prim.Native.Char.{Char}
use Prim.Native.String.append
use Prim.Native.String.{String, [], ◌∷◌, ◌++◌}
use mathlib.Core.Path.{◌≡◌, ap, ◌∙◌}
use mathlib.Core.Logic.{◌≢◌}
use mathlib.Core.Bool.{Bool, ◌&&◌}
use native.Mathlib.Omega.{arith}
use text.Mathlib.TextLemmas.{append_assoc}
use carryctx.Base.Text.{all_chars}

pub append-snoc : (a : String) (c : Char) (r : String) → (a ++ (c ∷ [])) ++ r ≡ a ++ (c ∷ r)
append-snoc a c r =
    append_assoc a (c ∷ []) r
    ∙ ap (λ x. a ++ x) (append.cons c [] r ∙ ap (λ x. c ∷ x) (append.nil r))

pub append-ne-nil : (a : String) (c : Char) (r : String) → a ++ (c ∷ r) ≢ ""
append-ne-nil [] c r h = cc (append.nil (c ∷ r), h)
append-ne-nil (d ∷ a) c r h = cc (append.cons d a (c ∷ r), h)

pub all_chars-append :
    (p : Char → Bool) (a b : String) → all_chars p (a ++ b) ≡ (all_chars p a && all_chars p b)
unfolding all_chars
all_chars-append p [] b = ap (all_chars p) (append.nil b)
all_chars-append p (c ∷ a) b = rw (append.cons c a b) (ground (arith, all_chars-append p a b))
