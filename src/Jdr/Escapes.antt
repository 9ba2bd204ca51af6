-- ===== src/Jdr/Escapes.antt =====
-- The escapes are read back.
use go_rdx.Prelude.{ℕ, ◌≡◌, refl, ap, ◌∙◌, arith, false, List, [], ◌∷◌, ◌++◌}
use go_rdx.Jdr.{escape, escaped, append_escaped, unescape, unescaped, append_unescaped}

unescaped-escape :
    (a : ℕ) (jdr : List ℕ) → unescaped false (escape a ++ jdr) ≡ a ∷ unescaped false jdr
unfolding unescaped unescape escape
unescaped-escape a jdr = ground arith

unescaped-escaped : (val : List ℕ) → unescaped false (escaped val) ≡ val
unfolding escaped unescaped
unescaped-escaped [] = refl
unescaped-escaped (a ∷ val) = unescaped-escape a (escaped val) ∙ ap (◌∷◌ a) (unescaped-escaped val)

-- appendUnescaped appends the string that appendEscaped escaped, for every byte string.
pub append_unescaped-append_escaped :
    (rdx val : List ℕ) → append_unescaped rdx (append_escaped [] val) ≡ rdx ++ val
unfolding append_unescaped append_escaped
append_unescaped-append_escaped rdx val = ap (◌++◌ rdx) (unescaped-escaped val)
