-- ===== src/Jdr/Tests.antt =====
-- Runs of the escapes.
use go_rdx.Prelude.{◌≡◌, refl, [], ◌∷◌}
use go_rdx.Jdr.{append_escaped, append_unescaped, escaped, escape, backslash}

tab_and_quote : append_escaped [] (9 ∷ 34 ∷ []) ≡ backslash ∷ b't' ∷ backslash ∷ 34 ∷ []
unfolding append_escaped escaped escape
tab_and_quote = refl

-- A backslash at the end of a text stays.
last_backslash : append_unescaped [] (b'a' ∷ backslash ∷ []) ≡ b'a' ∷ backslash ∷ []
unfolding append_unescaped
last_backslash = refl
