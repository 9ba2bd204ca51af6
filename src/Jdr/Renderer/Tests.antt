-- ===== src/Jdr/Renderer/Tests.antt =====
-- What stands behind an element, and at the end of the lines.
use go_rdx.Prelude.{◌≡◌, refl, [], ◌∷◌, bit_or, codes}
use go_rdx.Jdr.{has}
use go_rdx.Jdr.Printer.{
  style_use_comma, style_use_space, style_use_lf, style_indent_tab, append_crlf,
}
use go_rdx.Jdr.Renderer.{separated, last_crlf}

comma_and_space :
    separated (codes "a") (codes "x") (bit_or style_use_comma style_use_space) ≡ codes "a, "
unfolding separated has
comma_and_space = refl

no_comma : separated (codes "a;") (codes "x") style_use_comma ≡ codes "a;"
unfolding separated has
no_comma = refl

-- The line break behind the elements of a container has one tab less.
one_tab_less : last_crlf [] (bit_or (bit_or style_use_lf style_indent_tab) 2) ≡ 10 ∷ 9 ∷ []
unfolding last_crlf append_crlf has
one_tab_less = refl
