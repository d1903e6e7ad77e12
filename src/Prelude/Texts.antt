-- ===== src/Prelude/Texts.antt =====
-- Python's `str` as the native text: blanks, substrings and equality.
use Prim.Native.Nat.{ℕ, ◌+◌}
use Prim.Native.Char.{code}
use Prim.Native.String.{String}
use mathlib.Core.Bool.{Bool, true, false, ◌&&◌, ◌||◌}
use mathlib.Core.List.{List}
use odoo_mcp.Prelude.Tests.{leb, ◌==◌}
use odoo_mcp.Prelude.Lists.{any_of}
use text.Mathlib.Text.{◌==◌ as str_eq}

-- The code points that `str.isspace` accepts, which `str.strip` removes.
is_space : ℕ → Bool
is_space c =
    (leb 9 c && leb c 13)
    || ((leb 28 c && leb c 32)
        || (c == 133
            || (c == 160
                || (c == 5760
                    || ((leb 8192 c && leb c 8202)
                        || (c == 8232
                            || (c == 8233 || (c == 8239 || (c == 8287 || c == 12288)))))))))

-- `not value.strip()`.
unfoldable pub is_blank : String → Bool
unfolding is_space
is_blank String.[] = true
is_blank (String.◌∷◌ c s) = is_space (code c) && is_blank s

-- `len(value)`
unfoldable pub text_length : String → ℕ
text_length String.[] = 0
text_length (String.◌∷◌ c s) = 1 + text_length s

-- `value in items` for a collection of texts.
abbrev pub text_in : String → List String → Bool
text_in k items = any_of (λ j. str_eq j k) items

-- `value.startswith(part)`, then `part in value`.
is_prefix : String → String → Bool
is_prefix String.[] s = true
is_prefix (String.◌∷◌ c p) String.[] = false
is_prefix (String.◌∷◌ c p) (String.◌∷◌ d s) = code c == code d && is_prefix p s

unfoldable pub is_infix : String → String → Bool
unfolding is_prefix
is_infix part String.[] = is_prefix part String.[]
is_infix part (String.◌∷◌ c s) = is_prefix part (String.◌∷◌ c s) || is_infix part s
