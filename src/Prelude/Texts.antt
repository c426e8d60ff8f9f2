-- ===== src/Prelude/Texts.antt =====
-- Equality of texts, the `==` of `&str`.
use Prim.Native.Nat.{Ordering}
use Prim.Native.String.{String, compare}
use package.text.Mathlib.TextEquality.{path_by_compare}
use mathlib.Core.Path.{◌≡◌}
use mathlib.Core.Bool.{Bool, true, false}
use native.Mathlib.Omega.{arith}

abbrev pub is_text : String → String → Bool
is_text s t = elim (compare s t) [ Ordering.eq ↦ true | _ ↦ false ]

pub is_text→eq : (s t : String) → is_text s t ≡ true → s ≡ t
is_text→eq s t h = path_by_compare s t (ground arith)
