-- ===== src/Floats/Naturals.antt =====
-- Natural numbers in place of floats, for the examples.
use Prim.Native.Char.{code}
use new_yokosuka_server.Base.{
  ℕ, ◌+◌, ◌-◌, ◌*◌, false, ◌&&◌, ◌==◌, String, Option, none, some, leb, ltb, if◌then◌else◌,
}
use new_yokosuka_server.Base.Int.{pos, pos_part}
use new_yokosuka_server.Base.Text.{show_ℕ}
use new_yokosuka_server.Floats.{Floats}

abbrev digits : ℕ → String → Option ℕ
digits n String.[] = some n
digits n (String.◌∷◌ c s) =
    let rest = digits (n * 10 + (code c - 48)) s in
    if leb 48 (code c) && leb (code c) 57 then rest else none

abbrev pub naturals : Floats
naturals = record {
  Float = ℕ;
  zero_float = 0;
  is_nan = λ x. false;
  is_inf = λ x. false;
  le_float = leb;
  lt_float = ltb;
  eq_float = λ x y. x == y;
  add_float = λ x y. x + y;
  sub_float = λ x y. x - y;
  mul_float = λ x y. x * y;
  trunc = λ x. x;
  parse_float = digits 0;
  format_float = show_ℕ;
  of_int = pos_part;
  to_int = pos;
}
