-- ===== src/Base/Maps.antt =====
-- Tables by their primary key: a function into `Option`, and the write of one key.
use Prim.Native.Nat.{ℕ}
use Prim.Native.String.{String}
use text.Mathlib.Text.{◌==◌ as str_eq}
use new_yokosuka_server.Base.Tests.{◌==◌, if◌then◌else◌}

module _ {ℓ} {V : Type ℓ} where
  -- Rows by a number; `none` deletes.
  abbrev pub put : (ℕ → V) → ℕ → V → ℕ → V
  put m k v j = if j == k then v else m j

  -- Rows by a text.
  abbrev pub put_text : (String → V) → String → V → String → V
  put_text m k v j = if str_eq j k then v else m j
