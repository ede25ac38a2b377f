-- ===== src/Session/Names.antt =====
-- The name of a new buffer: the `while` of `_create_buffer` tries the name, then `name<2>`,
-- `name<3>` and so on. It has as much fuel as there are buffers, and one more.
pub mod Fresh
use drei.Base.{
  ℕ, zero, suc, ◌+◌, Str, codes, show_nat, Assoc, contains, List, [], ◌∷◌, ◌++◌, Option, none, some,
  length, if◌then◌else◌,
}

unfoldable pub numbered : Str → ℕ → Str
numbered name suffix = name ++ (codes "<" ++ (show_nat suffix ++ codes ">"))

unfoldable pub try_names {ℓ} : {V : Type ℓ} → ℕ → Str → ℕ → Str → Assoc V → Option Str
unfolding numbered
try_names zero name suffix candidate used = none
try_names (suc fuel) name suffix candidate used =
    let next = try_names fuel name (suffix + 1) (numbered name suffix) used in
    if contains candidate used then next else some candidate

unfoldable pub unique_name {ℓ} : {V : Type ℓ} → Str → Assoc V → Option Str
unfolding try_names
unique_name name used = try_names (length used + 1) name 2 name used
