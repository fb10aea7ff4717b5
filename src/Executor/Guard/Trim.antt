-- ===== src/Executor/Guard/Trim.antt =====
-- String.prototype.trim, on a text as its characters.
use Prim.Native.Char.{code}
use Prim.Native.String.{String, [], ◌∷◌}
use async_long_request_proxy.Prelude.{◌&&◌, ◌==◌, if◌then◌else◌}
use async_long_request_proxy.Text.{is_white_space}

unfoldable pub trim_start : String → String
trim_start [] = ""
trim_start (c ∷ s) = let rest = trim_start s in if is_white_space (code c) then rest else c ∷ s

unfoldable pub trim_end : String → String
trim_end [] = ""
trim_end (c ∷ s) =
    let rest = trim_end s in if is_white_space (code c) && (rest == "") then "" else c ∷ rest

abbrev pub trim : String → String
trim s = trim_end (trim_start s)
