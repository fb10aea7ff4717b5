-- ===== src/Common/ApiKey/Bearer.antt =====
-- replace(/^Bearer\s+/i, '')
use Prim.Native.Char.{Char, code}
use Prim.Native.String.{String, [], ◌∷◌}
use async_long_request_proxy.Prelude.{◌+◌, Bool, ◌||◌, Option, none, some, nat_eq, if◌then◌else◌}
use async_long_request_proxy.Executor.Guard.Trim.{trim_start}
use async_long_request_proxy.Text.{is_white_space}

-- A letter of the header, and a small letter of the pattern.
abbrev pub same_letter : Char → Char → Bool
same_letter c d = nat_eq (code c) (code d) || nat_eq (code c + 32) (code d)

-- The rest of `s` after the letters of `p`.
unfoldable pub after_letters : String → String → Option String
after_letters [] s = some s
after_letters (d ∷ p) [] = none
after_letters (d ∷ p) (c ∷ s) =
    let rest = after_letters p s in if same_letter c d then rest else none

-- White space, at least one character.
abbrev pub after_space : String → String → String
after_space whole [] = whole
after_space whole (c ∷ s) = if is_white_space (code c) then trim_start s else whole

abbrev pub drop_bearer : String → String
drop_bearer auth = elim (after_letters "bearer" auth) [
  | none ↦ auth
  | some rest ↦ after_space auth rest
]
