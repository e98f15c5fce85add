-- ===== src/Common/Text/Words.antt =====
-- `s.split()` and the rest of a text after its first space.
use Prim.Native.Char.{Char, code}
use Prim.Native.String.{String, [], ◌∷◌}
use mathlib.Core.Path.{◌≡◌, refl}
use mathlib.Core.Bool.{Bool, true}
use mathlib.Core.List.{List}
use sip_proxy.Common.Tests.{◌==◌, if◌then◌else◌}
use sip_proxy.Common.Text.{is_space}

-- No letter of a word follows.
ends_word : String → Bool
unfolding is_space
ends_word [] = true
ends_word (c ∷ s) = is_space (code c)

onto_word : Char → List String → List String
onto_word c List.[] = List.◌∷◌ (c ∷ []) List.[]
onto_word c (List.◌∷◌ w ws) = List.◌∷◌ (c ∷ w) ws

-- `s.split()`
unfoldable pub words : String → List String
unfolding is_space ends_word onto_word
words [] = List.[]
words (c ∷ s) =
    let rest = words s in
    if is_space (code c)
    then rest
    else (if ends_word s then List.◌∷◌ (c ∷ []) rest else onto_word c rest)

-- `s.split(" ", 1)[1]`, where the text has a space
unfoldable pub after_space : String → String
after_space [] = []
after_space (c ∷ s) = let rest = after_space s in if code c == 32 then s else rest

words_test :
    words "  ssh-rsa\tAAAA  me " ≡ List.◌∷◌ "ssh-rsa" (List.◌∷◌ "AAAA" (List.◌∷◌ "me" List.[]))
unfolding words
words_test = refl
