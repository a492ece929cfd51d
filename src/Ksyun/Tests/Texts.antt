-- ===== src/Ksyun/Tests/Texts.antt =====
-- Lists of texts in one text, and queries by them, for the service of the tests.
use Prim.Native.Char.{Char, code}
use Prim.Native.String.{◌++◌ as ◌++ₜ◌}
use text.Mathlib.TextLemmas.{nil-append, cons-append}
use vpc_route_controller.Common.{
  String, List, [], ◌∷◌, ◌≡◌, refl, ap, ◌∙◌, nat_eq, if◌then◌else◌, Dict,
}

-- The first character of a text before another text.
abbrev pub before : String → String → String
before String.[] s = s
before (String.◌∷◌ mark _) s = String.◌∷◌ mark s

-- Texts in one: every character is marked, and so is the end of a text.
unfoldable pub write : String → String → String
write String.[] rest = before "0" rest
write (String.◌∷◌ c s) rest = before "1" (String.◌∷◌ c (write s rest))

abbrev pub add : Char → List String → List String
add c [] = String.◌∷◌ c "" ∷ []
add c (s ∷ ss) = String.◌∷◌ c s ∷ ss

unfoldable pub read : String → List String
read String.[] = []
read (String.◌∷◌ mark String.[]) = "" ∷ []
read (String.◌∷◌ mark (String.◌∷◌ c s)) =
    let later = read s in
    let ended = read (String.◌∷◌ c s) in if nat_eq (code mark) 49 then add c later else "" ∷ ended

read-write : (s rest : String) → read (write s rest) ≡ s ∷ read rest
unfolding read write
read-write String.[] String.[] = refl
read-write String.[] (String.◌∷◌ c rest) = refl
read-write (String.◌∷◌ c s) rest = rw (read-write s rest) refl

unfoldable pub write_all : List String → String
write_all [] = ""
write_all (s ∷ ss) = write s (write_all ss)

pub read-write_all : (ss : List String) → read (write_all ss) ≡ ss
unfolding read write_all
read-write_all [] = refl
read-write_all (s ∷ ss) = read-write s (write_all ss) ∙ ap (λ xs. s ∷ xs) (read-write_all ss)

-- Queries.
abbrev pub texts_of : Dict String → List String
texts_of [] = []
texts_of ((key, value) ∷ query) = key ∷ value ∷ texts_of query

abbrev pub encode : Dict String → String
encode query = write_all (texts_of query)

-- A text without a text that it begins with.
unfoldable pub after : String → String → String
after String.[] s = s
after (String.◌∷◌ c p) String.[] = ""
after (String.◌∷◌ c p) (String.◌∷◌ d s) = after p s

pub after-append : (p s : String) → after p (p ++ₜ s) ≡ s
unfolding after
after-append String.[] s = nil-append s
after-append (String.◌∷◌ c p) s = rw cons-append (after-append p s)
