-- ===== src/Http/Names.antt =====
-- `getServerName` of pkg/http/kophttp.go, which names a tracing span.
use vpc_route_controller.Common.{String, Option, none, some, ◌==◌, if◌then◌else◌}
use text.Mathlib.Text.{starts_with}
use vpc_route_controller.Http.Kop.{KopClient}

-- A text without as many characters as another has.
unfoldable pub drop_as : String → String → String
drop_as String.[] s = s
drop_as (String.◌∷◌ c p) String.[] = ""
drop_as (String.◌∷◌ c p) (String.◌∷◌ d s) = drop_as p s

-- `strings.Split(s, sep)[0]`, at a separator that is not empty.
unfoldable pub part_before : String → String → String
part_before sep String.[] = ""
part_before sep (String.◌∷◌ c s) =
    let rest = part_before sep s in
    if starts_with (String.◌∷◌ c s) sep then "" else String.◌∷◌ c rest

-- What follows the first separator, where there is one.
unfoldable pub part_after : String → String → Option String
unfolding drop_as
part_after sep String.[] = none
part_after sep (String.◌∷◌ c s) =
    let rest = part_after sep s in
    if starts_with (String.◌∷◌ c s) sep then some (drop_as sep (String.◌∷◌ c s)) else rest

-- `getServerName`
unfoldable pub get_server_name : KopClient → String
unfolding part_before part_after
get_server_name c =
    if c.servername == ""
    then (elim (part_after "://" c.url) [
      | none ↦ c.url
      | some rest ↦ part_before "/" (part_before "://" rest)
    ])
    else c.servername
