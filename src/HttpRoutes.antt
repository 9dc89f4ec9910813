-- ===== src/HttpRoutes.antt =====
-- odoo_manager_core/http_routes.py: the table of routes of the local API.
--
-- A pattern is the list of what its template says, read by Prelude/Regex. A view is any value.
pub mod Templates
pub mod Tests
use sdk_local_manager.Prelude.{
  ℕ, zero, suc, ◌+◌, Bool, true, false, not, ◌&&◌, ◌||◌, Option, none, some, List, [], ◌∷◌, ◌++◌,
  map, if◌then◌else◌, ◌==◌, Eq_ℕ, Eq_List, leb, length, contains, take, drop,
}
use sdk_local_manager.Prelude.Text.{Text, txt, is_digit, span, has_prefix}
use sdk_local_manager.Prelude.Regex.{Re, Place, one, seq, group, at_start, at_end, many1, match_re}

-- PATH_PARAMETERS, by their names
pub data Parameter : Type 0 where
  project job : Parameter

abbrev pub parameter_name : Parameter → Text
parameter_name project = txt "project"
parameter_name job = txt "job"

-- `[^/]+` and `[0-9]+`: the characters of a value
unfoldable pub fits : Parameter → ℕ → Bool
fits project c = not (c == b'/')
fits job c = is_digit c

unfoldable pub parameter_of : Text → Option Parameter
parameter_of name =
    if name == txt "project" then some project else if name == txt "job" then some job else none

pub data Segment : Type 0 where
  literal : ℕ → Segment
  parameter : Parameter → Segment

pub data RouteError : Type 0 where
  unknown_parameter : Text → RouteError
  repeated_parameter : RouteError
  declared_twice : (method template : Text) → RouteError

pub data Result {ℓ} (A : Type ℓ) : Type ℓ where
  ok : A → Result A
  raised : RouteError → Result A

abbrev pub is_name_char : ℕ → Bool
is_name_char c = (leb b'a' c && leb c b'z') || c == b'_'

-- The name between braces that the text begins with, its first brace read already.
abbrev pub closed : Text × Text → Option (Text × Text)
closed ([], rest) = none
closed (c ∷ name, []) = none
closed (c ∷ name, d ∷ rest) = if d == b'}' then some (c ∷ name, rest) else none

unfoldable pub name_at : Text → Option (Text × Text)
name_at t = closed (span is_name_char t)

abbrev pub add_segment : Segment → Result (List Segment) → Result (List Segment)
add_segment s (ok ss) = ok (s ∷ ss)
add_segment s (raised e) = raised e

abbrev pub add_parameter : Text → Option Parameter → Result (List Segment) → Result (List Segment)
add_parameter name none rest = raised (unknown_parameter name)
add_parameter name (some p) rest = add_segment (parameter p) rest

-- What stands here, and what `go` reads after it.
abbrev pub next_segments :
    (Text → Result (List Segment)) → ℕ → Text → Option (Text × Text) → Result (List Segment)
next_segments go c t none = add_segment (literal c) (go t)
next_segments go c t (some (name, rest)) = add_parameter name (parameter_of name) (go rest)

-- What the template says; each round reads a character at least, so that as many rounds as
-- characters are enough.
unfoldable pub segments_from : ℕ → Text → Result (List Segment)
segments_from zero t = ok []
segments_from (suc fuel) [] = ok []
segments_from (suc fuel) (c ∷ t) =
    next_segments (segments_from fuel) c t (if c == b'{' then name_at t else none)

abbrev pub parameters_of : List Segment → List Text
parameters_of [] = []
parameters_of (literal c ∷ ss) = parameters_of ss
parameters_of (parameter p ∷ ss) = parameter_name p ∷ parameters_of ss

unfoldable pub has_repeats : List Text → Bool
has_repeats [] = false
has_repeats (name ∷ names) = contains names name || has_repeats names

abbrev checked_pattern : Result (List Segment) → Result (List Segment)
checked_pattern (raised e) = raised e
checked_pattern (ok ss) =
    if has_repeats (parameters_of ss) then raised repeated_parameter else ok ss

unfoldable pub compile_template : Text → Result (List Segment)
compile_template template = checked_pattern (segments_from (length template) template)

-- The regular expression of a pattern, its groups numbered from n.
unfoldable pub pattern_re : ℕ → List Segment → Re
pattern_re n [] = at_end
pattern_re n (literal c ∷ ss) = seq (one (λ d. d == c)) (pattern_re n ss)
pattern_re n (parameter p ∷ ss) = seq (group n (many1 (one (fits p)))) (pattern_re (suc n) ss)

abbrev pub zip_names : List Text → List Text → List (Text × Text)
zip_names [] vs = []
zip_names (n ∷ ns) [] = []
zip_names (n ∷ ns) (v ∷ vs) = (n, v) ∷ zip_names ns vs

-- The groups that took part, first to last.
unfoldable pub values_of : List (ℕ × Text) → List Text → List Text
values_of [] vs = vs
values_of ((n, v) ∷ gs) vs = values_of gs (v ∷ vs)

-- `match.groupdict()`
abbrev pub groupdict : List Segment → Option Place → Option (List (Text × Text))
groupdict ss none = none
groupdict ss (some m) = some (zip_names (parameters_of ss) (values_of m.groups []))

unfoldable pub match_pattern : List Segment → Text → Option (List (Text × Text))
match_pattern ss path = groupdict ss (match_re (seq at_start (pattern_re 0 ss)) path)

pub record Route {ℓ} (View : Type ℓ) : Type ℓ where
  pub method : Text
  pub template : Text
  pub view : View
  pub pattern : List Segment

module _ {ℓ} {View : Type ℓ} where
  abbrev with_pattern : Text → Text → View → Result (List Segment) → Result (Route View)
  with_pattern method template view (raised e) = raised e
  with_pattern method template view (ok ss) =
      ok (record { method = method; template = template; view = view; pattern = ss })

  -- `Route(method, template, view, on_error)`, the view being the pair of the last two
  unfoldable pub new_route : Text → Text → View → Result (Route View)
  new_route method template view = with_pattern method template view (compile_template template)

  abbrev pub key_of : Route View → Text × Text
  key_of route = (route.method, route.template)

  abbrev pub seen_before : List (Text × Text) → Route View → Bool
  seen_before [] route = false
  seen_before ((m, t) ∷ seen) route =
      (m == route.method && t == route.template) || seen_before seen route

  unfoldable pub check_routes : List (Text × Text) → List (Route View) → Option RouteError
  check_routes seen [] = none
  check_routes seen (route ∷ routes) =
      let rest = check_routes (key_of route ∷ seen) routes in
      if seen_before seen route then some (declared_twice route.method route.template) else rest

  -- `Router(routes)`
  unfoldable pub new_router : List (Route View) → Result (List (Route View))
  new_router routes = elim (check_routes [] routes) [ none ↦ ok routes | some e ↦ raised e ]

  abbrev first_match :
      Route View
      → Option (List (Text × Text))
      → Option (Route View × List (Text × Text))
      → Option (Route View × List (Text × Text))
  first_match route (some params) rest = some (route, params)
  first_match route none rest = rest

  unfoldable pub resolve :
      List (Route View) → Text → Text → Option (Route View × List (Text × Text))
  resolve [] method path = none
  resolve (route ∷ routes) method path =
      let rest = resolve routes method path in
      if not (route.method == method)
      then rest
      else first_match route (match_pattern route.pattern path) rest

  unfoldable pub templates : List (Route View) → Text → Text → List Text
  templates [] method prefix = []
  templates (route ∷ routes) method prefix =
      let rest = templates routes method prefix in
      if route.method == method && has_prefix prefix route.template
      then route.template ∷ rest
      else rest
