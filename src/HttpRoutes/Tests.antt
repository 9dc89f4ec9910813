-- ===== src/HttpRoutes/Tests.antt =====
-- Two routes, and the theorem of the templates at one.
use sdk_local_manager.Prelude.{ℕ, ◌≡◌, refl, some, none, List, [], ◌∷◌, Eq_ℕ, Eq_List}
use sdk_local_manager.Prelude.Text.{txt, span}
use sdk_local_manager.Prelude.Regex.{match_re}
use sdk_local_manager.HttpRoutes.{
  Segment, literal, parameter, project, job, compile_template, segments_from, name_at, parameter_of,
  has_repeats, ok, raised, unknown_parameter, match_pattern, pattern_re, values_of, fits, Route,
  new_router, check_routes, declared_twice, resolve,
}
use sdk_local_manager.HttpRoutes.Templates.{render, match_pattern-render}

abbrev output_of : List Segment
output_of = literal b'/' ∷ parameter project ∷ literal b'/' ∷ parameter job ∷ []

compiled : compile_template (txt "/{project}/{job}") ≡ ok output_of
unfolding compile_template segments_from name_at span parameter_of has_repeats
compiled = refl

unknown : compile_template (txt "/{database}") ≡ raised (unknown_parameter (txt "database"))
unfolding compile_template segments_from name_at span parameter_of has_repeats
unknown = refl

abbrev route : Route ℕ
route = record {
  method = txt "GET";
  template = txt "/{project}/{job}";
  view = 1;
  pattern = output_of;
}

twice :
    new_router (route ∷ route ∷ []) ≡ raised (declared_twice (txt "GET") (txt "/{project}/{job}"))
unfolding new_router check_routes
twice = refl

resolved :
    resolve (route ∷ []) (txt "GET") (txt "/demo/12")
    ≡ some (route, (txt "project", txt "demo") ∷ (txt "job", txt "12") ∷ [])
unfolding resolve match_pattern match_re pattern_re values_of fits
resolved = refl

not_a_number : resolve (route ∷ []) (txt "GET") (txt "/demo/x") ≡ none
unfolding resolve match_pattern match_re pattern_re values_of fits
not_a_number = refl

match_pattern-render_example :
    match_pattern output_of (render output_of (txt "demo" ∷ txt "12" ∷ []))
    ≡ some ((txt "project", txt "demo") ∷ (txt "job", txt "12") ∷ [])
unfolding fits render
match_pattern-render_example =
    match_pattern-render output_of (txt "demo" ∷ txt "12" ∷ []) (refl, refl, (refl, tt, tt))
