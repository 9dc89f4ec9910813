-- ===== src/HttpRoutes/Templates.antt =====
-- A path written from a template is read back to the values it was written with.
use sdk_local_manager.Prelude.{
  ℕ, zero, suc, ◌≡◌, refl, sym, ap, ◌∙◌, Bool, true, List, [], ◌∷◌, ◌++◌, arith, all, if◌then◌else◌,
  Option, some, none, eq_refl, length, ◌≤◌, Eq_ℕ, ◌==◌,
}
use sdk_local_manager.Prelude.Text.{Text, span}
use sdk_local_manager.Prelude.Regex.{Place, match_re, run_re}
use sdk_local_manager.Prelude.Greedy.{walked, Stops, at, run_re-group}
use sdk_local_manager.HttpRoutes.{
  Segment, literal, parameter, Parameter, fits, pattern_re, values_of, match_pattern, parameters_of,
  zip_names, groupdict, name_at, segments_from, closed, next_segments, Result, add_segment,
  add_parameter, is_name_char, parameter_of,
}

-- The path of a template, its parameters given values in order.
unfoldable pub render : List Segment → List Text → Text
render [] vs = []
render (literal c ∷ ss) vs = c ∷ render ss vs
render (parameter p ∷ ss) [] = []
render (parameter p ∷ ss) (v ∷ vs) = v ++ render ss vs

abbrev pub IsValue : Parameter → Text → Type 0
IsValue p [] = ⊥
IsValue p (c ∷ v) = all (fits p) (c ∷ v) ≡ true

-- A value for each parameter, which what follows it in the path does not go on.
abbrev pub AreValues : List Segment → List Text → Type 0
AreValues [] [] = Unit
AreValues [] (v ∷ vs) = ⊥
AreValues (literal c ∷ ss) vs = AreValues ss vs
AreValues (parameter p ∷ ss) [] = ⊥
AreValues (parameter p ∷ ss) (v ∷ vs) =
    IsValue p v × Stops (fits p) (render ss vs) × AreValues ss vs

abbrev added : ℕ → List Text → List (ℕ × Text) → List (ℕ × Text)
added n [] gs = gs
added n (v ∷ vs) gs = added (suc n) vs ((n, v) ∷ gs)

values_of-added :
    (n : ℕ) (vs acc : List Text) (gs : List (ℕ × Text))
    → values_of (added n vs gs) acc ≡ values_of gs (vs ++ acc)
unfolding values_of
values_of-added n [] acc gs = refl
values_of-added n (v ∷ vs) acc gs = values_of-added (suc n) vs acc ((n, v) ∷ gs)

abbrev end : ℕ → List Segment → List Text → Text → List (ℕ × Text) → Place
end n ss vs b gs = at (walked (render ss vs) b) [] (added n vs gs)

append_nil : (vs : List Text) → vs ++ [] ≡ vs
append_nil [] = refl
append_nil (v ∷ vs) = ap (◌∷◌ v) (append_nil vs)

walked-append : (u w b : Text) → walked (u ++ w) b ≡ walked w (walked u b)
walked-append [] w b = refl
walked-append (c ∷ u) w b = walked-append u w (c ∷ b)

run_re-render :
    (n : ℕ) (ss : List Segment) (vs : List Text) (b : Text) (gs : List (ℕ × Text))
    → AreValues ss vs
    → run_re (pattern_re n ss) (at b (render ss vs) gs) some ≡ some (end n ss vs b gs)
unfolding run_re render pattern_re
run_re-render n [] [] b gs h = refl
run_re-render n [] (v ∷ vs) b gs h = absurd h
run_re-render n (literal c ∷ ss) vs b gs h =
    ap (λ q. if q then run_re (pattern_re n ss) (at (c ∷ b) (render ss vs) gs) some else none)
      (eq_refl c)
    ∙ run_re-render n ss vs (c ∷ b) gs h
run_re-render n (parameter p ∷ ss) [] b gs h = absurd h
run_re-render n (parameter p ∷ ss) ([] ∷ vs) b gs h = absurd h.0
run_re-render n (parameter p ∷ ss) ((c ∷ v) ∷ vs) b gs h =
    run_re-group (fits p) gs (λ s. run_re (pattern_re (suc n) ss) s some)
      (end n (parameter p ∷ ss) ((c ∷ v) ∷ vs) b gs) n c b v (render ss vs) h.0 h.1
      (run_re-render (suc n) ss vs (walked (c ∷ v) b) ((n, c ∷ v) ∷ gs) h.2
        ∙ ap (λ w. some (at w [] (added (suc n) vs ((n, c ∷ v) ∷ gs))))
            (sym (walked-append (c ∷ v) (render ss vs) b)))

-- A path that follows a template, with a value for each parameter that the parameter accepts and that
-- what follows it in the path does not continue, is matched by the pattern of the template, which
-- reads exactly these values, by their names. (Two parameters side by side can break the condition: of
-- a job 1 and a project 2x the path 12x is read as the job 12 and the project x.)
pub match_pattern-render :
    (ss : List Segment) (vs : List Text)
    → AreValues ss vs
    → match_pattern ss (render ss vs) ≡ some (zip_names (parameters_of ss) vs)
unfolding match_pattern match_re run_re values_of
match_pattern-render ss vs h =
    ap (groupdict ss) (run_re-render 0 ss vs [] [] h)
    ∙ ap (λ v. some (zip_names (parameters_of ss) v)) (values_of-added 0 vs [] [] ∙ append_nil vs)

length-span : (p : ℕ → Bool) (t : Text) → length (span p t).1 ≤ length t
unfolding span
length-span p [] = omega arith
length-span p (c ∷ t) = ground (arith, length-span p t)

length-closed :
    (x : Text × Text) (name rest : Text) → closed x ≡ some (name, rest) → length rest ≤ length x.1
length-closed ([], t) name rest h = absurd (ground (arith, h))
length-closed (c ∷ u, []) name rest h = absurd (ground (arith, h))
length-closed (c ∷ u, d ∷ t) name rest h = ground (arith, h)

length-name_at : (t name rest : Text) → name_at t ≡ some (name, rest) → length rest ≤ length t
unfolding name_at
length-name_at t name rest h =
    omega (arith, length-closed (span is_name_char t) name rest h, length-span is_name_char t)

next_segments-agree :
    (f g : Text → Result (List Segment)) (c : ℕ) (t : Text) (o : Option (Text × Text))
    → f t ≡ g t
    → ((name rest : Text) → o ≡ some (name, rest) → f rest ≡ g rest)
    → next_segments f c t o ≡ next_segments g c t o
next_segments-agree f g c t none h k = ap (add_segment (literal c)) h
next_segments-agree f g c t (some (name, rest)) h k =
    ap (add_parameter name (parameter_of name)) (k name rest refl)

-- More rounds than characters change nothing of what is read of a template.
segments_from_fuel : (n : ℕ) (t : Text) → length t ≤ n → segments_from (suc n) t ≡ segments_from n t
unfolding segments_from
segments_from_fuel zero [] h = refl
segments_from_fuel zero (c ∷ t) h = absurd (omega arith)
segments_from_fuel (suc n) [] h = refl
segments_from_fuel (suc n) (c ∷ t) h =
    next_segments-agree (segments_from (suc n)) (segments_from n) c t
      (if c == b'{' then name_at t else none) (segments_from_fuel n t (omega arith))
      (λ name rest e.
        segments_from_fuel n rest
          (let l = length-name_at t name rest (ground (arith, e)) in omega arith))
