-- ===== src/JobControl/DockerMark.antt =====
-- odoo_manager_core/jobs.py, `mark_docker_arguments`: a `docker exec` of the current action carries
-- the action's token, so that a stop finds its processes inside the container.
use mathlib.Core.Path.{subst}
use sdk_local_manager.Prelude.{
  ◌≡◌, refl, sym, ap, ◌∙◌, ◌⊎◌, inl, inr, ◌↔◌, Bool-cases, eq_iff, Bool, true, false, not, ◌&&◌,
  ◌||◌, Option, none, some, List, [], ◌∷◌, ◌++◌, arith, if◌then◌else◌, ◌==◌, contains, Eq_ℕ,
  Eq_List, any, All,
}
use sdk_local_manager.Prelude.Text.{Text, txt, has_prefix}
use sdk_local_manager.JobControl.{Control, mark_container, tail}

abbrev value_options : List Text
value_options =
    txt "-e"
    ∷ txt "--env"
    ∷ txt "--env-file"
    ∷ txt "-u"
    ∷ txt "--user"
    ∷ txt "-w"
    ∷ txt "--workdir"
    ∷ txt "--detach-keys"
    ∷ []

unfoldable pub takes_value : Text → Bool
takes_value option = contains value_options option

-- `-d`, `--detach`, or a group of short options with a `d`
unfoldable pub detaches : Text → Bool
detaches option =
    contains (txt "-d" ∷ txt "--detach" ∷ []) option
    || (has_prefix (txt "-") option
        && not (has_prefix (txt "--") option)
        && contains (tail option) b'd')

unfoldable pub is_option : Text → Bool
is_option argument = has_prefix (txt "-") argument

-- The `while` loop over the arguments behind `exec`: whether a detaching option was met, and the
-- first free argument. An option with a value takes the argument behind it along.
unfoldable pub scan_options : Bool → List Text → Bool × Option Text
unfolding is_option detaches takes_value
scan_options detached [] = (detached, none)
scan_options detached (a ∷ []) =
    if is_option a then (detached || detaches a, none) else (detached, some a)
scan_options detached (a ∷ v ∷ rest) = elim (is_option a) [
  | true ↦ elim (takes_value a) [
    | true ↦ scan_options (detached || detaches a) rest
    | false ↦ scan_options (detached || detaches a) (v ∷ rest)
  ]
  | false ↦ (detached, some a)
]

unfoldable pub env_mark : Text → Text
env_mark token = txt "ODOO_MANAGER_JOB=" ++ token

abbrev marked : List Text → Text → List Text → Bool × Option Text → Control → List Text × Control
marked prefix token rest (false, some container) c =
    (txt "exec" ∷ txt "-e" ∷ env_mark token ∷ rest, mark_container prefix container c)
marked prefix token rest _ c = (txt "exec" ∷ rest, c)

-- Without a current action (`none`) nothing is marked.
unfoldable pub mark_docker_arguments :
    List Text → List Text → Option Control → List Text × Option Control
unfolding scan_options env_mark
mark_docker_arguments prefix arguments none = (arguments, none)
mark_docker_arguments prefix [] (some c) = ([], some c)
mark_docker_arguments prefix (command ∷ rest) (some c) =
    if command == txt "exec"
    then (let (args, c') = marked prefix c.token rest (scan_options false rest) c in
        (args, some c'))
    else (command ∷ rest, some c)

-- A well-formed command line of `docker exec`, as Docker documents it: options, each with its value
-- if it takes one, then the container, which is no option, then the command.
pub data ExecOption : Type 0 where
  flag : Text → ExecOption
  valued : Text → Text → ExecOption

abbrev pub name_of : ExecOption → Text
name_of (flag a) = a
name_of (valued a v) = a

abbrev pub render : List ExecOption → List Text → List Text
render [] rest = rest
render (flag a ∷ opts) rest = a ∷ render opts rest
render (valued a v ∷ opts) rest = a ∷ v ∷ render opts rest

-- The options that take the argument behind them as their value.
abbrev pub documented_options : List Text
documented_options =
    txt "-e"
    ∷ txt "--env"
    ∷ txt "--env-file"
    ∷ txt "-u"
    ∷ txt "--user"
    ∷ txt "-w"
    ∷ txt "--workdir"
    ∷ txt "--detach-keys"
    ∷ []

abbrev pub IsExecOption : ExecOption → Type 0
IsExecOption (flag a) = (has_prefix (txt "-") a ≡ true) × (contains documented_options a ≡ false)
IsExecOption (valued a v) = (has_prefix (txt "-") a ≡ true) × (contains documented_options a ≡ true)

-- `-d`, `--detach`, or one dash followed by a text with a `d` in it.
abbrev pub IsDetachOption : Text → Type 0
IsDetachOption a =
    (a ≡ txt "-d")
    ⊎ (a ≡ txt "--detach")
    ⊎ ((t : Text) × (a ≡ b'-' ∷ t) × (has_prefix (txt "-") t ≡ false) × (contains t b'd' ≡ true))

abbrev pub Detaching : List ExecOption → Type 0
Detaching [] = ⊥
Detaching (o ∷ opts) = IsDetachOption (name_of o) ⊎ Detaching opts

abbrev detaching : List ExecOption → Bool
detaching opts = any (λ o. detaches (name_of o)) opts

scan_options-flag :
    (d : Bool) (a v : Text) (rest : List Text)
    → is_option a ≡ true
    → takes_value a ≡ false
    → scan_options d (a ∷ v ∷ rest) ≡ scan_options (d || detaches a) (v ∷ rest)
unfolding scan_options
scan_options-flag d a v rest o t = ground arith

scan_options-render :
    (d : Bool) (opts : List ExecOption) (container : Text) (command : List Text)
    → All IsExecOption opts
    → is_option container ≡ false
    → scan_options d (render opts (container ∷ command)) ≡ ((d || detaching opts), some container)
unfolding scan_options
scan_options-render d [] container [] h c = ground arith
scan_options-render d [] container (x ∷ command) h c = ground arith
scan_options-render d (valued a v ∷ opts) container command h c =
    ground (arith, scan_options-render (d || detaches a) opts container command h.1 c)
scan_options-render d (flag a ∷ []) container command h c =
    scan_options-flag d a container command h.0.0 h.0.1
    ∙ (scan_options-render (d || detaches a) [] container command h.1 c ∙ ground arith)
scan_options-render d (flag a ∷ flag b ∷ opts) container command h c =
    scan_options-flag d a b (render opts (container ∷ command)) h.0.0 h.0.1
    ∙ (scan_options-render (d || detaches a) (flag b ∷ opts) container command h.1 c ∙ ground arith)
scan_options-render d (flag a ∷ valued b v ∷ opts) container command h c =
    scan_options-flag d a b (v ∷ render opts (container ∷ command)) h.0.0 h.0.1
    ∙ (scan_options-render (d || detaches a) (valued b v ∷ opts) container command h.1 c
        ∙ ground arith)

mark-detaching :
    (prefix : List Text) (opts : List ExecOption) (container : Text) (command : List Text)
    (c : Control)
    → All IsExecOption opts
    → has_prefix (txt "-") container ≡ false
    → mark_docker_arguments prefix (txt "exec" ∷ render opts (container ∷ command)) (some c) ≡ (
        if detaching opts then (txt "exec" ∷ render opts (container ∷ command), some c) else (
          txt "exec" ∷ txt "-e" ∷ env_mark c.token ∷ render opts (container ∷ command),
          some (mark_container prefix container c),
        ))
unfolding mark_docker_arguments is_option takes_value
mark-detaching prefix opts container command c h o =
    rw (scan_options-render false opts container command h o) (ground arith)

or_last : (a b c : Bool) → a ≡ false → b ≡ false → ((a || (b || false)) || c) ≡ true → c ≡ true
or_last a b c e f h = ground arith

IsDetachOption-group :
    (a : Text)
    → (has_prefix (txt "-") a && not (has_prefix (txt "--") a) && contains (tail a) b'd') ≡ true
    → IsDetachOption a
IsDetachOption-group [] h = absurd (ground (arith, h))
IsDetachOption-group (c ∷ t) h =
    let e : (b'-' == c) ≡ true = ground (arith, h) in
    inr (
      inr (
        t,
        ap (λ x. x ∷ t) (sym ((eq_iff b'-' c).0 e)),
        ground (arith, h, e),
        ground (arith, h, e),
      ))

IsDetachOption-detaches : (a : Text) → IsDetachOption a → detaches a ≡ true
unfolding detaches
IsDetachOption-detaches a (inl e) = subst (λ x. detaches x ≡ true) (sym e) refl
IsDetachOption-detaches a (inr (inl e)) = subst (λ x. detaches x ≡ true) (sym e) refl
IsDetachOption-detaches a (inr (inr (t, e, f, g))) =
    subst (λ x. detaches x ≡ true) (sym e) (ground (arith, f, g))

detaches-IsDetachOption : (a : Text) → detaches a ≡ true → IsDetachOption a
unfolding detaches
detaches-IsDetachOption a h = elim (Bool-cases (txt "-d" == a)) [
  | inl e ↦ inl (sym ((eq_iff (txt "-d") a).0 e))
  | inr e ↦ elim (Bool-cases (txt "--detach" == a)) [
    | inl f ↦ inr (inl (sym ((eq_iff (txt "--detach") a).0 f)))
    | inr f ↦ IsDetachOption-group a (or_last (txt "-d" == a) (txt "--detach" == a) _ e f h)
  ]
]

detaching-Detaching : (opts : List ExecOption) → (detaching opts ≡ true) ↔ Detaching opts
detaching-Detaching [] = (λ h. absurd (ground (arith, h)), λ h. absurd h)
detaching-Detaching (o ∷ opts) = ground (
  arith,
  detaches-IsDetachOption (name_of o),
  IsDetachOption-detaches (name_of o),
  detaching-Detaching opts,
)

if_true {ℓ} : {A : Type ℓ} (b : Bool) (x y : A) → b ≡ true → (if b then x else y) ≡ x
if_true b x y h = ap (λ c. if c then x else y) h

if_false {ℓ} : {A : Type ℓ} (b : Bool) (x y : A) → b ≡ false → (if b then x else y) ≡ y
if_false b x y h = ap (λ c. if c then x else y) h

not-true : (b : Bool) → ¬ (b ≡ true) → b ≡ false
not-true true h = absurd (h refl)
not-true false h = refl

-- What `docker exec` becomes, with its options, container and command.
abbrev pub IsMarked : List Text → List ExecOption → Text → List Text → Control → Type 0
IsMarked prefix opts container command c =
    (Detaching opts
      → mark_docker_arguments prefix (txt "exec" ∷ render opts (container ∷ command)) (some c)
        ≡ (txt "exec" ∷ render opts (container ∷ command), some c))
    × (¬ Detaching opts
        → mark_docker_arguments prefix (txt "exec" ∷ render opts (container ∷ command)) (some c) ≡ (
          txt "exec" ∷ txt "-e" ∷ env_mark c.token ∷ render opts (container ∷ command),
          some (mark_container prefix container c),
        ))

-- A `docker exec` of the action, each option followed by its value if it is one of the eight that
-- the code knows: when an option is `-d`, `--detach` or one dash before a text with a `d`, it is left
-- as it is and nothing is recorded; otherwise its options, container and command stay, the action's
-- token stands before them, and the container is recorded with the prefix that reaches it.
pub mark_docker_arguments-render :
    (prefix : List Text) (opts : List ExecOption) (container : Text) (command : List Text)
    (c : Control)
    → All IsExecOption opts
    → has_prefix (txt "-") container ≡ false
    → IsMarked prefix opts container command c
mark_docker_arguments-render prefix opts container command c h o =
    let e = mark-detaching prefix opts container command c h o in
    (
      λ d. e ∙ if_true (detaching opts) _ _ ((detaching-Detaching opts).1 d),
      λ n.
          e
          ∙ if_false (detaching opts) _ _
              (not-true (detaching opts) (λ d. n ((detaching-Detaching opts).0 d))),
    )

-- What is no `docker exec`, and what no action runs, is passed on as it is.
pub mark_docker_arguments_other :
    (prefix : List Text) (command : Text) (rest : List Text) (c : Control)
    → (command == txt "exec") ≡ false
    → (mark_docker_arguments prefix (command ∷ rest) (some c) ≡ (command ∷ rest, some c))
      × (mark_docker_arguments prefix (command ∷ rest) none ≡ (command ∷ rest, none))
unfolding mark_docker_arguments
mark_docker_arguments_other prefix command rest c h = (ground arith, refl)
