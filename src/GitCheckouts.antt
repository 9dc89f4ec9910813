-- ===== src/GitCheckouts.antt =====
-- odoo_manager_core/git_checkouts.py: the Git copies that a project's modules come from.
--
-- The disk is a parameter: what the files hold and where a path leads. It does not change while the
-- functions of this file read it.
pub mod Finder
pub mod Refs
pub mod Addresses
pub mod Reading
pub mod Tests
use sdk_local_manager.Prelude.{
  ℕ, zero, suc, Bool, true, false, not, ◌&&◌, ◌||◌, Option, none, some, List, [], ◌∷◌, ◌++◌, map,
  if◌then◌else◌, ◌==◌, Eq_ℕ, Eq_List, contains,
}
use sdk_local_manager.Prelude.Dict
use sdk_local_manager.Prelude.Dict.{Dict}
use sdk_local_manager.Prelude.Text.{Text, txt}

pub record Disk : Type 0 where
  -- `os.path.normcase(os.path.normpath(path))`, and `os.path.dirname`
  pub normalized : Text → Text
  pub dirname : Text → Text
  pub lexists : Text → Bool
  pub is_file : Text → Bool
  pub is_dir : Text → Bool
  pub is_absolute : Text → Bool
  -- `none`: the file cannot be read (OSError)
  pub read_text : Text → Option Text

pub sdk_info_file : Text
sdk_info_file = txt "info.sdk"

-- `os.path.join(directory, name)`, of a name that begins with no slash
abbrev pub join : Text → Text → Text
join [] name = name
join (c ∷ []) name = if c == b'/' then c ∷ name else c ∷ b'/' ∷ name
join (c ∷ d ∷ directory) name = c ∷ join (d ∷ directory) name

pub record CheckoutFinder : Type 0 where
  pub boundaries : List Text
  pub levels : ℕ
  pub checkouts : Dict Text Bool

module _ (disk : Disk) where
  -- `CheckoutFinder(boundaries, levels)`
  abbrev pub new_finder : List Text → ℕ → CheckoutFinder
  new_finder boundaries levels = record {
    boundaries = map disk.normalized boundaries;
    levels = levels;
    checkouts = [];
  }

  -- What the disk says of a directory.
  unfoldable pub holds_checkout : List Text → Text → Bool
  holds_checkout boundaries key =
      not (contains boundaries key)
      && (disk.lexists (join key (txt ".git")) || disk.is_file (join key sdk_info_file))

  abbrev pub looked_up : CheckoutFinder → Text → Option Bool → Bool × CheckoutFinder
  looked_up finder key (some known) = (known, finder)
  looked_up finder key none =
      let found = holds_checkout finder.boundaries key in
      (found, record finder { checkouts = Dict.put key found finder.checkouts })

  unfoldable pub is_checkout : CheckoutFinder → Text → Bool × CheckoutFinder
  is_checkout finder directory =
      let key = disk.normalized directory in looked_up finder key (Dict.get key finder.checkouts)

  -- The loop over the parents, at most `levels` of them.
  unfoldable pub climb : ℕ → CheckoutFinder → Text → Text × CheckoutFinder
  climb zero finder directory = ([], finder)
  climb (suc n) finder directory =
      let parent = disk.dirname directory in
      let (found, finder') = is_checkout finder parent in
      let above = climb n finder' parent in
      if parent == directory || contains finder.boundaries (disk.normalized parent)
      then ([], finder)
      else if found
      then (parent, finder')
      else above

  abbrev pub root_from : Text → Bool × CheckoutFinder → Text × CheckoutFinder
  root_from module_dir (true, finder) = (module_dir, finder)
  root_from module_dir (false, finder) = climb finder.levels finder module_dir

  unfoldable pub root : CheckoutFinder → Text → Bool → Text × CheckoutFinder
  root finder module_dir check_module =
      if check_module
      then root_from module_dir (is_checkout finder module_dir)
      else climb finder.levels finder module_dir
