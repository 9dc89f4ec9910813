-- ===== src/CommandOutput/Tests.antt =====
-- Lines of commands, as they print them, and what is read of them.
use sdk_local_manager.Prelude.{◌+◌, ◌*◌, ◌≡◌, refl, true, some, [], Eq_ℕ, Eq_List}
use sdk_local_manager.Prelude.Dict
use sdk_local_manager.Prelude.Text.{txt}
use sdk_local_manager.Prelude.Regex.{search_re, split_on, fullmatch}
use sdk_local_manager.CommandOutput.Errors.{
  missing_python_import, missing_python_import_re, python_package_for_import, pip_package_aliases,
  missing_postgres_extension, missing_postgres_extension_re, undefined_postgres_type_re,
  postgres_type_extensions, report_expression_duplicate_module, report_expression_duplicate_re,
  parsed_data_file_re, module_name_re, third_last, parts_of, partially_initialized_import,
  partial_module_import_re, missing_view_field, missing_view_field_re,
}
use sdk_local_manager.CommandOutput.{fraction, parse_output_progress}
use sdk_local_manager.CommandOutput.Bounds.{IsWithin, parse_output_progress-IsWithin}

receiving :
    parse_output_progress (txt "remote: Receiving objects:  40% (2/4)  ")
    ≡ some (record { measure = fraction (10 * 4 + 65 * 2) 400; transient = true })
unfolding parse_output_progress
receiving = refl

parse_output_progress-IsWithin_example : IsWithin (fraction (10 * 4 + 65 * 2) 400)
parse_output_progress-IsWithin_example =
    parse_output_progress-IsWithin (txt "remote: Receiving objects:  40% (2/4)  ")
      (record { measure = fraction (10 * 4 + 65 * 2) 400; transient = true }) receiving

python_module :
    missing_python_import (txt "ModuleNotFoundError: No module named 'yaml.nodes'") ≡ txt "yaml"
unfolding missing_python_import missing_python_import_re search_re split_on
python_module = refl

odoo_module : missing_python_import (txt "ImportError: No module named 'odoo.addons.sale'") ≡ []
unfolding missing_python_import missing_python_import_re search_re split_on
odoo_module = refl

pillow : python_package_for_import (txt "PIL") ≡ txt "Pillow"
unfolding python_package_for_import pip_package_aliases Dict.get
pillow = refl

vector : missing_postgres_extension (txt "type \"public.halfvec\" does not exist") ≡ txt "vector"
unfolding missing_postgres_extension missing_postgres_extension_re undefined_postgres_type_re
    postgres_type_extensions search_re Dict.get
vector = refl

data_file :
    report_expression_duplicate_module
      (txt "account_report_expression_line_label_uniq while parsing /a/l10n_fr/data/tax.xml:12")
    ≡ txt "l10n_fr"
unfolding report_expression_duplicate_module report_expression_duplicate_re parsed_data_file_re
    module_name_re third_last parts_of search_re split_on fullmatch
data_file = refl

partial :
    partially_initialized_import (
      txt
        "cannot import name 'x' from partially initialized module 'odoo.addons.sale.models' (most likely) (/a/sale/models/__init__.py)")
    ≡ some (record {
      module_name = txt "sale";
      name = txt "x";
      file = txt "models/x.py";
      init = txt "models/__init__.py";
      directory = txt "/a/sale/models";
    })
unfolding partially_initialized_import partial_module_import_re parts_of search_re split_on
partial = refl

field : missing_view_field (txt "Le champ `x_name` n'existe pas") ≡ txt "x_name"
unfolding missing_view_field missing_view_field_re search_re
field = refl
