-- ===== src/FileNames/Tests.antt =====
-- syncback/file_names.rs on some names.
use roxo_mcp.Base.{◌≡◌, refl, none, some, ℕ_discrete}
use roxo_mcp.Base.Text.{codes, List_discrete}
use roxo_mcp.Base.Names.{Text_discrete}
use roxo_mcp.FileNames.{
  module_script, dir, named, illegal, forbidden_character, reserved_name, validate_file_name,
  name_for_inst,
}
use roxo_mcp.FileNames.Legal

program : Unit {0}
unfolding ℕ_discrete List_discrete Text_discrete validate_file_name name_for_inst
program = tt

slash : name_for_inst module_script (codes "a/b") none ≡ illegal forbidden_character
unfolding program
slash = refl

-- A directory gets the name as it is.
directory : name_for_inst dir (codes "../b") none ≡ named (codes "../b")
unfolding program
directory = refl

reserved : validate_file_name (codes "CON") ≡ some reserved_name
unfolding program
reserved = refl

-- The reserved names are compared with their case.
lower_case : validate_file_name (codes "con") ≡ none
unfolding program
lower_case = refl
